-- ===== src/Billing/Overage/Tests.antt =====
-- Four chat messages, one with the user's own key, and a quota of one.
use traceroot.Billing.Overage.Beyond.{overage_messages_lem}
use traceroot.Billing.Overage.{drop, in_window, AiMessage, overage_messages}
use traceroot.Prelude.{keep, ◌∷◌, arith, false, Bool, [], not, ◌≡◌, List, refl, true, ℕ}

abbrev at_time : ℕ → Bool → Bool → AiMessage
at_time t chat own_key = record { time = t; is_chat = chat; is_byok = own_key; cost = t }

abbrev table : List AiMessage
table =
    at_time 1 true false
    ∷ at_time 5 true false
    ∷ at_time 6 false false
    ∷ at_time 7 true true
    ∷ at_time 8 true false
    ∷ at_time 20 true false
    ∷ []

overage_result : overage_messages table 1 2 10 ≡ at_time 8 true false ∷ []
unfolding overage_messages
overage_result = refl

overage_messages_lem_example :
    overage_messages table 1 2 10
    ≡ keep (λ (m : AiMessage). not m.is_byok) (drop 1 (keep (in_window 2 10) table))
overage_messages_lem_example =
    overage_messages_lem table 1 2 10
      (omega arith, (omega arith, (omega arith, (omega arith, (omega arith, tt)))))
