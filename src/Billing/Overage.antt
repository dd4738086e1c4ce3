-- ===== src/Billing/Overage.antt =====
-- `getOverageSystemModelCost` of frontend/worker/src/ee/billing/usageMetering.ts: which messages the
-- cost of AI runs beyond the quota is summed over. The table of a workspace's messages is in the order
-- of their times.
pub mod Beyond
pub mod Tests
use traceroot.Prelude.{
  Option, keep, [], Bool, leb, ltb, ◌∷◌, List, suc, none, some, not, ◌&&◌, zero, ℕ,
}

pub record AiMessage : Type 0 where
  pub time : ℕ
  pub is_chat : Bool  -- kind "chat" and role "assistant"
  pub is_byok : Bool
  pub cost : ℕ

abbrev pub in_window : ℕ → ℕ → AiMessage → Bool
in_window from until m = m.is_chat && (leb from m.time && ltb m.time until)

-- `skip`
abbrev pub drop : ℕ → List AiMessage → List AiMessage
drop zero xs = xs
drop (suc n) [] = []
drop (suc n) (x ∷ xs) = drop n xs

-- the first message after the quota
abbrev pub first_after : ℕ → List AiMessage → Option AiMessage
first_after zero [] = none
first_after zero (x ∷ xs) = some x
first_after (suc n) [] = none
first_after (suc n) (x ∷ xs) = first_after n xs

abbrev pub from_cutoff : List AiMessage → ℕ → Option AiMessage → List AiMessage
from_cutoff table until none = []
from_cutoff table until (some cutoff) = keep (in_window cutoff.time until) table

unfoldable pub overage_messages : List AiMessage → ℕ → ℕ → ℕ → List AiMessage
overage_messages table included from until =
    keep (λ (m : AiMessage). not m.is_byok)
      (from_cutoff table until (first_after included (keep (in_window from until) table)))
