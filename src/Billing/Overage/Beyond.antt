-- ===== src/Billing/Overage/Beyond.antt =====
-- The overage is what lies beyond the quota.
use traceroot.Billing.Overage.{
  overage_messages, first_after, drop, from_cutoff, AiMessage, in_window,
}
use traceroot.Prelude.{
  not, ◌∙◌, true, zero, suc, inr, some, Bool, inl, none, ap, Bool-cases, Option, arith, ◌≤◌, ◌<◌,
  ◌∷◌, ◌≡◌, keep, [], List, refl, ℕ,
}

-- later than a time, each message later than the one before
abbrev pub IsAfter : ℕ → List AiMessage → Type 0
IsAfter t [] = Unit
IsAfter t (m ∷ ms) = (t < m.time) × IsAfter m.time ms

abbrev pub IsAscending : List AiMessage → Type 0
IsAscending [] = Unit
IsAscending (m ∷ ms) = IsAfter m.time ms

earlier : (s t : ℕ) (ms : List AiMessage) → s ≤ t → IsAfter t ms → IsAfter s ms
earlier s t [] h a = tt
earlier s t (m ∷ ms) h a = (omega (arith, h, a.0), a.1)

IsAfter-keep :
    (t : ℕ) (p : AiMessage → Bool) (ms : List AiMessage) → IsAfter t ms → IsAfter t (keep p ms)
IsAfter-keep t p [] a = tt
IsAfter-keep t p (m ∷ ms) a =
    let rest = IsAfter-keep m.time p ms a.1 in
    elim (Bool-cases (p m)) [
      | inl kept ↦ rw kept (a.0, rest)
      | inr dropped ↦ rw dropped (earlier t m.time (keep p ms) (omega (arith, a.0)) rest)
    ]

first_later :
    (t n : ℕ) (ms : List AiMessage) (c : AiMessage)
    → IsAfter t ms
    → first_after n ms ≡ some c
    → t < c.time
first_later t zero [] c a h = cc
first_later t zero (m ∷ ms) c a h = ground (arith, a.0, ap (λ (o : Option AiMessage). o) h)
first_later t (suc n) [] c a h = cc
first_later t (suc n) (m ∷ ms) c a h =
    first_later t n ms c (earlier t m.time ms (omega (arith, a.0)) a.1) h

-- In a list that is later than the cutoff, the cutoff filters like any earlier start.
same_window :
    (from until t : ℕ) (ms : List AiMessage)
    → from ≤ t
    → IsAfter t ms
    → keep (in_window t until) ms ≡ keep (in_window from until) ms
same_window from until t [] h a = refl
same_window from until t (m ∷ ms) h a =
    ground
      (arith, h, a.0, same_window from until t ms h (earlier t m.time ms (omega (arith, a.0)) a.1))

-- A cutoff after a message drops that message.
skip :
    (until : ℕ) (m : AiMessage) (ms : List AiMessage) (o : Option AiMessage)
    → ((c : AiMessage) → o ≡ some c → m.time < c.time)
    → from_cutoff (m ∷ ms) until o ≡ from_cutoff ms until o
skip until m ms none h = refl
skip until m ms (some c) h = ground (arith, h c refl)

IsAscending-tail : (t : ℕ) (ms : List AiMessage) → IsAfter t ms → IsAscending ms
IsAscending-tail t [] a = tt
IsAscending-tail t (m ∷ ms) a = a.1

at_cutoff :
    (from until : ℕ) (m : AiMessage) (ms : List AiMessage)
    → in_window from until m ≡ true
    → IsAfter m.time ms
    → keep (in_window m.time until) (m ∷ ms) ≡ m ∷ keep (in_window from until) ms
at_cutoff from until m ms h a =
    let early : from ≤ m.time = ground (arith, h) in
    ground (arith, h, same_window from until m.time ms early a)

past :
    (from until n : ℕ) (m : AiMessage) (ms : List AiMessage)
    → IsAfter m.time ms
    → from_cutoff (m ∷ ms) until (first_after n (keep (in_window from until) ms))
      ≡ from_cutoff ms until (first_after n (keep (in_window from until) ms))
past from until n m ms a = skip until m ms (first_after n (keep (in_window from until) ms)) (λ c e.
    first_later m.time n (keep (in_window from until) ms) c
      (IsAfter-keep m.time (in_window from until) ms a) e)

cutoff_drops :
    (from until n : ℕ) (ms : List AiMessage)
    → IsAscending ms
    → from_cutoff ms until (first_after n (keep (in_window from until) ms))
      ≡ drop n (keep (in_window from until) ms)
cutoff_drops from until zero [] a = refl
cutoff_drops from until (suc n) [] a = refl
cutoff_drops from until zero (m ∷ ms) a = elim (Bool-cases (in_window from until m)) [
  | inr out ↦
      rw out (
        past from until zero m ms a
        ∙ cutoff_drops from until zero ms (IsAscending-tail m.time ms a))
  | inl inside ↦ rw inside (at_cutoff from until m ms inside a)
]
cutoff_drops from until (suc n) (m ∷ ms) a = elim (Bool-cases (in_window from until m)) [
  | inr out ↦ rw out (
      past from until (suc n) m ms a
      ∙ cutoff_drops from until (suc n) ms (IsAscending-tail m.time ms a))
  | inl inside ↦
      rw inside
        (past from until n m ms a ∙ cutoff_drops from until n ms (IsAscending-tail m.time ms a))
]

-- If no two messages of the table have the same time, the cost is summed over the messages of the
-- window that use a system model and are beyond the first `included` chat messages of the window.
pub overage_messages_lem :
    (table : List AiMessage) (included from until : ℕ)
    → IsAscending table
    → overage_messages table included from until
      ≡ keep (λ (m : AiMessage). not m.is_byok) (drop included (keep (in_window from until) table))
unfolding overage_messages
overage_messages_lem table included from until a =
    ap (keep (λ (m : AiMessage). not m.is_byok)) (cutoff_drops from until included table a)
