-- ===== src/Billing/Stripe/Quantity.antt =====
-- The quantity of a subscription's plan line, once it is written.
use traceroot.Table.Updates.{keep-update, find-update}
use traceroot.Table.{find_sound, UniqueIds, update_by_id}
use traceroot.Billing.Stripe.{quantity_for, update_stripe_quantity, SubscriptionItem, plan_item}
use traceroot.Prelude.{
  true, arith, ap, not, opt_eq_self, ◌∙◌, refl, sym, false, Option, subst, Bool, some, Option-cases,
  Bool-cases, keep, opt_eq, List, ◌==◌, inr, none, ◌≡◌, any, inl, ℕ,
}

abbrev pub item_id : SubscriptionItem → ℕ
item_id i = i.id

abbrev pub is_metered : List ℕ → SubscriptionItem → Bool
is_metered metered i = any (λ p. p == i.price) metered

abbrev with_quantity : ℕ → SubscriptionItem → SubscriptionItem
with_quantity n i = record i { quantity = some n }

-- the lines of the subscription after `subscriptionItems.update`, if it is called
abbrev apply : Option (ℕ × ℕ) → List SubscriptionItem → List SubscriptionItem
apply none items = items
apply (some (id, q)) items = update_by_id item_id id (with_quantity q) items

unfoldable pub written : List ℕ → List SubscriptionItem → ℕ → List SubscriptionItem
unfolding update_stripe_quantity update_by_id
written metered items n = apply (update_stripe_quantity metered items n) items

module _ (metered : List ℕ) (items : List SubscriptionItem) (n : ℕ)
    (unique : UniqueIds item_id items) where
  -- What is claimed of the lines that a run leaves.
  abbrev pub IsSettled : List SubscriptionItem → Type 0
  IsSettled later =
      (update_stripe_quantity metered later n ≡ none)
      × (keep (is_metered metered) later ≡ keep (is_metered metered) items)

  idle :
      update_stripe_quantity metered items n ≡ none
      → IsSettled (apply (update_stripe_quantity metered items n) items)
  idle e = subst (λ o. IsSettled (apply o items)) (sym e) (e, refl)

  quantity_same :
      (item : SubscriptionItem)
      → opt_eq item.quantity (some n) ≡ true
      → quantity_for (some item) n ≡ none
  quantity_same item same = rw same refl

  changed :
      (item : SubscriptionItem)
      → plan_item metered items ≡ some item
      → IsSettled (update_by_id item_id item.id (with_quantity n) items)
  unfolding update_stripe_quantity plan_item
  changed item found =
      let (place, plan) = find_sound (λ i. not (is_metered metered i)) items item found in
      let dropped : is_metered metered item ≡ false = ground (arith, plan) in
      (
        ap (λ o. quantity_for o n)
              (find-update item_id (λ i. not (is_metered metered i)) (with_quantity n) item items
                (λ i. refl) unique found)
            ∙ quantity_same (with_quantity n item) (opt_eq_self (some n)),
        keep-update item_id (is_metered metered) (with_quantity n) item items unique place dropped
            dropped,
      )

  -- If the lines have unique ids, then after a run has set the quantity a second run with the same
  -- quantity writes nothing, and the metered lines are as they were.
  pub quantity_settles : IsSettled (written metered items n)
  unfolding written update_stripe_quantity
  quantity_settles = elim (Option-cases (plan_item metered items)) [
    | inl missing ↦ idle (ap (λ o. quantity_for o n) missing)
    | inr (item, found) ↦ elim (Bool-cases (opt_eq item.quantity (some n))) [
      | inl settled ↦ idle (ap (λ o. quantity_for o n) found ∙ quantity_same item settled)
      | inr stale ↦
          let writes : update_stripe_quantity metered items n ≡ some (item.id, n) =
            ap (λ o. quantity_for o n) found ∙ rw stale refl in
          subst (λ o. IsSettled (apply o items)) (sym writes) (changed item found)
    ]
  ]
