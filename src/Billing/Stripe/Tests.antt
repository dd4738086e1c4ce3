-- ===== src/Billing/Stripe/Tests.antt =====
-- A subscription with a metered line in front of its plan line.
use traceroot.Billing.Stripe.{SubscriptionItem}
use traceroot.Billing.Stripe.Quantity.{written}
use traceroot.Prelude.{some, ◌≡◌, [], ◌∷◌, none, List, refl}

abbrev lines : List SubscriptionItem
lines =
    record { id = 1; price = 70; quantity = none }
    ∷ record { id = 2; price = 50; quantity = some 3 }
    ∷ []

lines_result :
    written (70 ∷ 71 ∷ []) lines 5
    ≡ record { id = 1; price = 70; quantity = none }
      ∷ record { id = 2; price = 50; quantity = some 5 }
      ∷ []
unfolding written
lines_result = refl
