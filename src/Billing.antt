-- ===== src/Billing.antt =====
-- The billing component: plans and quotas (frontend/packages/core/src/ee/billing) and the hourly
-- metering job (frontend/worker/src/ee/billing).
pub mod Plans
pub mod Notifications
pub mod Meters
pub mod Stripe
pub mod Overage
pub mod Metering
pub mod Subscription
pub mod ChangePlan
