-- ===== src/Payments.antt =====
-- src/modules/payments: plans, subscriptions and payments.
pub mod Store
pub mod Service
pub mod Lifecycle
pub mod Webhook
pub mod Settlement
pub mod Expiry
pub mod Invariant
pub mod Screenshots
pub mod Instapay
pub mod Review
pub mod Submissions
pub mod Queue
mod Tests
