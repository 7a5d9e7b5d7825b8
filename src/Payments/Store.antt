-- ===== src/Payments/Store.antt =====
-- The repositories that `PaymentsService` uses (src/modules/payments/payments.service.ts), and
-- the tests in its queries.
use aamenn_backend.Base.{
  Bool, List, Option, [], false, if◌then◌else◌, ltb, none, some, true, ℕ, ◌&&◌, ◌==◌, ◌||◌, ◌∷◌,
}
use aamenn_backend.Entities.Accounts.{User, user_entity}
use aamenn_backend.Entities.Billing.{
  Payment, PaymentStatus, Plan, Subscription, SubscriptionStatus, payment_entity, plan_entity,
  subscription_entity,
}
use aamenn_backend.Entities.Scalars.{Time, Uuid}

pub record Ledger : Type 0 where
  pub plans : List Plan
  pub subscriptions : List Subscription
  pub payments : List Payment
  pub users : List User

-- The clock, the ids of a new payment and a new subscription, and the configured
-- `paymob.gracePeriodDays`.
pub record Env : Type 0 where
  pub now : Time
  pub fresh_payment : Uuid
  pub fresh_subscription : Uuid
  pub grace_period_days : ℕ

abbrev pub is_active_status : SubscriptionStatus → Bool
is_active_status SubscriptionStatus.active = true
is_active_status SubscriptionStatus.grace = false
is_active_status SubscriptionStatus.expired = false
is_active_status SubscriptionStatus.cancelled = false

abbrev pub is_grace_status : SubscriptionStatus → Bool
is_grace_status SubscriptionStatus.active = false
is_grace_status SubscriptionStatus.grace = true
is_grace_status SubscriptionStatus.expired = false
is_grace_status SubscriptionStatus.cancelled = false

-- `In([SubscriptionStatus.ACTIVE, SubscriptionStatus.GRACE])`
abbrev pub is_live_status : SubscriptionStatus → Bool
is_live_status s = is_active_status s || is_grace_status s

abbrev pub is_success : PaymentStatus → Bool
is_success PaymentStatus.pending = false
is_success PaymentStatus.success = true
is_success PaymentStatus.failed = false
is_success PaymentStatus.refunded = false
is_success PaymentStatus.expired = false

abbrev pub is_pending : PaymentStatus → Bool
is_pending PaymentStatus.pending = true
is_pending PaymentStatus.success = false
is_pending PaymentStatus.failed = false
is_pending PaymentStatus.refunded = false
is_pending PaymentStatus.expired = false

abbrev pub is_live_of : Uuid → Subscription → Bool
is_live_of u s = s.user_id == u && is_live_status s.status

-- The newest first: `order: { createdAt: 'DESC' }` with `findOne`.
abbrev pub newer : Option Subscription → Subscription → Subscription
newer none s = s
newer (some r) s = if ltb s.created_at r.created_at then r else s

abbrev pub newest : List Subscription → Option Subscription
newest [] = none
newest (s ∷ ss) = some (newer (newest ss) s)
