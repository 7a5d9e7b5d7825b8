-- ===== src/Payments/Lifecycle.antt =====
-- Checkout, renewal, and the hourly jobs of `PaymentsService`.
use aamenn_backend.Base.{
  Bool, List, Option, Result, String, [], any, bad_request, conflict, err, false, if◌then◌else◌,
  internal, leb, ltb, none, not, not_found, ok, or_throw, select, some, throw_if, true,
  update_where, ℕ, ◌&&◌, ◌+◌, ◌-◌, ◌==◌, ◌>>=◌, ◌>>◌, ◌∷◌,
}
use aamenn_backend.Table.{get, save}
use aamenn_backend.Entities.Accounts.{user_entity}
use aamenn_backend.Entities.Billing.{
  Payment, PaymentStatus, Plan, Subscription, SubscriptionStatus, payment_entity, plan_entity,
  subscription_entity,
}
use aamenn_backend.Entities.Scalars.{Time, Uuid, days, hours}
use aamenn_backend.Payments.Service.{expire_subscription, get_user_subscription, has_id, set_limit}
use aamenn_backend.Payments.Store.{Env, Ledger, is_active_status, is_grace_status, is_pending}

abbrev pub is_duplicate_of : Uuid → Uuid → Subscription → Bool
is_duplicate_of u plan_id s = s.user_id == u && s.plan_id == plan_id && is_active_status s.status

abbrev pub new_payment : Env → Uuid → Plan → Payment
new_payment env u plan = record {
  id = env.fresh_payment;
  user_id = u;
  subscription_id = none;
  plan_id = plan.id;
  amount_piasters = plan.price_piasters;
  currency = "EGP";
  status = PaymentStatus.pending;
  paymob_order_id = none;
  paymob_transaction_id = none;
  paymob_intention_id = none;
  payment_method = none;
  failure_reason = none;
  paid_at = none;
  created_at = env.now;
  updated_at = env.now;
}

-- The last part of `initiateCheckout`. Paymob answers with the id of its intention, or fails:
-- then the pending payment stays. Returns `paymentId`.
unfoldable pub open_payment : Env → Uuid → Plan → Option String → Ledger → Result Uuid × Ledger
open_payment env u plan none b =
    (err internal, record b { payments = save (new_payment env u plan) b.payments })
open_payment env u plan (some intention) b =
    let p = record (new_payment env u plan) { paymob_intention_id = some intention } in
    (ok p.id, record b { payments = save p (save (new_payment env u plan) b.payments) })

unfoldable pub check_checkout : Uuid → Uuid → Bool → Ledger → Result Plan
check_checkout u plan_id is_renewal b = do
  plan ← or_throw (get plan_id b.plans) not_found
  throw_if (not plan.is_active) bad_request
  throw_if (not is_renewal && any (is_duplicate_of u plan.id) b.subscriptions) conflict
  ok plan

unfoldable pub initiate_checkout :
    Env → Uuid → Uuid → Bool → Option String → Ledger → Result Uuid × Ledger
unfolding check_checkout open_payment
initiate_checkout env u plan_id is_renewal intention b =
    elim (check_checkout u plan_id is_renewal b) [
      | err e ↦ (err e, b)
      | ok plan ↦ open_payment env u plan intention b
    ]

unfoldable pub initiate_renewal : Env → Uuid → Option String → Ledger → Result Uuid × Ledger
unfolding initiate_checkout get_user_subscription
initiate_renewal env u intention b = elim (get_user_subscription u b) [
  | none ↦ (err bad_request, b)
  | some s ↦ initiate_checkout env u s.plan_id true intention b
]

abbrev pub enter_grace : Env → Subscription → Subscription
enter_grace env s = record s {
  status = SubscriptionStatus.grace;
  grace_ends_at = some (s.current_period_end + days env.grace_period_days);
  updated_at = env.now;
}

-- The first loop of `processExpiredSubscriptions`, over the rows that the query returned.
unfoldable pub grace_loop : Env → List Subscription → List Subscription → List Subscription
unfolding days
grace_loop env [] t = t
grace_loop env (s ∷ rest) t =
    grace_loop env rest (if leb s.current_period_end env.now then save (enter_grace env s) t else t)

abbrev pub is_over : Option Time → Time → Bool
is_over none now = false
is_over (some e) now = leb e now

abbrev pub free_tier_gb : ℕ
free_tier_gb = 4

abbrev pub end_grace : Env → Subscription → Ledger → Ledger
end_grace env s b = record b {
  subscriptions = save (expire_subscription env.now s) b.subscriptions;
  users = update_where (has_id s.user_id) (set_limit env.now free_tier_gb) b.users;
}

-- The second loop.
unfoldable pub expiry_loop : Env → List Subscription → Ledger → Ledger
expiry_loop env [] b = b
expiry_loop env (s ∷ rest) b =
    expiry_loop env rest (if is_over s.grace_ends_at env.now then end_grace env s b else b)

unfoldable pub process_expired_subscriptions : Env → Ledger → Ledger
unfolding grace_loop expiry_loop
process_expired_subscriptions env b =
    let subs =
      grace_loop env (select (λ s. is_active_status s.status) b.subscriptions) b.subscriptions in
    expiry_loop env (select (λ s. is_grace_status s.status) subs)
      (record b { subscriptions = subs })

-- Pending payments older than two hours.
unfoldable pub expire_stale_pending_payments : Env → Ledger → Ledger
expire_stale_pending_payments env b = record b {
  payments =
      update_where (λ p. is_pending p.status && ltb p.created_at (env.now - hours 2))
        (λ p. record p { status = PaymentStatus.expired; updated_at = env.now }) b.payments;
}
