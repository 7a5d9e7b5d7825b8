-- ===== src/Payments/Service.antt =====
-- The handlers of `PaymentsService`. A handler returns what it returned or threw, and the ledger
-- with everything that was written before. Mails and log lines are left out: a failure to send
-- one is caught.
use text.Mathlib.Text.{◌==◌ as str_eq}
use aamenn_backend.Base.{
  Bool, List, Option, Result, String, any, err, false, if◌then◌else◌, internal, is_id, none, not,
  not_found, ok, select, some, update_where, ℕ, ◌&&◌, ◌+◌, ◌==◌,
}
use aamenn_backend.Table.{get, save}
use aamenn_backend.Entities.Accounts.{User, user_entity}
use aamenn_backend.Entities.Billing.{
  Payment, PaymentStatus, Plan, Subscription, SubscriptionStatus, payment_entity, plan_entity,
  subscription_entity,
}
use aamenn_backend.Entities.Scalars.{Time, Uuid, days}
use aamenn_backend.Payments.Store.{Env, Ledger, is_live_of, is_success, newest}

unfoldable pub get_user_subscription : Uuid → Ledger → Option Subscription
get_user_subscription u b = newest (select (is_live_of u) b.subscriptions)

abbrev pub expire_subscription : Time → Subscription → Subscription
expire_subscription now s = record s { status = SubscriptionStatus.expired; updated_at = now }

abbrev pub new_subscription : Env → Plan → Payment → Subscription
new_subscription env plan payment = record {
  id = env.fresh_subscription;
  user_id = payment.user_id;
  plan_id = plan.id;
  status = SubscriptionStatus.active;
  current_period_start = env.now;
  current_period_end = env.now + days plan.duration_days;
  grace_ends_at = none;
  paymob_transaction_id = payment.paymob_transaction_id;
  created_at = env.now;
  updated_at = env.now;
}

abbrev pub set_limit : Time → ℕ → User → User
set_limit now gb u = record u { storage_limit_gb = gb; updated_at = now }

abbrev pub has_id : Uuid → User → Bool
has_id id u = u.id == id

-- `activateSubscription` once the plan is found.
unfoldable pub activate_plan : Env → Plan → Payment → Ledger → Ledger
unfolding days
activate_plan env plan payment b =
    let sub = new_subscription env plan payment in
    record b {
      subscriptions =
          save sub (
            update_where (is_live_of payment.user_id) (expire_subscription env.now)
              b.subscriptions);
      payments =
          save (record payment { subscription_id = some sub.id; updated_at = env.now }) b.payments;
      users = update_where (has_id payment.user_id) (set_limit env.now plan.storage_gb) b.users;
    }

unfoldable pub activate_subscription : Env → Payment → Ledger → Result (Unit {0}) × Ledger
unfolding activate_plan
activate_subscription env payment b = elim (get payment.plan_id b.plans) [
  | none ↦ (err not_found, b)
  | some plan ↦ (ok tt, activate_plan env plan payment b)
]

-- The fields of `transactionData` that the webhook reads. Absent fields, and ids that are the
-- empty text, are `none`; so is an amount that is no number.
pub record Transaction : Type 0 where
  pub success : Bool
  pub transaction_id : String
  pub order_id : String
  pub amount_cents : Option ℕ
  pub payment_method : Option String
  pub extras_payment_id : Option Uuid
  pub order_merchant_order_id : Option Uuid
  pub merchant_order_id : Option Uuid
  pub message : Option String

-- `a || b`
abbrev pub or_else {ℓ} : {A : Type ℓ} → Option A → Option A → Option A
or_else none b = b
or_else (some a) b = some a

unfoldable pub payment_ref : Transaction → Option Uuid
payment_ref tx =
    or_else tx.extras_payment_id (or_else tx.order_merchant_order_id tx.merchant_order_id)

abbrev pub has_transaction_id : String → Option String → Bool
has_transaction_id t none = false
has_transaction_id t (some s) = str_eq s t

-- The unique index `IDX_payment_paymob_transaction`: a `save` that repeats the transaction id of
-- another payment fails.
unfoldable pub is_taken : Uuid → String → List Payment → Bool
is_taken id t = any (λ p. not (p.id == id) && has_transaction_id t p.paymob_transaction_id)

unfoldable pub is_paid_in_full : Transaction → Payment → Bool
is_paid_in_full tx p = tx.success && is_id tx.amount_cents p.amount_piasters

-- The text of the amounts is left out of a mismatch.
abbrev pub failure_text : Transaction → String
failure_text tx =
    if tx.success
    then "Amount mismatch"
    else elim tx.message [ none ↦ "Payment declined" | some m ↦ m ]

abbrev pub with_transaction : Transaction → Payment → Payment
with_transaction tx p = record p {
  paymob_transaction_id = some tx.transaction_id;
  paymob_order_id = some tx.order_id;
  payment_method = tx.payment_method;
}

abbrev pub mark_success : Env → Transaction → Payment → Payment
mark_success env tx p = record (with_transaction tx p) {
  status = PaymentStatus.success;
  paid_at = some env.now;
  updated_at = env.now;
}

abbrev pub mark_failed : Env → Transaction → Payment → Payment
mark_failed env tx p = record (with_transaction tx p) {
  status = PaymentStatus.failed;
  failure_reason = some (failure_text tx);
  updated_at = env.now;
}

-- The rest of `processWebhook` for a payment that is not yet successful.
unfoldable pub settle : Env → Transaction → Payment → Ledger → Result (Unit {0}) × Ledger
unfolding activate_subscription is_taken is_paid_in_full
settle env tx p b =
    if is_taken p.id tx.transaction_id b.payments
    then (err internal, b)
    else (if is_paid_in_full tx p
        then (let paid = mark_success env tx p in
            activate_subscription env paid (record b { payments = save paid b.payments }))
        else (ok tt, record b { payments = save (mark_failed env tx p) b.payments }))

unfoldable pub process_payment :
    Env → Transaction → Option Payment → Ledger → Result (Unit {0}) × Ledger
unfolding settle
process_payment env tx none b = (ok tt, b)
process_payment env tx (some p) b = if is_success p.status then (ok tt, b) else settle env tx p b

abbrev pub lookup_payment : Option Uuid → Ledger → Option Payment
lookup_payment none b = none
lookup_payment (some id) b = get id b.payments

-- A webhook without a reference, or with one that is not found, is dropped.
unfoldable pub process_webhook : Env → Transaction → Ledger → Result (Unit {0}) × Ledger
unfolding process_payment payment_ref
process_webhook env tx b = process_payment env tx (lookup_payment (payment_ref tx) b) b
