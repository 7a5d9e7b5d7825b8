-- ===== src/Payments/Tests.antt =====
-- The theorems on payments at a sample ledger, and a run of the hourly job.
use aamenn_backend.Base.{
  [], arith, err, false, internal, none, ok, refl, some, true, ◌*◌, ◌<◌, ◌∷◌, ◌≡◌, ◌≤◌, ◌⊎◌,
}
use aamenn_backend.Table.{get}
use aamenn_backend.Entities.Accounts.{User, UserRole, user_entity}
use aamenn_backend.Entities.Billing.{
  InstapayPayment, InstapayPaymentStatus, Payment, Plan, Subscription, SubscriptionStatus,
  instapay_entity, payment_entity, plan_entity, subscription_entity,
}
use aamenn_backend.Entities.Scalars.{days}
use aamenn_backend.Payments.Expiry.{
  process_expired_subscriptions-update_where, process_expired_subscriptions-users,
}
use aamenn_backend.Payments.Instapay.{
  Instapay, InstapayEnv, approve, manual_payment, new_submission, review_payment, submit_payment,
  text_length, with_review,
}
use aamenn_backend.Payments.Invariant.{IsSingle, Reach-IsSingle, here, lifecycle, next, webhook}
use aamenn_backend.Payments.Lifecycle.{enter_grace, new_payment, process_expired_subscriptions}
use aamenn_backend.Payments.Queue.{InstapayReach-IsQueue, InstapayReach-final, IsQueue}
use aamenn_backend.Payments.Review.{review_payment-approves}
use aamenn_backend.Payments.Service.{
  Transaction, expire_subscription, is_paid_in_full, is_taken, mark_success, payment_ref,
  process_webhook, set_limit,
}
use aamenn_backend.Payments.Settlement.{
  IsUnactivated, Names, process_webhook-Activated, process_webhook_once, process_webhook_unpaid,
}
use aamenn_backend.Payments.Store.{Env, Ledger}
use aamenn_backend.Payments.Submissions.{SameReview, review, start, step}
use aamenn_backend.Payments.Webhook.{Activated}

abbrev plan : Plan
plan = record {
  id = 1;
  name = "pro";
  display_name = "Pro";
  storage_gb = 100;
  price_egp = 50;
  price_piasters = 5000;
  duration_days = 30;
  is_active = true;
  created_at = 0;
  updated_at = 0;
}

abbrev env : Env
env = record {
  now = 100 * 86_400_000;
  fresh_payment = 90;
  fresh_subscription = 91;
  grace_period_days = 7;
}

abbrev payment : Payment
payment = record (new_payment env 5 plan) { id = 3; paymob_intention_id = some "int_1" }

-- an active subscription of user 5 that ran out on day 92, before its grace of seven days
abbrev old_subscription : Subscription
old_subscription = record {
  id = 2;
  user_id = 5;
  plan_id = 1;
  status = SubscriptionStatus.active;
  current_period_start = 62 * 86_400_000;
  current_period_end = 92 * 86_400_000;
  grace_ends_at = none;
  paymob_transaction_id = none;
  created_at = 62 * 86_400_000;
  updated_at = 62 * 86_400_000;
}

abbrev user5 : User
user5 = record {
  id = 5;
  email = "a@example.com";
  display_name = none;
  auth_provider_id = "local:a@example.com";
  password_hash = none;
  auth_provider = some "local";
  role = UserRole.user;
  is_active = true;
  last_login_at = none;
  avatar_file_id = none;
  trash_retention_days = 30;
  storage_limit_gb = 50;
  google_access_token = none;
  google_refresh_token = none;
  google_token_expires_at = none;
  signup_ip = none;
  signup_fingerprint = none;
  signup_flagged = false;
  signup_ip_type = none;
  created_at = 0;
  updated_at = 0;
}

abbrev ledger : Ledger
ledger = record {
  plans = plan ∷ [];
  subscriptions = old_subscription ∷ [];
  payments = payment ∷ [];
  users = user5 ∷ [];
}

abbrev tx : Transaction
tx = record {
  success = true;
  transaction_id = "tx_1";
  order_id = "ord_1";
  amount_cents = some 5000;
  payment_method = some "card:visa";
  extras_payment_id = none;
  order_merchant_order_id = some 3;
  merchant_order_id = none;
  message = none;
}

names : (t : Transaction) → payment_ref t ≡ some 3 → Names t payment ledger
unfolding is_taken
names t e = record { ref = e; on_record = refl; open_payment = refl; new_id = refl }

ledger-IsSingle : IsSingle ledger
ledger-IsSingle = record { keyed = (refl, tt); single = λ w. ground arith }

process_webhook-Activated_example :
    (b' : Ledger) × (process_webhook env tx ledger ≡ (ok tt, b'))
    × Activated env plan (mark_success env tx payment) ledger b'
unfolding payment_ref is_paid_in_full
process_webhook-Activated_example =
    process_webhook-Activated env tx ledger payment plan (names tx refl) refl refl refl

process_webhook_unpaid_example :
    let cheap = record tx { amount_cents = some 4999 } in
    IsUnactivated cheap ledger (process_webhook env cheap ledger).1
unfolding payment_ref
process_webhook_unpaid_example =
    process_webhook_unpaid env (record tx { amount_cents = some 4999 }) ledger
      (λ id p ref at done. ground (arith, ref, at))

process_webhook_once_example :
    let b' = (process_webhook env tx ledger).1 in process_webhook env tx b' ≡ (ok tt, b')
unfolding payment_ref is_paid_in_full
process_webhook_once_example =
    process_webhook_once env env tx tx ledger payment plan (names tx refl) refl refl refl refl

process_expired_subscriptions-update_where_example :
    (process_expired_subscriptions env ledger).subscriptions
    ≡ expire_subscription env.now (enter_grace env old_subscription) ∷ []
unfolding days
process_expired_subscriptions-update_where_example =
    process_expired_subscriptions-update_where env ledger (refl, tt)

process_expired_subscriptions-users_example :
    get 5 (process_expired_subscriptions env ledger).users ≡ some (set_limit env.now 4 user5)
unfolding days
process_expired_subscriptions-users_example =
    process_expired_subscriptions-users env ledger 5 (refl, tt)

Reach-IsSingle_example :
    IsSingle (process_expired_subscriptions env (process_webhook env tx ledger).1)
Reach-IsSingle_example = Reach-IsSingle ledger-IsSingle (
    next (next here (webhook env tx ledger refl)) (lifecycle env (process_webhook env tx ledger).1))

abbrev manual_env : InstapayEnv
manual_env = record {
  pay = env;
  fresh_submission = 80;
  b2_path = "users/5/instapay-screenshot/1";
  stale_hours = 48;
}

abbrev submission : InstapayPayment
submission = new_submission manual_env 5 plan "image/png" " ref 1 " none

abbrev manual : Instapay
manual = record { submissions = []; ledger = ledger; b2_deletions = [] }

abbrev waiting : Instapay
waiting = record manual { submissions = submission ∷ [] }

waiting-IsQueue : IsQueue waiting
waiting-IsQueue = record { keyed = (refl, tt); single = λ u. ground arith }

-- the screenshot of user 5 is accepted
submitted :
    submit_payment manual_env true 5 1
      (some (record { size = 1000; mime_type = "Image/PNG" }))
      " ref 1 "
      none
      (ok tt)
      manual
    ≡ ok (
      record submission { screenshot_mime_type = "Image/PNG" },
      record manual { submissions = record submission { screenshot_mime_type = "Image/PNG" } ∷ [] },
    )
unfolding submit_payment
submitted = refl

review_payment-approves_example :
    (text_length "ref 1" ≤ 41
      × ((b' : Instapay) × (review_payment manual_env 80 2 approve none waiting ≡ (ok tt, b'))
          × Activated env plan (manual_payment manual_env submission) ledger b'.ledger
          × (get 80 b'.submissions
              ≡ some (with_review manual_env 2 none InstapayPaymentStatus.approved submission))))
    ⊎ (41 < text_length "ref 1"
        × (review_payment manual_env 80 2 approve none waiting ≡ (err internal, waiting)))
review_payment-approves_example =
    review_payment-approves manual_env 80 2 none submission plan waiting refl refl refl refl

InstapayReach-IsQueue_example : IsQueue (review_payment manual_env 80 2 approve none waiting).1
InstapayReach-IsQueue_example =
    InstapayReach-IsQueue waiting-IsQueue (step start (review manual_env 80 2 approve none waiting))

abbrev refused : InstapayPayment
refused = record submission { status = InstapayPaymentStatus.rejected }

abbrev reviewed_once : Instapay
reviewed_once = record manual { submissions = refused ∷ [] }

InstapayReach-final_example :
    (s' : InstapayPayment) × (get 80
        (review_payment manual_env 80 2 approve none reviewed_once).1.submissions
      ≡ some s')
    × SameReview refused s'
InstapayReach-final_example =
    InstapayReach-final 80 refused (record { keyed = (refl, tt); single = λ u. ground arith })
      (step start (review manual_env 80 2 approve none reviewed_once)) refl refl
