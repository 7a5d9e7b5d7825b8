-- ===== src/Payments/Instapay.antt =====
-- Manual payments: `InstapayService` (src/modules/payments/instapay.service.ts). The clean-up of
-- prior screenshots, which `submitPayment` starts and does not wait for, is an operation of its
-- own. Mails and log lines are left out.
use Prim.Native.String.{◌++◌ as text_append}
use aamenn_backend.Base.{
  Bool, List, Option, Result, String, [], any, bad_request, codes, conflict, err, false, forbidden,
  if◌then◌else◌, internal, is_none, length, ltb, none, not, not_found, ok, or_throw, select, some,
  throw_if, true, ℕ, ◌&&◌, ◌++◌, ◌-◌, ◌==◌, ◌>>=◌, ◌>>◌, ◌∷◌,
}
use aamenn_backend.Table.{get, option_filter, save}
use aamenn_backend.Entities.Billing.{
  InstapayPayment, InstapayPaymentStatus, Payment, PaymentStatus, Plan, instapay_entity,
  payment_entity, plan_entity,
}
use aamenn_backend.Entities.Scalars.{Uuid, hours}
use aamenn_backend.Payments.Screenshots.{
  Screenshot, is_screenshot_type, max_screenshot_bytes, trim, trim_or_null,
}
use aamenn_backend.Payments.Service.{activate_subscription}
use aamenn_backend.Payments.Store.{Env, Ledger}

pub record Instapay : Type 0 where
  pub submissions : List InstapayPayment
  pub ledger : Ledger
  -- the paths whose deletion was asked of the object store
  pub b2_deletions : List String

-- The environment of a payment, the id and the path of a new submission, and
-- `instapay.staleHours`.
pub record InstapayEnv : Type 0 where
  pub pay : Env
  pub fresh_submission : Uuid
  pub b2_path : String
  pub stale_hours : ℕ

abbrev pub is_unreviewed : InstapayPaymentStatus → Bool
is_unreviewed InstapayPaymentStatus.pending_verification = true
is_unreviewed InstapayPaymentStatus.approved = false
is_unreviewed InstapayPaymentStatus.rejected = false
is_unreviewed InstapayPaymentStatus.expired = false

abbrev pub is_refused : InstapayPaymentStatus → Bool
is_refused InstapayPaymentStatus.pending_verification = false
is_refused InstapayPaymentStatus.approved = false
is_refused InstapayPaymentStatus.rejected = true
is_refused InstapayPaymentStatus.expired = true

abbrev pub is_unreviewed_of : Uuid → InstapayPayment → Bool
is_unreviewed_of u s = s.user_id == u && is_unreviewed s.status

abbrev pub new_submission :
    InstapayEnv → Uuid → Plan → String → String → Option String → InstapayPayment
new_submission env u plan mime_type reference sender_name = record {
  id = env.fresh_submission;
  user_id = u;
  plan_id = plan.id;
  amount_piasters = plan.price_piasters;
  status = InstapayPaymentStatus.pending_verification;
  screenshot_b2_path = some env.b2_path;
  screenshot_mime_type = mime_type;
  instapay_reference = trim reference;
  sender_name = trim_or_null sender_name;
  admin_note = none;
  reviewed_by = none;
  reviewed_at = none;
  created_at = env.pay.now;
  updated_at = env.pay.now;
}

abbrev pub available_plan : Uuid → List Plan → Option Plan
available_plan id plans = option_filter (λ p. p.is_active) (get id plans)

-- No file is `none`; `uploaded` is the outcome of the upload of the screenshot.
unfoldable pub submit_payment :
    InstapayEnv
    → Bool
    → Uuid
    → Uuid
    → Option Screenshot
    → String
    → Option String
    → Result (Unit {0})
    → Instapay
    → Result (InstapayPayment × Instapay)
submit_payment env enabled u plan_id shot reference sender_name uploaded b = do
  throw_if (not enabled) bad_request
  f ← or_throw shot bad_request
  throw_if (f.size == 0) bad_request
  throw_if (ltb max_screenshot_bytes f.size) bad_request
  throw_if (not (is_screenshot_type f.mime_type)) bad_request
  plan ← or_throw (available_plan plan_id b.ledger.plans) bad_request
  throw_if (any (is_unreviewed_of u) b.submissions) conflict
  uploaded
  let s = new_submission env u plan f.mime_type reference sender_name
  ok (s, record b { submissions = save s b.submissions })

abbrev pub path_of : Option String → List String
path_of none = []
path_of (some p) = p ∷ []

abbrev pub drop_screenshot : InstapayEnv → InstapayPayment → InstapayPayment
drop_screenshot env s = record s { screenshot_b2_path = none; updated_at = env.pay.now }

abbrev pub is_prior : Uuid → Uuid → InstapayPayment → Bool
is_prior u kept s =
    s.user_id == u
    && not (s.id == kept)
    && is_refused s.status
    && not (is_none s.screenshot_b2_path)

-- A loop that asks for the deletion of the screenshot of each row, and saves the changed row.
unfoldable pub drop_loop :
    (InstapayPayment → InstapayPayment) → List InstapayPayment → Instapay → Instapay
drop_loop g [] b = b
drop_loop g (s ∷ rows) b = drop_loop g rows (record b {
  submissions = save (g s) b.submissions;
  b2_deletions = b.b2_deletions ++ path_of s.screenshot_b2_path;
})

unfoldable pub cleanup_prior_screenshots : InstapayEnv → Uuid → Uuid → Instapay → Instapay
unfolding drop_loop
cleanup_prior_screenshots env u kept b =
    drop_loop (drop_screenshot env) (select (is_prior u kept) b.submissions) b

pub data ReviewAction : Type 0 where
  approve reject : ReviewAction

abbrev pub with_review :
    InstapayEnv → Uuid → Option String → InstapayPaymentStatus → InstapayPayment → InstapayPayment
with_review env reviewer note status s = record s {
  status = status;
  reviewed_by = some reviewer;
  reviewed_at = some env.pay.now;
  admin_note = trim_or_null note;
  updated_at = env.pay.now;
}

-- The successful payment that an approval records.
abbrev pub manual_payment : InstapayEnv → InstapayPayment → Payment
manual_payment env s = record {
  id = env.pay.fresh_payment;
  user_id = s.user_id;
  subscription_id = none;
  plan_id = s.plan_id;
  amount_piasters = s.amount_piasters;
  currency = "EGP";
  status = PaymentStatus.success;
  paymob_order_id = none;
  paymob_transaction_id = none;
  paymob_intention_id = none;
  payment_method = some (text_append "instapay:" s.instapay_reference);
  failure_reason = none;
  paid_at = some env.pay.now;
  created_at = env.pay.now;
  updated_at = env.pay.now;
}

-- The column `payment_method` holds 50 characters; a longer text makes the first `save` throw.
abbrev pub max_payment_method : ℕ
max_payment_method = 50

abbrev pub text_length : String → ℕ
text_length s = length (codes s)

abbrev pub is_too_long : InstapayPayment → Bool
is_too_long s = ltb max_payment_method (text_length (text_append "instapay:" s.instapay_reference))

abbrev pub save_submission : InstapayPayment → Instapay → Instapay
save_submission s b = record b { submissions = save s b.submissions }

-- `approve`: the submission is saved after the activation, if that does not throw.
unfoldable pub approve_submission :
    InstapayEnv → Uuid → Option String → InstapayPayment → Instapay → Result (Unit {0}) × Instapay
unfolding activate_subscription
approve_submission env reviewer note s b =
    let p = manual_payment env s in
    let (r, ledger) =
      activate_subscription env.pay p (record b.ledger { payments = save p b.ledger.payments }) in
    if is_too_long s then (err internal, b) else (elim r [
      | err e ↦ (err e, record b { ledger = ledger })
      | ok _ ↦ (
        ok tt,
        save_submission (with_review env reviewer note InstapayPaymentStatus.approved s)
            (record b { ledger = ledger }),
      )
    ])

unfoldable pub reject_submission :
    InstapayEnv → Uuid → Option String → InstapayPayment → Instapay → Result (Unit {0}) × Instapay
reject_submission env reviewer note s b = (
  ok tt,
  record b {
    submissions =
        save
          (record (with_review env reviewer note InstapayPaymentStatus.rejected s) {
            screenshot_b2_path = none;
          })
          b.submissions;
    b2_deletions = b.b2_deletions ++ path_of s.screenshot_b2_path;
  },
)

unfoldable pub review_payment :
    InstapayEnv
    → Uuid
    → Uuid
    → ReviewAction
    → Option String
    → Instapay
    → Result (Unit {0}) × Instapay
unfolding approve_submission reject_submission
review_payment env id reviewer action note b = elim (get id b.submissions) [
  | none ↦ (err not_found, b)
  | some s ↦ if not (is_unreviewed s.status) then (err forbidden, b) else elim action [
    | approve ↦ approve_submission env reviewer note s b
    | reject ↦ reject_submission env reviewer note s b
  ]
]

abbrev pub is_overdue : InstapayEnv → InstapayPayment → Bool
is_overdue env s = is_unreviewed s.status && ltb s.created_at (env.pay.now - hours env.stale_hours)

abbrev pub expire_submission : InstapayEnv → InstapayPayment → InstapayPayment
expire_submission env s = record s {
  status = InstapayPaymentStatus.expired;
  screenshot_b2_path = none;
  updated_at = env.pay.now;
}

unfoldable pub expire_stale_requests : InstapayEnv → Instapay → Instapay
unfolding hours drop_loop
expire_stale_requests env b =
    drop_loop (expire_submission env) (select (is_overdue env) b.submissions) b
