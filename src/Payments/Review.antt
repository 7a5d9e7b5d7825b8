-- ===== src/Payments/Review.antt =====
-- Approving a manual payment.
use Prim.Native.String.{◌++◌ as text_append}
use Prim.Native.Char.{code}
use text.Mathlib.TextLemmas.{cons-append, nil-append}
use native.Mathlib.Decide.{dec_lt}
use aamenn_backend.Base.{
  Option, String, ap, arith, codes, err, false, inl, inr, internal, length, length-append, none, ok,
  some, true, ◌++◌, ◌+◌, ◌<◌, ◌∙◌, ◌∷◌, ◌≡◌, ◌≤◌, ◌⊎◌,
}
use aamenn_backend.Table.{get, get-save, key-get, save}
use aamenn_backend.Entities.Accounts.{user_entity}
use aamenn_backend.Entities.Billing.{
  InstapayPayment, InstapayPaymentStatus, Plan, instapay_entity, payment_entity, plan_entity,
  subscription_entity,
}
use aamenn_backend.Entities.Scalars.{Uuid}
use aamenn_backend.Payments.Instapay.{
  Instapay, InstapayEnv, approve, approve_submission, is_too_long, is_unreviewed, manual_payment,
  review_payment, save_submission, text_length, with_review,
}
use aamenn_backend.Payments.Service.{activate_plan, activate_subscription}
use aamenn_backend.Payments.Webhook.{Activated, activate_plan-Activated}

approves_short :
    (env : InstapayEnv) (id reviewer : Uuid) (note : Option String) (s : InstapayPayment)
    (plan : Plan) (b : Instapay)
    → get id b.submissions ≡ some s
    → is_unreviewed s.status ≡ true
    → get s.plan_id b.ledger.plans ≡ some plan
    → get env.pay.fresh_subscription b.ledger.subscriptions ≡ none
    → is_too_long s ≡ false
    → (b' : Instapay) × (review_payment env id reviewer approve note b ≡ (ok tt, b'))
      × Activated env.pay plan (manual_payment env s) b.ledger b'.ledger
      × (get id b'.submissions
          ≡ some (with_review env reviewer note InstapayPaymentStatus.approved s))
unfolding review_payment approve_submission activate_subscription
approves_short env id reviewer note s plan b at unreviewed at_plan fresh short =
    let p = manual_payment env s in
    let paid = record b.ledger { payments = save p b.ledger.payments } in
    let done = with_review env reviewer note InstapayPaymentStatus.approved s in
    let a = activate_plan-Activated env.pay plan p paid fresh in
    let key : s.id ≡ id = key-get id b.submissions at in
    (
      save_submission done (record b { ledger = activate_plan env.pay plan p paid }),
      ground (arith, at, unreviewed, at_plan, short),
      record {
        only_live = a.only_live;
        others_live = a.others_live;
        users = a.users;
        payment = a.payment;
      },
      ground (arith, key, get-save id done b.submissions),
    )

codes-append : (r s : String) → codes (text_append r s) ≡ codes r ++ codes s
codes-append String.[] s = ap codes (nil-append s)
codes-append (String.◌∷◌ c r) s =
    ap codes (cons-append c r s) ∙ ap (λ cs. code c ∷ cs) (codes-append r s)

text_length-instapay : (r : String) → text_length (text_append "instapay:" r) ≡ 9 + text_length r
text_length-instapay r =
    ap length (codes-append "instapay:" r) ∙ length-append (codes "instapay:") (codes r)

is_too_long-le :
    (s : InstapayPayment) → text_length s.instapay_reference ≤ 41 → is_too_long s ≡ false
is_too_long-le s h = ground (arith, text_length-instapay s.instapay_reference)

is_too_long-lt :
    (s : InstapayPayment) → 41 < text_length s.instapay_reference → is_too_long s ≡ true
is_too_long-lt s h = ground (arith, text_length-instapay s.instapay_reference)

-- An approval of an unreviewed submission of an existing plan, where the id of the new subscription
-- is new. With a reference of at most 41 characters it succeeds: its user has the plan as the
-- only live subscription and the plan's storage, the successful payment of the submitted amount
-- is on record, and the submission carries the review. With a longer reference, which a
-- submission may have, it fails with 500, and nothing is changed.
pub review_payment-approves :
    (env : InstapayEnv) (id reviewer : Uuid) (note : Option String) (s : InstapayPayment)
    (plan : Plan) (b : Instapay)
    → get id b.submissions ≡ some s
    → is_unreviewed s.status ≡ true
    → get s.plan_id b.ledger.plans ≡ some plan
    → get env.pay.fresh_subscription b.ledger.subscriptions ≡ none
    → (text_length s.instapay_reference ≤ 41
        × ((b' : Instapay) × (review_payment env id reviewer approve note b ≡ (ok tt, b'))
            × Activated env.pay plan (manual_payment env s) b.ledger b'.ledger
            × (get id b'.submissions
                ≡ some (with_review env reviewer note InstapayPaymentStatus.approved s))))
      ⊎ (41 < text_length s.instapay_reference
          × (review_payment env id reviewer approve note b ≡ (err internal, b)))
unfolding review_payment approve_submission
review_payment-approves env id reviewer note s plan b at unreviewed at_plan fresh =
    elim (dec_lt 41 (text_length s.instapay_reference)) [
      | yes more ↦ inr (more, ground (arith, at, unreviewed, is_too_long-lt s more))
      | no short ↦
          let le : text_length s.instapay_reference ≤ 41 = omega arith in
          inl (
            le,
            approves_short env id reviewer note s plan b at unreviewed at_plan fresh
                (is_too_long-le s le),
          )
    ]
