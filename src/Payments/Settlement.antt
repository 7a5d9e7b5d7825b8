-- ===== src/Payments/Settlement.antt =====
-- Each way in which `processWebhook` ends for a payment on record.
use native.Mathlib.Decide.{ℕ_discrete}
use aamenn_backend.Base.{
  Bool, Bool-cases, Option, Option-cases, ap, arith, false, inl, inr, is_id, none, ok, refl, some,
  sym, true, ℕ, ◌&&◌, ◌==◌, ◌∙◌, ◌≡◌, ◌≢◌,
}
use aamenn_backend.Table.{get, get-save, key-get, save}
use aamenn_backend.Entities.Accounts.{user_entity}
use aamenn_backend.Entities.Billing.{
  Payment, Plan, payment_entity, plan_entity, subscription_entity,
}
use aamenn_backend.Entities.Scalars.{Uuid}
use aamenn_backend.Payments.Service.{
  Transaction, activate_plan, is_paid_in_full, is_taken, mark_failed, mark_success, payment_ref,
  process_payment, process_webhook, settle,
}
use aamenn_backend.Payments.Store.{Env, Ledger, is_success}
use aamenn_backend.Payments.Webhook.{Activated, activate_plan-Activated}

-- A webhook that names payment `p`, which is not yet successful, with a transaction id that no
-- other payment has.
pub record Names (tx : Transaction) (p : Payment) (b : Ledger) : Type 0 where
  pub ref : payment_ref tx ≡ some p.id
  pub on_record : get p.id b.payments ≡ some p
  pub open_payment : is_success p.status ≡ false
  pub new_id : is_taken p.id tx.transaction_id b.payments ≡ false

-- A successful transaction over the full amount activates the plan: the user's only live
-- subscription is then the new one, the storage limit is the plan's, the payment is successful
-- and linked to the subscription, and no other user is touched. The conditions are that the
-- webhook names an open payment, that no other payment has its transaction id, that the plan of
-- the payment exists, and that the new subscription's id is new.
pub process_webhook-Activated :
    (env : Env) (tx : Transaction) (b : Ledger) (p : Payment) (plan : Plan)
    → Names tx p b
    → is_paid_in_full tx p ≡ true
    → get p.plan_id b.plans ≡ some plan
    → get env.fresh_subscription b.subscriptions ≡ none
    → (b' : Ledger) × (process_webhook env tx b ≡ (ok tt, b'))
      × Activated env plan (mark_success env tx p) b b'
unfolding process_webhook
process_webhook-Activated env tx b p plan n paid at_plan fresh =
    let p' = mark_success env tx p in
    let b1 : Ledger = record b { payments = save p' b.payments } in
    let a = activate_plan-Activated env plan p' b1 fresh in
    (
      activate_plan env plan p' b1,
      ground (arith, n.ref, n.on_record, n.open_payment, n.new_id, paid, at_plan),
      record {
        only_live = a.only_live;
        others_live = a.others_live;
        users = a.users;
        payment = a.payment;
      },
    )

-- What a webhook changes at most that activates nothing: neither plans, subscriptions nor users,
-- no payment but the one that it names, and no payment becomes successful.
pub record IsUnactivated (tx : Transaction) (b b' : Ledger) : Type 0 where
  pub plans : b'.plans ≡ b.plans
  pub subscriptions : b'.subscriptions ≡ b.subscriptions
  pub users : b'.users ≡ b.users
  pub others : (j : Uuid) → payment_ref tx ≢ some j → get j b'.payments ≡ get j b.payments
  pub successes :
      (j : Uuid) (q : Payment)
      → get j b'.payments ≡ some q
      → is_success q.status ≡ true
      → get j b.payments ≡ some q

unactivated : (tx : Transaction) (b : Ledger) → IsUnactivated tx b b
unactivated tx b = record {
  plans = refl;
  subscriptions = refl;
  users = refl;
  others = λ j ne. refl;
  successes = λ j q at done. at;
}

mark_failed-IsUnactivated :
    (env : Env) (tx : Transaction) (b : Ledger) (p : Payment) (id : Uuid)
    → payment_ref tx ≡ some id
    → get id b.payments ≡ some p
    → IsUnactivated tx b (record b { payments = save (mark_failed env tx p) b.payments })
mark_failed-IsUnactivated env tx b p id ref at =
    let p' = mark_failed env tx p in
    let key : p.id ≡ id = key-get id b.payments at in
    record {
      plans = refl;
      subscriptions = refl;
      users = refl;
      others = λ j ne. elim (ℕ_discrete p.id j) [
        | yes e ↦ absurd (ne (ref ∙ ap some (sym key ∙ e)))
        | no apart ↦ ground (arith, apart, get-save j p' b.payments)
      ];
      successes = λ j q at_j done. elim (ℕ_discrete p.id j) [
        | yes e ↦
            let this : p' ≡ q = ground (arith, e, at_j, get-save j p' b.payments) in
            let closed : is_success q.status ≡ false =
              ap (λ (x : Payment). is_success x.status) (sym this) in
            cc
        | no apart ↦ ground (arith, apart, at_j, get-save j p' b.payments)
      ];
    }

amount_differs :
    (success : Bool) (o : Option ℕ) (n : ℕ)
    → (success ≡ true → o ≢ some n)
    → (success && is_id o n) ≡ false
amount_differs false o n h = refl
amount_differs true none n h = refl
amount_differs true (some m) n h = elim (Bool-cases (m == n)) [
  | inl e ↦ absurd (h refl (ground (arith, e)))
  | inr e ↦ e
]

settle-IsUnactivated :
    (env : Env) (tx : Transaction) (b : Ledger) (p : Payment) (id : Uuid)
    → payment_ref tx ≡ some id
    → get id b.payments ≡ some p
    → is_paid_in_full tx p ≡ false
    → IsUnactivated tx b (process_payment env tx (some p) b).1
unfolding process_payment settle
settle-IsUnactivated env tx b p id ref at unpaid = elim (Bool-cases (is_success p.status)) [
  | inl done ↦ rw done (unactivated tx b)
  | inr waiting ↦ elim (Bool-cases (is_taken p.id tx.transaction_id b.payments)) [
    | inl taken ↦ rw (waiting, taken) (unactivated tx b)
    | inr new ↦ rw (waiting, new, unpaid) (mark_failed-IsUnactivated env tx b p id ref at)
  ]
]

-- No plan is activated without the full amount. Take any webhook such that the payment that it
-- names, if there is one, is not paid by it: the transaction failed, or its amount is absent or
-- another. Then plans, subscriptions, users and all other payments stay as they are, and every
-- payment that is successful afterwards was there, the same, before.
pub process_webhook_unpaid :
    (env : Env) (tx : Transaction) (b : Ledger)
    → ((id : Uuid) (p : Payment)
        → payment_ref tx ≡ some id
        → get id b.payments ≡ some p
        → tx.success ≡ true
        → tx.amount_cents ≢ some p.amount_piasters)
    → IsUnactivated tx b (process_webhook env tx b).1
unfolding process_webhook is_paid_in_full process_payment
process_webhook_unpaid env tx b unpaid = elim (Option-cases (payment_ref tx)) [
  | inl no_ref ↦ rw no_ref (unactivated tx b)
  | inr (id, ref) ↦ elim (Option-cases (get id b.payments)) [
    | inl absent ↦ rw (ref, absent) (unactivated tx b)
    | inr (p, at) ↦
        rw (ref, at)
          (settle-IsUnactivated env tx b p id ref at
            (amount_differs tx.success tx.amount_cents p.amount_piasters (unpaid id p ref at)))
  ]
]

settled :
    (env : Env) (tx : Transaction) (b : Ledger) (p : Payment) (id : Uuid)
    → payment_ref tx ≡ some id
    → get id b.payments ≡ some p
    → is_success p.status ≡ true
    → process_webhook env tx b ≡ (ok tt, b)
unfolding process_webhook
settled env tx b p id ref at_id done = ground (arith, ref, at_id, done)

-- A payment is settled once: where a webhook names an open payment of an existing plan and pays it
-- in full, no other payment has its transaction id, and the new subscription's id is new, the next
-- webhook that names the payment, whatever it says and at whatever time, returns normally and
-- changes nothing.
pub process_webhook_once :
    (env env' : Env) (tx tx' : Transaction) (b : Ledger) (p : Payment) (plan : Plan)
    → Names tx p b
    → is_paid_in_full tx p ≡ true
    → get p.plan_id b.plans ≡ some plan
    → get env.fresh_subscription b.subscriptions ≡ none
    → payment_ref tx' ≡ some p.id
    → let b' = (process_webhook env tx b).1 in process_webhook env' tx' b' ≡ (ok tt, b')
process_webhook_once env env' tx tx' b p plan n paid at_plan fresh again =
    let (b', run, a) = process_webhook-Activated env tx b p plan n paid at_plan fresh in
    rw run (settled env' tx' b' _ p.id again a.payment refl)
