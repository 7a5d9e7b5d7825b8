-- ===== src/Payments/Invariant.antt =====
-- No user has two live subscriptions, whatever webhooks and jobs run.
use native.Mathlib.Decide.{ℕ_discrete}
use aamenn_backend.Base.{
  Bool, Bool-cases, List, Option, Option-cases, Result-cases, String, [], arith, inl, inr, length,
  none, refl, select, some, true, update_where, ◌∷◌, ◌≡◌, ◌≤◌,
}
use aamenn_backend.Table.{IsKeyed, get, save}
use aamenn_backend.Entities.Billing.{
  Payment, Plan, Subscription, payment_entity, plan_entity, subscription_entity,
}
use aamenn_backend.Entities.Scalars.{Uuid}
use aamenn_backend.Payments.Expiry.{
  after_grace, is_due, is_lapsed, process_expired_subscriptions-update_where,
}
use aamenn_backend.Payments.Lifecycle.{
  check_checkout, enter_grace, expire_stale_pending_payments, initiate_checkout, initiate_renewal,
  open_payment, process_expired_subscriptions,
}
use aamenn_backend.Payments.Service.{
  Transaction, activate_plan, activate_subscription, expire_subscription, get_user_subscription,
  is_paid_in_full, is_taken, lookup_payment, mark_failed, mark_success, new_subscription,
  payment_ref, process_payment, process_webhook, settle,
}
use aamenn_backend.Payments.Store.{Env, Ledger, is_live_of, is_success}
use aamenn_backend.Payments.Webhook.{activate_plan-Activated}
use aamenn_backend.Table.Keys.{IsKeyed-save, IsKeyed-update_where}

-- The ids of subscriptions are unique, and a user has at most one that is active or in grace.
pub record IsSingle (b : Ledger) : Type 0 where
  pub keyed : IsKeyed b.subscriptions
  pub single : (w : Uuid) → length (select (is_live_of w) b.subscriptions) ≤ 1

-- One write of the service. A new subscription gets an id that the table does not have.
pub data Step : Ledger → Ledger → Type 0 where
  webhook :
      (env : Env) (tx : Transaction) (b : Ledger)
      → get env.fresh_subscription b.subscriptions ≡ none
      → Step b (process_webhook env tx b).1
  lifecycle : (env : Env) (b : Ledger) → Step b (process_expired_subscriptions env b)
  stale : (env : Env) (b : Ledger) → Step b (expire_stale_pending_payments env b)
  checkout :
      (env : Env) (u plan_id : Uuid) (is_renewal : Bool) (intention : Option String) (b : Ledger)
      → Step b (initiate_checkout env u plan_id is_renewal intention b).1
  renewal :
      (env : Env) (u : Uuid) (intention : Option String) (b : Ledger)
      → Step b (initiate_renewal env u intention b).1

pub data Reach (a : Ledger) : Ledger → Type 0 where
  here : Reach a a
  next : {b c : Ledger} → Reach a b → Step b c → Reach a c

activate_plan-IsSingle :
    (env : Env) (plan : Plan) (p : Payment) (b : Ledger)
    → get env.fresh_subscription b.subscriptions ≡ none
    → IsSingle b
    → IsSingle (activate_plan env plan p b)
activate_plan-IsSingle env plan p b fresh v =
    let a = activate_plan-Activated env plan p b fresh in
    record {
      keyed =
          unfold activate_plan in
          IsKeyed-save (new_subscription env plan p) _ (
            IsKeyed-update_where (is_live_of p.user_id) (expire_subscription env.now) (λ r. refl)
              b.subscriptions v.keyed);
      single = λ w. elim (ℕ_discrete w p.user_id) [
        | yes this ↦ rw (this, a.only_live) (omega arith)
        | no other ↦ rw (a.others_live w other) (v.single w)
      ];
    }

activate_subscription-IsSingle :
    (env : Env) (p : Payment) (b : Ledger)
    → get env.fresh_subscription b.subscriptions ≡ none
    → IsSingle b
    → IsSingle (activate_subscription env p b).1
unfolding activate_subscription
activate_subscription-IsSingle env p b fresh v = elim (Option-cases (get p.plan_id b.plans)) [
  | inl e ↦ rw (e, activate_subscription) v
  | inr (plan, e) ↦ rw (e, activate_subscription) (activate_plan-IsSingle env plan p b fresh v)
]

-- What only touches payments keeps the subscriptions as they are.
IsSingle-payments :
    (b : Ledger) (ps : List Payment) → IsSingle b → IsSingle (record b { payments = ps })
IsSingle-payments b ps v = record { keyed = v.keyed; single = v.single }

settle_cases :
    (P : Ledger → Type 0) (env : Env) (tx : Transaction) (p : Payment) (b : Ledger)
    → P b
    → ((ps : List Payment) → P (record b { payments = ps }))
    → ((ps : List Payment)
        → P (activate_subscription env (mark_success env tx p) (record b { payments = ps })).1)
    → P (settle env tx p b).1
unfolding settle
settle_cases P env tx p b same paid activated =
    elim (Bool-cases (is_taken p.id tx.transaction_id b.payments)) [
      | inl e ↦ rw e same
      | inr e ↦ elim (Bool-cases (is_paid_in_full tx p)) [
        | inl f ↦ rw (e, f) (activated (save (mark_success env tx p) b.payments))
        | inr f ↦ rw (e, f) (paid (save (mark_failed env tx p) b.payments))
      ]
    ]

settle-IsSingle :
    (env : Env) (tx : Transaction) (p : Payment) (b : Ledger)
    → get env.fresh_subscription b.subscriptions ≡ none
    → IsSingle b
    → IsSingle (settle env tx p b).1
settle-IsSingle env tx p b fresh v =
    settle_cases IsSingle env tx p b v (λ ps. IsSingle-payments b ps v)
      λ ps.
        activate_subscription-IsSingle env (mark_success env tx p) (record b { payments = ps })
          fresh (IsSingle-payments b ps v)

process_webhook-IsSingle :
    (env : Env) (tx : Transaction) (b : Ledger)
    → get env.fresh_subscription b.subscriptions ≡ none
    → IsSingle b
    → IsSingle (process_webhook env tx b).1
unfolding process_webhook
process_webhook-IsSingle env tx b fresh v =
    elim (Option-cases (lookup_payment (payment_ref tx) b)) [
      | inl e ↦ rw (e, process_payment) v
      | inr (p, e) ↦ elim (Bool-cases (is_success p.status)) [
        | inl done ↦ rw (e, process_payment, done) v
        | inr todo ↦ rw (e, process_payment, todo) (settle-IsSingle env tx p b fresh v)
      ]
    ]

-- An update that brings no subscription to life.
live-update_where-le :
    (w : Uuid) (p : Subscription → Bool) (g : Subscription → Subscription)
    → ((s : Subscription) → p s ≡ true → is_live_of w (g s) ≡ true → is_live_of w s ≡ true)
    → (t : List Subscription)
    → length (select (is_live_of w) (update_where p g t)) ≤ length (select (is_live_of w) t)
live-update_where-le w p g revives [] = omega arith
live-update_where-le w p g revives (s ∷ t) =
    ground (arith, revives s, live-update_where-le w p g revives t)

lifecycle-IsSingle :
    (env : Env) (b : Ledger) → IsSingle b → IsSingle (process_expired_subscriptions env b)
lifecycle-IsSingle env b v = record {
  keyed = rw (process_expired_subscriptions-update_where env b v.keyed) (
      IsKeyed-update_where (is_lapsed env) (expire_subscription env.now) (λ r. refl) _
        (IsKeyed-update_where (is_due env) (enter_grace env) (λ r. refl) b.subscriptions v.keyed));
  single = λ w. rw (process_expired_subscriptions-update_where env b v.keyed) (
      omega (
        arith,
        live-update_where-le w (is_lapsed env) (expire_subscription env.now) (λ s h k. ground arith)
            (after_grace env b),
        live-update_where-le w (is_due env) (enter_grace env) (λ s h k. ground arith)
            b.subscriptions,
        v.single w,
      ));
}

open_payment-subscriptions :
    (env : Env) (u : Uuid) (plan : Plan) (i : Option String) (b : Ledger)
    → (open_payment env u plan i b).1.subscriptions ≡ b.subscriptions
unfolding open_payment
open_payment-subscriptions env u plan none b = refl
open_payment-subscriptions env u plan (some x) b = refl

checkout-subscriptions :
    (env : Env) (u plan_id : Uuid) (r : Bool) (i : Option String) (b : Ledger)
    → (initiate_checkout env u plan_id r i b).1.subscriptions ≡ b.subscriptions
unfolding initiate_checkout
checkout-subscriptions env u plan_id r i b = elim (Result-cases (check_checkout u plan_id r b)) [
  | inl (plan, e) ↦ rw (e, initiate_checkout) (open_payment-subscriptions env u plan i b)
  | inr (x, e) ↦ rw (e, initiate_checkout) refl
]

renewal-subscriptions :
    (env : Env) (u : Uuid) (i : Option String) (b : Ledger)
    → (initiate_renewal env u i b).1.subscriptions ≡ b.subscriptions
unfolding initiate_renewal
renewal-subscriptions env u i b = elim (Option-cases (get_user_subscription u b)) [
  | inl e ↦ rw (e, initiate_renewal) refl
  | inr (s, e) ↦ rw (e, initiate_renewal) (checkout-subscriptions env u s.plan_id true i b)
]

IsSingle-same : (b b' : Ledger) → b'.subscriptions ≡ b.subscriptions → IsSingle b → IsSingle b'
IsSingle-same b b' e v = record { keyed = rw e v.keyed; single = λ w. rw e (v.single w) }

Step-IsSingle : {b c : Ledger} → Step b c → IsSingle b → IsSingle c
unfolding expire_stale_pending_payments
Step-IsSingle (webhook env tx b fresh) v = process_webhook-IsSingle env tx b fresh v
Step-IsSingle (lifecycle env b) v = lifecycle-IsSingle env b v
Step-IsSingle (stale env b) v = IsSingle-same b _ refl v
Step-IsSingle (checkout env u plan_id r i b) v =
    IsSingle-same b _ (checkout-subscriptions env u plan_id r i b) v
Step-IsSingle (renewal env u i b) v = IsSingle-same b _ (renewal-subscriptions env u i b) v

-- However webhooks, checkouts, renewals and the hourly jobs follow one another, no user ever has
-- two subscriptions that are active or in their grace period, if so at the start; new
-- subscriptions get new ids.
pub Reach-IsSingle : {a b : Ledger} → IsSingle a → Reach a b → IsSingle b
Reach-IsSingle v here = v
Reach-IsSingle v (next r s) = Step-IsSingle s (Reach-IsSingle v r)
