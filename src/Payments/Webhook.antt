-- ===== src/Payments/Webhook.antt =====
-- What a Paymob webhook does to the ledger.
use mathlib.Core.List.{append-nil}
use aamenn_backend.Base.{
  Bool, List, [], arith, if◌then◌else◌, none, refl, select, some, update_where, ◌++◌, ◌∷◌, ◌≡◌, ◌≢◌,
}
use aamenn_backend.Table.{get, get-save, get-update_where, option_update, save}
use aamenn_backend.Entities.Accounts.{user_entity}
use aamenn_backend.Entities.Billing.{
  Payment, Plan, Subscription, payment_entity, plan_entity, subscription_entity,
}
use aamenn_backend.Entities.Scalars.{Uuid}
use aamenn_backend.Payments.Service.{
  activate_plan, expire_subscription, has_id, new_subscription, set_limit,
}
use aamenn_backend.Payments.Store.{Env, Ledger, is_live_of}

-- The last live subscription: the one that a user has after an activation.
module _ (env : Env) (u : Uuid) where
  expire-select :
      (t : List Subscription)
      → select (is_live_of u) (update_where (is_live_of u) (expire_subscription env.now) t) ≡ []
  expire-select [] = refl
  expire-select (s ∷ t) = ground (arith, expire-select t)

  expire-select_ne :
      (w : Uuid) (t : List Subscription)
      → w ≢ u
      → select (is_live_of w) (update_where (is_live_of u) (expire_subscription env.now) t)
        ≡ select (is_live_of w) t
  expire-select_ne w [] ne = refl
  expire-select_ne w (s ∷ t) ne = ground (arith, expire-select_ne w t ne)

select-save_fresh :
    (p : Subscription → Bool) (s : Subscription) (t : List Subscription)
    → get s.id t ≡ none
    → select p (save s t) ≡ select p t ++ (if p s then s ∷ [] else [])
select-save_fresh p s [] h = refl
select-save_fresh p s (x ∷ t) h = ground (arith, select-save_fresh p s t)

-- What an activation promises: the user's only live subscription is the new one, the storage
-- limit is the plan's, and no other user's subscriptions or rows change.
pub record Activated (env : Env) (plan : Plan) (p : Payment) (b b' : Ledger) : Type 0 where
  pub only_live : select (is_live_of p.user_id) b'.subscriptions ≡ new_subscription env plan p ∷ []
  pub others_live :
      (w : Uuid)
      → w ≢ p.user_id
      → select (is_live_of w) b'.subscriptions ≡ select (is_live_of w) b.subscriptions
  pub users :
      (w : Uuid)
      → get w b'.users
        ≡ option_update (has_id p.user_id) (set_limit env.now plan.storage_gb) (get w b.users)
  pub payment :
      get p.id b'.payments
      ≡ some (record p { subscription_id = some env.fresh_subscription; updated_at = env.now })

get-expire_none :
    (env : Env) (u k : Uuid) (t : List Subscription)
    → get k t ≡ none
    → get k (update_where (is_live_of u) (expire_subscription env.now) t) ≡ none
get-expire_none env u k t h =
    rw (get-update_where k (is_live_of u) (expire_subscription env.now) (λ r. refl) t, h) refl

pub activate_plan-Activated :
    (env : Env) (plan : Plan) (p : Payment) (b : Ledger)
    → get env.fresh_subscription b.subscriptions ≡ none
    → Activated env plan p b (activate_plan env plan p b)
unfolding activate_plan
activate_plan-Activated env plan p b fresh =
    let u = p.user_id in
    let t = update_where (is_live_of u) (expire_subscription env.now) b.subscriptions in
    let new = new_subscription env plan p in
    let fresh' : get new.id t ≡ none =
      get-expire_none env u env.fresh_subscription b.subscriptions fresh in
    record {
      only_live =
          rw (select-save_fresh (is_live_of u) new t fresh', expire-select env u b.subscriptions)
            (ground arith);
      others_live = λ w ne. ground (
        arith,
        select-save_fresh (is_live_of w) new t fresh',
        expire-select_ne env u w b.subscriptions ne,
        append-nil (select (is_live_of w) b.subscriptions),
      );
      users = λ w.
          get-update_where w (has_id u) (set_limit env.now plan.storage_gb) (λ r. refl) b.users;
      payment = ground (
        arith,
        get-save p.id
            (record p { subscription_id = some env.fresh_subscription; updated_at = env.now })
            b.payments,
      );
    }
