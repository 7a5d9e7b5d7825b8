-- ===== src/Payments/Expiry.antt =====
-- The hourly job `processExpiredSubscriptions`: its two loops save one row after the other, from
-- lists that were read before. Here they are shown to be updates of the whole tables.
use aamenn_backend.Base.{
  Bool, List, Option-cases, [], any, arith, if◌then◌else◌, inl, inr, leb, refl, select, true,
  update_where, ◌&&◌, ◌==◌, ◌∙◌, ◌∷◌, ◌≡◌,
}
use aamenn_backend.Table.{IsKeyed, get, get-update_where, key-get, option_update, save}
use aamenn_backend.Entities.Accounts.{user_entity}
use aamenn_backend.Entities.Billing.{Subscription, subscription_entity}
use aamenn_backend.Entities.Scalars.{Uuid}
use aamenn_backend.Payments.Lifecycle.{
  end_grace, enter_grace, expiry_loop, free_tier_gb, grace_loop, is_over,
  process_expired_subscriptions,
}
use aamenn_backend.Payments.Service.{expire_subscription, has_id, set_limit}
use aamenn_backend.Payments.Store.{Env, Ledger, is_active_status, is_grace_status}
use aamenn_backend.Table.Loops.{save_loop, save_loop-update_where}

abbrev pub is_due : Env → Subscription → Bool
is_due env s = is_active_status s.status && leb s.current_period_end env.now

abbrev pub is_lapsed : Env → Subscription → Bool
is_lapsed env s = is_grace_status s.status && is_over s.grace_ends_at env.now

grace_loop-save_loop :
    (env : Env) (rows t : List Subscription)
    → grace_loop env rows t
      ≡ save_loop (λ s. leb s.current_period_end env.now) (enter_grace env) rows t
unfolding grace_loop save_loop
grace_loop-save_loop env [] t = refl
grace_loop-save_loop env (s ∷ rows) t =
    grace_loop-save_loop env rows
      (if leb s.current_period_end env.now then save (enter_grace env s) t else t)

expiry_loop-save_loop :
    (env : Env) (rows : List Subscription) (b : Ledger)
    → (expiry_loop env rows b).subscriptions
      ≡ save_loop
          (λ s. is_over s.grace_ends_at env.now)
          (expire_subscription env.now)
          rows
          b.subscriptions
unfolding expiry_loop save_loop
expiry_loop-save_loop env [] b = refl
expiry_loop-save_loop env (s ∷ rows) b =
    ground
      (arith, expiry_loop-save_loop env rows b, expiry_loop-save_loop env rows (end_grace env s b))

expiry_loop-users :
    (env : Env) (w : Uuid) (rows : List Subscription) (b : Ledger)
    → get w (expiry_loop env rows b).users ≡ (
        if any (λ s. is_over s.grace_ends_at env.now && s.user_id == w) rows
        then option_update (λ u. true) (set_limit env.now free_tier_gb) (get w b.users)
        else get w b.users)
unfolding expiry_loop
expiry_loop-users env w [] b = refl
expiry_loop-users env w (s ∷ rows) b = elim (Option-cases (get w b.users)) [
  | inl gone ↦ ground (
    arith,
    gone,
    expiry_loop-users env w rows b,
    expiry_loop-users env w rows (end_grace env s b),
    get-update_where w (has_id s.user_id) (set_limit env.now free_tier_gb) (λ r. refl) b.users,
  )
  | inr (u, at_w) ↦ ground (
    arith,
    at_w,
    key-get w b.users at_w,
    expiry_loop-users env w rows b,
    expiry_loop-users env w rows (end_grace env s b),
    get-update_where w (has_id s.user_id) (set_limit env.now free_tier_gb) (λ r. refl) b.users,
  )
]

-- The table after the first loop.
abbrev pub after_grace : Env → Ledger → List Subscription
after_grace env b = update_where (is_due env) (enter_grace env) b.subscriptions

IsKeyed-enter_grace :
    (env : Env) (t : List Subscription)
    → IsKeyed t
    → IsKeyed (update_where (is_due env) (enter_grace env) t)
IsKeyed-enter_grace env [] k = tt
IsKeyed-enter_grace env (s ∷ t) k = ground (
  arith,
  k,
  IsKeyed-enter_grace env t k.1,
  get-update_where s.id (is_due env) (enter_grace env) (λ r. refl) t,
)

grace_all :
    (env : Env) (t : List Subscription)
    → IsKeyed t
    → grace_loop env (select (λ s. is_active_status s.status) t) t
      ≡ update_where (is_due env) (enter_grace env) t
grace_all env t k =
    grace_loop-save_loop env (select (λ s. is_active_status s.status) t) t
    ∙ save_loop-update_where (λ s. leb s.current_period_end env.now) (enter_grace env) (λ r. refl)
        (λ s. is_active_status s.status) t k

any-lapsed :
    (env : Env) (w : Uuid) (t : List Subscription)
    → any
        (λ s. is_over s.grace_ends_at env.now && s.user_id == w)
        (select (λ s. is_grace_status s.status) t)
      ≡ any (λ s. is_lapsed env s && s.user_id == w) t
any-lapsed env w [] = refl
any-lapsed env w (s ∷ t) = ground (arith, any-lapsed env w t)

-- The job is two updates of the table of subscriptions, where the ids in it are unique: every
-- active subscription whose period is over enters its grace period, which ends the configured
-- days after the period; then every grace period that is over ends in expiry, also one that was
-- just entered.
pub process_expired_subscriptions-update_where :
    (env : Env) (b : Ledger)
    → IsKeyed b.subscriptions
    → (process_expired_subscriptions env b).subscriptions
      ≡ update_where (is_lapsed env) (expire_subscription env.now) (after_grace env b)
unfolding process_expired_subscriptions
process_expired_subscriptions-update_where env b k = rw (grace_all env b.subscriptions k) (
    expiry_loop-save_loop env (select (λ s. is_grace_status s.status) (after_grace env b))
      (record b { subscriptions = after_grace env b })
    ∙ save_loop-update_where (λ s. is_over s.grace_ends_at env.now) (expire_subscription env.now)
        (λ r. refl) (λ s. is_grace_status s.status) (after_grace env b)
        (IsKeyed-enter_grace env b.subscriptions k))

-- Where the ids of subscriptions are unique, the job sets the storage limit to the free tier's 4 GB
-- for exactly the users one of whose grace periods ended in it, and changes no other row of the
-- users.
pub process_expired_subscriptions-users :
    (env : Env) (b : Ledger) (w : Uuid)
    → IsKeyed b.subscriptions
    → get w (process_expired_subscriptions env b).users ≡ (
        if any (λ s. is_lapsed env s && s.user_id == w) (after_grace env b)
        then option_update (λ u. true) (set_limit env.now free_tier_gb) (get w b.users)
        else get w b.users)
unfolding process_expired_subscriptions
process_expired_subscriptions-users env b w k =
    rw (grace_all env b.subscriptions k, ← any-lapsed env w (after_grace env b))
      (expiry_loop-users env w (select (λ s. is_grace_status s.status) (after_grace env b))
        (record b { subscriptions = after_grace env b }))
