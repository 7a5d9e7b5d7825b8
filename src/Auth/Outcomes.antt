-- ===== src/Auth/Outcomes.antt =====
-- How a refresh ends, and that no ending brings a spent token back.
use text.Mathlib.Text.{◌==◌ as str_eq}
use aamenn_backend.Base.{
  Bool-cases, HttpError, Option-cases, Result, Result-cases, String, ap, arith, err, inl, inr, ok,
  some, subst, sym, true, unauthorized, ◌≡◌,
}
use aamenn_backend.Table.{IsKeyed, get, save}
use aamenn_backend.Auth.Rotation.{
  IsFindOne, IsFresh, IsFresh-save-revoked, IsOnly, IsSpent, IsSpent-only, IsSpent-save,
  IsSpent-save-revoked, IsSpent-update_where,
}
use aamenn_backend.Auth.Service.{
  Env, Payload, Sessions, TokenResponse, Tokens, find_token, generate_tokens, has_hash, is_live_of,
  logout_all, refresh, refresh_user, revoked,
}
use aamenn_backend.Entities.Accounts.{RefreshToken, User, refresh_token_entity, user_entity}
use aamenn_backend.Entities.Scalars.{Uuid}

pub generate_tokens-IsSpent :
    (c : Tokens) (env : Env) (w : Uuid) (s : Sessions) (hash : String) (u : Uuid)
    → IsFresh c env s.tokens
    → IsSpent hash u s.tokens
    → IsSpent hash u (generate_tokens c env w s).1.tokens
unfolding generate_tokens
generate_tokens-IsSpent c env w s hash u new spent = IsSpent-save c env w hash u s.tokens new spent

-- How a refresh ends: in an error, with the tables as before or with all sessions of the user ended;
-- or in new tokens, after the old one was revoked.
pub data Outcome (c : Tokens) (env : Env) (token : String) (s : Sessions)
    : Result TokenResponse × Sessions → Type 0 where
  refused : (e : HttpError) → Outcome c env token s (err e, s)
  reused : (p : Payload) → Outcome c env token s (err unauthorized, logout_all p.sub s)
  rotated :
      (p : Payload) (t : RefreshToken) (u : User)
      → c.verify env.now token ≡ some p
      → str_eq p.type "refresh" ≡ true
      → find_token env (c.hash_token token) p.sub s.tokens ≡ some t
      → get p.sub s.users ≡ some u
      → Outcome c env token s (
        ok (generate_tokens c env u.id (record s { tokens = save (revoked t) s.tokens })).0,
        (generate_tokens c env u.id (record s { tokens = save (revoked t) s.tokens })).1,
      )

pub refresh-Outcome :
    (c : Tokens) (env : Env) (token : String) (s : Sessions)
    → Outcome c env token s (refresh c env token s)
unfolding refresh refresh_user
refresh-Outcome c env token s = elim (Option-cases (c.verify env.now token)) [
  | inl bad ↦ rw (bad, refresh) (refused unauthorized)
  | inr (p, verified) ↦ elim (Bool-cases (str_eq p.type "refresh")) [
    | inr other ↦ rw (verified, other, refresh) (refused unauthorized)
    | inl type_ok ↦ elim (Option-cases (find_token env (c.hash_token token) p.sub s.tokens)) [
      | inl absent ↦ rw (verified, type_ok, absent, refresh) (refused unauthorized)
      | inr (t, found) ↦ elim (Bool-cases t.is_revoked) [
        | inl spent ↦ rw (verified, type_ok, found, spent, refresh) (reused p)
        | inr live ↦ elim (Result-cases (refresh_user env t p.sub s.users)) [
          | inr (e, failed_check) ↦
              rw (verified, type_ok, found, live, failed_check, refresh) (refused e)
          | inl (u, passed) ↦
              rw (verified, type_ok, found, live, passed, refresh)
                (rotated p t u verified type_ok found (ground (arith, passed)))
        ]
      ]
    ]
  ]
]

pub Outcome-IsSpent :
    (c : Tokens) (env : Env) (token : String) (s : Sessions) (hash : String) (u : Uuid)
    → IsFindOne env.find_row
    → IsFresh c env s.tokens
    → IsSpent hash u s.tokens
    → {x : Result TokenResponse × Sessions} → Outcome c env token s x
    → IsSpent hash u x.1.tokens
unfolding logout_all
Outcome-IsSpent c env token s hash u one new spent (refused e) = spent
Outcome-IsSpent c env token s hash u one new spent (reused p) =
    IsSpent-update_where (is_live_of p.sub) hash u s.tokens spent
Outcome-IsSpent c env token s hash u one new spent (rotated p t w verified type_ok found known) =
    let (at, _) = one.found (has_hash (c.hash_token token) p.sub) s.tokens t spent.keyed found in
    generate_tokens-IsSpent c env w.id (record s { tokens = save (revoked t) s.tokens }) hash u
      (IsFresh-save-revoked c env s.tokens t at new)
      (IsSpent-save-revoked hash u s.tokens t at spent)

err_not_ok {ℓ} : {A : Type ℓ} {e : HttpError} {a : A} → ¬ (err e ≡ ok a)
err_not_ok h = cc

pub Outcome-ok-IsSpent :
    (c : Tokens) (env : Env) (token : String) (s s1 : Sessions) (p : Payload) (r : TokenResponse)
    → IsFindOne env.find_row
    → IsKeyed s.tokens
    → IsOnly (c.hash_token token) p.sub s.tokens
    → IsFresh c env s.tokens
    → c.verify env.now token ≡ some p
    → {x : Result TokenResponse × Sessions} → Outcome c env token s x
    → x ≡ (ok r, s1)
    → (str_eq p.type "refresh" ≡ true) × IsSpent (c.hash_token token) p.sub s1.tokens
Outcome-ok-IsSpent c env token s s1 p r one k only new verified (refused e) h =
    absurd (err_not_ok (ap (λ y. y.0) h))
Outcome-ok-IsSpent c env token s s1 p r one k only new verified (reused q) h =
    absurd (err_not_ok (ap (λ y. y.0) h))
Outcome-ok-IsSpent c env token s s1 p r one k only new verified
      (rotated q t w verified' type_ok found known) h =
    let same_payload : p ≡ q = ground (arith, verified, verified') in
    let hash = c.hash_token token in
    let only' : IsOnly hash q.sub s.tokens =
      subst (λ (y : Payload). IsOnly hash y.sub s.tokens) same_payload only in
    let (at, has) = one.found (has_hash hash q.sub) s.tokens t k found in
    let spent = IsSpent-only hash q.sub s.tokens t k at has only' in
    let result =
      generate_tokens-IsSpent c env w.id (record s { tokens = save (revoked t) s.tokens }) hash
        q.sub (IsFresh-save-revoked c env s.tokens t at new) spent in
    subst (λ (y : Payload). (str_eq y.type "refresh" ≡ true) × IsSpent hash y.sub s1.tokens)
      (sym same_payload)
      (type_ok, subst (λ (y : Sessions). IsSpent hash q.sub y.tokens) (ap (λ y. y.1) h) result)
