-- ===== src/Auth/Reuse.antt =====
-- A refresh token that was used does not come back to life.
use text.Mathlib.Text.{◌==◌ as str_eq}
use aamenn_backend.Base.{
  >>=-eq-ok, List, Option, Result, String, [], any, ap, arith, err, false, not, ok, or_throw, refl,
  some, subst, throw_if, unauthorized, update_where, ℕ, ◌∙◌, ◌∷◌, ◌≡◌,
}
use aamenn_backend.Table.{IsKeyed}
use aamenn_backend.Auth.Outcomes.{
  Outcome-IsSpent, Outcome-ok-IsSpent, generate_tokens-IsSpent, refresh-Outcome,
}
use aamenn_backend.Auth.Recovered.{register-IsSpent, vault_reset_complete-IsSpent}
use aamenn_backend.Auth.Registration.{Register, register}
use aamenn_backend.Auth.Reset.{Recovery, ResetComplete, ResetEnv, vault_reset_complete}
use aamenn_backend.Auth.Rotation.{
  IsFindOne, IsFresh, IsOnly, IsSpent, IsSpent-update_where, find_token-IsSpent,
}
use aamenn_backend.Auth.Service.{
  Env, GooglePayload, LoginRequest, Passwords, Payload, Sessions, TokenResponse, Tokens,
  generate_tokens, google_login, has_hash, is_live_of, is_password, login, login_user, logout,
  logout_all, refresh, revoked,
}
use aamenn_backend.Entities.Accounts.{RefreshToken, User, refresh_token_entity, user_entity}
use aamenn_backend.Entities.Scalars.{Uuid}
use aamenn_backend.Entities.Uploads.{session_entity}
use aamenn_backend.Users.Service.{update_last_login}
use aamenn_backend.Users.Service.{Env as UserEnv}

-- What happens to the sessions. New rows have new ids, and new tokens new hashes.
pub data Step (c : Tokens) : Sessions → Sessions → Type 0 where
  logged_in :
      (passwords : Passwords) (env : Env) (dto : LoginRequest) (s s' : Sessions) (r : TokenResponse)
      → IsFresh c env s.tokens
      → login c passwords env dto s ≡ ok (r, s')
      → Step c s s'
  logged_in_by_google :
      (env : Env) (users_env : UserEnv) (ticket : Option GooglePayload)
      (access_token : Option String) (s s' : Sessions) (r : TokenResponse)
      → IsFresh c env s.tokens
      → google_login c env users_env ticket access_token s ≡ ok (r, s')
      → Step c s s'
  refreshed :
      (env : Env) (token : String) (s : Sessions)
      → IsFindOne env.find_row
      → IsFresh c env s.tokens
      → Step c s (refresh c env token s).1
  registered :
      (decoded_length : String → ℕ) (env : Env) (users_env : UserEnv) (password_hash : String)
      (dto : Register) (ip : String) (r : Recovery)
      → IsFresh c env r.sessions.tokens
      → Step c r.sessions
          (register c decoded_length env users_env password_hash dto ip r).1.sessions
  vault_was_reset :
      (users_env : UserEnv) (env : ResetEnv) (dto : ResetComplete) (r : Recovery)
      → Step c r.sessions (vault_reset_complete users_env env dto r).1.sessions
  logged_out : (u : Uuid) (token : String) (s : Sessions) → Step c s (logout c u token s)
  logged_out_all : (u : Uuid) (s : Sessions) → Step c s (logout_all u s)

pub data Reach (c : Tokens) (s : Sessions) : Sessions → Type 0 where
  no_steps : Reach c s s
  one_more : {s' s'' : Sessions} → Reach c s s' → Step c s' s'' → Reach c s s''

ok_injective {ℓ} : {A : Type ℓ} {a b : A} → ok a ≡ ok b → a ≡ b
ok_injective h = cc

abbrev second : TokenResponse × Sessions → Sessions
second r = r.1

google_login-users :
    (c : Tokens) (env : Env) (users_env : UserEnv) (ticket : Option GooglePayload)
    (access_token : Option String) (s s' : Sessions) (r : TokenResponse)
    → google_login c env users_env ticket access_token s ≡ ok (r, s')
    → (w : Uuid) × (users : List User) × ((generate_tokens c env w (record s { users = users })).1
        ≡ s')
unfolding google_login
google_login-users c env users_env ticket access_token s s' r h =
    let (p, _, h1) = >>=-eq-ok (or_throw ticket unauthorized) _ h in
    let (_, _, h2) = >>=-eq-ok (throw_if (str_eq p.email "") unauthorized) _ h1 in
    let (_, _, h3) = >>=-eq-ok (throw_if (not p.email_verified) unauthorized) _ h2 in
    let (_, _, h4) = >>=-eq-ok (throw_if (str_eq p.sub "") unauthorized) _ h3 in
    (_, _, ap second (ok_injective h4))

login-users :
    (c : Tokens) (passwords : Passwords) (env : Env) (dto : LoginRequest) (s s' : Sessions)
    (r : TokenResponse)
    → login c passwords env dto s ≡ ok (r, s')
    → (w : Uuid) × (users : List User) × ((generate_tokens c env w (record s { users = users })).1
        ≡ s')
unfolding login
login-users c passwords env dto s s' r h =
    let (u, _, h1) = >>=-eq-ok (or_throw (login_user dto s.users) unauthorized) _ h in
    let (_, _, h2) =
      >>=-eq-ok (throw_if (not (is_password passwords u dto.password)) unauthorized) _ h1 in
    let (_, _, h3) = >>=-eq-ok (throw_if (not u.is_active) unauthorized) _ h2 in
    (u.id, update_last_login env.now u.id s.users, ap second (ok_injective h3))

Step-IsSpent :
    (c : Tokens) (hash : String) (u : Uuid) {s s' : Sessions}
    → Step c s s'
    → IsSpent hash u s.tokens
    → IsSpent hash u s'.tokens
unfolding logout logout_all
Step-IsSpent c hash u (logged_in passwords env dto s s' r new h) spent =
    let (w, users, e) = login-users c passwords env dto s s' r h in
    subst (λ (x : Sessions). IsSpent hash u x.tokens) e
      (generate_tokens-IsSpent c env w (record s { users = users }) hash u new spent)
Step-IsSpent c hash u (logged_in_by_google env users_env ticket access_token s s' r new h) spent =
    let (w, users, e) = google_login-users c env users_env ticket access_token s s' r h in
    subst (λ (x : Sessions). IsSpent hash u x.tokens) e
      (generate_tokens-IsSpent c env w (record s { users = users }) hash u new spent)
Step-IsSpent c hash u (refreshed env token s one new) spent =
    Outcome-IsSpent c env token s hash u one new spent (refresh-Outcome c env token s)
Step-IsSpent c hash u (registered decoded_length env users_env password_hash dto ip r new) spent =
    register-IsSpent c decoded_length env users_env password_hash dto ip r hash u new spent
Step-IsSpent c hash u (vault_was_reset users_env env dto r) spent =
    vault_reset_complete-IsSpent users_env env dto r hash u spent
Step-IsSpent c hash u (logged_out v token s) spent =
    IsSpent-update_where (has_hash (c.hash_token token) v) hash u s.tokens spent
Step-IsSpent c hash u (logged_out_all v s) spent =
    IsSpent-update_where (is_live_of v) hash u s.tokens spent

Reach-IsSpent :
    (c : Tokens) (hash : String) (u : Uuid) {s s' : Sessions}
    → IsSpent hash u s.tokens
    → Reach c s s'
    → IsSpent hash u s'.tokens
Reach-IsSpent c hash u spent no_steps = spent
Reach-IsSpent c hash u spent (one_more r st) =
    Step-IsSpent c hash u st (Reach-IsSpent c hash u spent r)

all_ended :
    (u : Uuid) (t : List RefreshToken)
    → any (is_live_of u) (update_where (is_live_of u) revoked t) ≡ false
all_ended u [] = refl
all_ended u (x ∷ t) = ground (arith, all_ended u t)

-- After a refresh that gave new tokens, and after any registrations, logins, refreshes with any
-- tokens, resets of vaults and logouts, the same refresh token is refused, and presenting it ends
-- all sessions of its user: no row of the user is left that is not revoked. The conditions are that
-- ids are unique and new rows have new ids; that a refresh token which is signed is not equal, by
-- its hash, to one on record, though two that are signed for one user in one second are; that at
-- first no two rows of the user have the token's hash; that a look-up returns a row that fits,
-- whichever, where there is one; and that the signature of the token is still accepted.
pub refresh-reuse :
    (c : Tokens) (env env' : Env) (token : String) (p : Payload) (s s1 s2 : Sessions)
    (r : TokenResponse)
    → IsFindOne env.find_row
    → IsFindOne env'.find_row
    → IsKeyed s.tokens
    → IsOnly (c.hash_token token) p.sub s.tokens
    → IsFresh c env s.tokens
    → c.verify env.now token ≡ some p
    → refresh c env token s ≡ (ok r, s1)
    → Reach c s1 s2
    → c.verify env'.now token ≡ some p
    → ((refresh c env' token s2).0 ≡ err unauthorized)
      × (any (is_live_of p.sub) (refresh c env' token s2).1.tokens ≡ false)
unfolding refresh logout_all
refresh-reuse c env env' token p s s1 s2 r one one' k only new verified h steps again =
    let (type_ok, spent1) =
      Outcome-ok-IsSpent c env token s s1 p r one k only new verified
        (refresh-Outcome c env token s) h in
    let (t, found, spent) =
      find_token-IsSpent env' (c.hash_token token) p.sub s2.tokens one'
        (Reach-IsSpent c (c.hash_token token) p.sub spent1 steps) in
    let e : refresh c env' token s2 ≡ (err unauthorized, logout_all p.sub s2) =
      rw (again, type_ok, found, spent, refresh) refl in
    (
      ap (λ (x : Result TokenResponse × Sessions). x.0) e,
      ap (λ (x : Result TokenResponse × Sessions). any (is_live_of p.sub) x.1.tokens) e
          ∙ all_ended p.sub s2.tokens,
    )
