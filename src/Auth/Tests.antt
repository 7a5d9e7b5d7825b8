-- ===== src/Auth/Tests.antt =====
-- The theorem on refresh tokens at sample sessions, and runs of the helpers.
use native.Mathlib.Decide.{ℕ_discrete}
use text.Mathlib.Text.{◌==◌ as str_eq}
use aamenn_backend.Base.{
  ==_refl, Bool, Bool-cases, List, Option, [], any, ap, arith, err, false, if◌then◌else◌, inl, inr,
  none, ok, refl, some, subst, sym, true, unauthorized, ℕ, ◌+◌, ◌∙◌, ◌∷◌, ◌≡◌,
}
use aamenn_backend.Table.{IsKeyed, get}
use aamenn_backend.Auth.Reuse.{logged_out, no_steps, one_more, refresh-reuse}
use aamenn_backend.Auth.Rotation.{IsFindOne, IsFresh}
use aamenn_backend.Auth.Service.{
  Env, Sessions, TokenResponse, Tokens, generate_tokens, is_live_of, logout, new_token,
  parse_expiration, refresh, refresh_user,
}
use aamenn_backend.Entities.Accounts.{
  RefreshToken, User, UserRole, refresh_token_entity, user_entity,
}
use aamenn_backend.Entities.Scalars.{Uuid}

-- Texts are their own hashes; one text is a refresh token of user 7.
abbrev tokens : Tokens
tokens = record {
  verify = λ now token.
      if str_eq token "refresh_1" then some (record { sub = 7; type = "refresh" }) else none;
  hash_token = λ token. token;
}

-- a look-up that takes the first row that fits
abbrev first_row : (RefreshToken → Bool) → List RefreshToken → Option RefreshToken
first_row q [] = none
first_row q (x ∷ t) = if q x then some x else first_row q t

first_row-found :
    (q : RefreshToken → Bool) (t : List RefreshToken) (r : RefreshToken)
    → IsKeyed t
    → first_row q t ≡ some r
    → (get r.id t ≡ some r) × (q r ≡ true)
first_row-found q [] r k h = cc
first_row-found q (x ∷ t) r k h = elim (Bool-cases (q x)) [
  | inl this ↦
      let e : x ≡ r = ground (arith, h, this) in
      subst (λ (y : RefreshToken). (get y.id (x ∷ t) ≡ some y) × (q y ≡ true)) e
        (ground (arith, ==_refl x.id), this)
  | inr other ↦
      let (at, fits) = first_row-found q t r k.1 (ground (arith, h, other)) in
      (ground (arith, at, k.0), fits)
]

first_row-missing :
    (q : RefreshToken → Bool) (t : List RefreshToken) (i : Uuid) (r : RefreshToken)
    → first_row q t ≡ none
    → get i t ≡ some r
    → q r ≡ false
first_row-missing q [] i r h at = cc
first_row-missing q (x ∷ t) i r h at = elim (Bool-cases (q x)) [
  | inl this ↦ ground (arith, h, this)
  | inr other ↦ elim (ℕ_discrete x.id i) [
    | yes e ↦ let same : x ≡ r = ground (arith, at, e) in ap q (sym same) ∙ other
    | no ne ↦ first_row-missing q t i r (ground (arith, h, other)) (ground (arith, at, ne))
  ]
]

first_row-IsFindOne : IsFindOne first_row
first_row-IsFindOne = record { found = first_row-found; missing = first_row-missing }

abbrev env : ℕ → Env
env n = record {
  now = 1000 + n;
  fresh_token = n;
  access_token = "access";
  refresh_token = "refresh_2";
  access_expiration = "15m";
  refresh_expiration = "7d";
  find_row = first_row;
}

abbrev some_user : User
some_user = record {
  id = 7;
  email = "a@b.c";
  display_name = none;
  auth_provider_id = "local:a@b.c";
  password_hash = some "hash";
  auth_provider = some "local";
  role = UserRole.user;
  is_active = true;
  last_login_at = none;
  avatar_file_id = none;
  trash_retention_days = 30;
  storage_limit_gb = 4;
  google_access_token = none;
  google_refresh_token = none;
  google_token_expires_at = none;
  signup_ip = none;
  signup_fingerprint = none;
  signup_flagged = false;
  signup_ip_type = none;
  created_at = 0;
  updated_at = 0;
}

abbrev row : RefreshToken
row = record (new_token tokens (env 1) 7) { token_hash = "refresh_1" }

abbrev sample_sessions : Sessions
sample_sessions = record { tokens = row ∷ []; users = some_user ∷ [] }

expirations :
    (parse_expiration "7d" ≡ 604800)
    × (parse_expiration "15m" ≡ 900)
    × (parse_expiration "x1h" ≡ 900)
unfolding parse_expiration
expirations = (refl, refl, refl)

abbrev rotated_sessions : Sessions
rotated_sessions = (refresh tokens (env 2) "refresh_1" sample_sessions).1

abbrev response : TokenResponse
response = record { access_token = "access"; refresh_token = "refresh_2"; expires_in = 900 }

rotation : refresh tokens (env 2) "refresh_1" sample_sessions ≡ (ok response, rotated_sessions)
unfolding refresh generate_tokens refresh_user parse_expiration
rotation = refl

is_row : (i : Uuid) (r : RefreshToken) → get i sample_sessions.tokens ≡ some r → (i ≡ 1) × (row ≡ r)
is_row i r at = elim (ℕ_discrete i 1) [
  | yes e ↦ (e, ground (arith, at, e))
  | no ne ↦ ground (arith, at, ne)
]

sample-IsFresh : IsFresh tokens (env 2) sample_sessions.tokens
sample-IsFresh = record {
  id = refl;
  hash = λ i r at.
      let (_, this) = is_row i r at in
      ap (λ (y : RefreshToken). str_eq y.token_hash "refresh_2") (sym this);
}

-- the refresh token is presented again after a logout of another user
refresh-reuse_example :
    ((refresh tokens (env 3) "refresh_1" (logout tokens 8 "other" rotated_sessions)).0
      ≡ err unauthorized)
    × (any
          (is_live_of 7)
          (refresh tokens (env 3) "refresh_1" (logout tokens 8 "other" rotated_sessions)).1.tokens
        ≡ false)
refresh-reuse_example =
    refresh-reuse tokens (env 2) (env 3) "refresh_1" (record { sub = 7; type = "refresh" })
      sample_sessions rotated_sessions (logout tokens 8 "other" rotated_sessions) response
      first_row-IsFindOne first_row-IsFindOne (refl, tt)
      (λ i j r r' at at' has has'. (is_row i r at).0 ∙ sym (is_row j r' at').0) sample-IsFresh refl
      rotation (one_more no_steps (logged_out 8 "other" rotated_sessions)) refl
