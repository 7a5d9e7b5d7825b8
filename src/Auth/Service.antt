-- ===== src/Auth/Service.antt =====
-- The sessions of `AuthService` (src/modules/auth/auth.service.ts): refresh tokens, their rotation,
-- and what ends them. Signing, hashing and the configuration are arguments. A method returns what it
-- returned or threw together with the tables, since writes before an exception stay.
use Prim.Native.Char.{code}
use Prim.Native.String.{◌++◌ as str_append}
use text.Mathlib.Text.{◌==◌ as str_eq}
use aamenn_backend.Base.{
  Bool, List, Option, Result, String, [], codes, err, false, if◌then◌else◌, leb, ltb, none, not, ok,
  or_null, or_old, or_throw, some, throw_if, true, unauthorized, update_where, ℕ, ◌&&◌, ◌*◌, ◌+◌,
  ◌-◌, ◌==◌, ◌>>=◌, ◌>>◌, ◌∷◌,
}
use aamenn_backend.Table.{get, save}
use aamenn_backend.Entities.Accounts.{RefreshToken, User, refresh_token_entity, user_entity}
use aamenn_backend.Entities.Scalars.{Time, Uuid}
use aamenn_backend.Users.Service.{
  Login, by_auth_provider_id, by_email, find_or_create, find_user, update_google_access_token,
  update_last_login,
}
use aamenn_backend.Users.Service.{Env as UserEnv}

-- `expiration.match(/^(\d+)([smhd])$/)`, and the number of seconds.
abbrev pub unit_seconds : ℕ → Option ℕ
unit_seconds c =
    if c == b's'
    then some 1
    else (if c == b'm'
        then some 60
        else (if c == b'h' then some 3600 else (if c == b'd' then some 86400 else none)))

abbrev pub is_digit : ℕ → Bool
is_digit c = leb b'0' c && leb c b'9'

-- `seen` says whether a digit was read before, and `value` what the digits say.
abbrev pub read_expiration : Bool → ℕ → List ℕ → Option ℕ
read_expiration seen value [] = none
read_expiration seen value (c ∷ []) =
    if seen then (elim (unit_seconds c) [ none ↦ none | some n ↦ some (value * n) ]) else none
read_expiration seen value (c ∷ (d ∷ cs)) =
    let more = read_expiration true (value * 10 + (c - b'0')) (d ∷ cs) in
    if is_digit c then more else none

unfoldable pub parse_expiration : String → ℕ
parse_expiration text = or_old (read_expiration false 0 (codes text)) 900

-- The claims `sub` and `type` of a token.
pub record Payload : Type 0 where
  pub sub : Uuid
  pub type : String

-- `verifyAsync` at a time, with the signature and the expiry of the token, and `hashToken`.
pub record Tokens : Type 0 where
  pub verify : Time → String → Option Payload
  pub hash_token : String → String

-- The clock, the id of the next row, the tokens that are signed next, the two settings, and which
-- row `findOne` of the table of tokens returns for a test.
pub record Env : Type 0 where
  pub now : Time
  pub fresh_token : Uuid
  pub access_token : String
  pub refresh_token : String
  pub access_expiration : String
  pub refresh_expiration : String
  pub find_row : (RefreshToken → Bool) → List RefreshToken → Option RefreshToken

pub record Sessions : Type 0 where
  pub tokens : List RefreshToken
  pub users : List User

pub record TokenResponse : Type 0 where
  pub access_token : String
  pub refresh_token : String
  pub expires_in : ℕ

abbrev pub new_token : Tokens → Env → Uuid → RefreshToken
new_token c env u = record {
  id = env.fresh_token;
  user_id = u;
  token_hash = c.hash_token env.refresh_token;
  is_revoked = false;
  expires_at = env.now + parse_expiration env.refresh_expiration;
  user_agent = none;
  ip_address = none;
  created_at = env.now;
  last_used_at = none;
}

unfoldable pub generate_tokens : Tokens → Env → Uuid → Sessions → TokenResponse × Sessions
generate_tokens c env u s = (
  record {
    access_token = env.access_token;
    refresh_token = env.refresh_token;
    expires_in = parse_expiration env.access_expiration;
  },
  record s { tokens = save (new_token c env u) s.tokens },
)

abbrev pub has_hash : String → Uuid → RefreshToken → Bool
has_hash hash u t = str_eq t.token_hash hash && t.user_id == u

-- `findOne({ where: { tokenHash, userId } })`, for which any row that fits may come.
abbrev pub find_token : Env → String → Uuid → List RefreshToken → Option RefreshToken
find_token env hash u t = env.find_row (has_hash hash u) t

abbrev pub revoked : RefreshToken → RefreshToken
revoked t = record t { is_revoked = true }

abbrev pub is_live_of : Uuid → RefreshToken → Bool
is_live_of u t = t.user_id == u && not t.is_revoked

unfoldable pub logout_all : Uuid → Sessions → Sessions
logout_all u s = record s { tokens = update_where (is_live_of u) revoked s.tokens }

unfoldable pub logout : Tokens → Uuid → String → Sessions → Sessions
logout c u token s = record s {
  tokens = update_where (has_hash (c.hash_token token) u) revoked s.tokens;
}

-- The user of a stored token that may be used.
unfoldable pub refresh_user : Env → RefreshToken → Uuid → List User → Result User
refresh_user env t sub users = do
  throw_if (ltb t.expires_at env.now) unauthorized
  u ← or_throw (get sub users) unauthorized
  throw_if (not u.is_active) unauthorized
  ok u

unfoldable pub refresh : Tokens → Env → String → Sessions → Result TokenResponse × Sessions
unfolding logout_all generate_tokens refresh_user
refresh c env token s = elim (c.verify env.now token) [
  | none ↦ (err unauthorized, s)
  | some p ↦
      if not (str_eq p.type "refresh")
      then (err unauthorized, s)
      else (elim (find_token env (c.hash_token token) p.sub s.tokens) [
        | none ↦ (err unauthorized, s)
        | some t ↦
            if t.is_revoked
            then (err unauthorized, logout_all p.sub s)
            else (elim (refresh_user env t p.sub s.users) [
              | err e ↦ (err e, s)
              | ok u ↦
                  let r =
                    generate_tokens c env u.id (record s { tokens = save (revoked t) s.tokens }) in
                  (ok r.0, r.1)
            ])
      ])
]

-- `LoginDto`
pub record LoginRequest : Type 0 where
  pub email : String
  pub password : String

-- `compare` is that of bcrypt; `opens_vault` says whether the password opens the vault of a user.
pub record Passwords : Type 0 where
  pub compare : String → String → Bool
  pub opens_vault : Uuid → String → Bool

abbrev pub local_id : String → String
local_id email = str_append "local:" email

abbrev pub login_user : LoginRequest → List User → Option User
login_user dto t = elim (find_user (by_email dto.email) t) [
  | none ↦ find_user (by_auth_provider_id (local_id dto.email)) t
  | some u ↦ some u
]

abbrev pub is_provider : String → Option String → Bool
is_provider name none = false
is_provider name (some p) = str_eq p name

abbrev pub is_password : Passwords → User → String → Bool
is_password c u password =
    let by_vault = is_provider "google" u.auth_provider && c.opens_vault u.id password in
    if is_provider "local" u.auth_provider
    then (elim (or_null u.password_hash) [ none ↦ by_vault | some hash ↦ c.compare password hash ])
    else by_vault

unfoldable pub login :
    Tokens → Passwords → Env → LoginRequest → Sessions → Result (TokenResponse × Sessions)
unfolding generate_tokens update_last_login
login c passwords env dto s = do
  u ← or_throw (login_user dto s.users) unauthorized
  throw_if (not (is_password passwords u dto.password)) unauthorized
  throw_if (not u.is_active) unauthorized
  ok (generate_tokens c env u.id (record s { users = update_last_login env.now u.id s.users }))

-- The payload of a verified ticket.
pub record GooglePayload : Type 0 where
  pub sub : String
  pub email : String
  pub email_verified : Bool
  pub name : Option String

-- `payload.name || payload.email.split('@')[0]`
abbrev pub before_at : String → String
before_at String.[] = ""
before_at (String.◌∷◌ c s) = if code c == b'@' then "" else String.◌∷◌ c (before_at s)

abbrev pub google_account : GooglePayload → Login
google_account p = record {
  auth_provider_id = str_append "google:" p.sub;
  email = p.email;
  password_hash = none;
  auth_provider = some "google";
  display_name = some (or_old (or_null p.name) (before_at p.email));
}

abbrev pub store_google_token : UserEnv → Uuid → Option String → List User → List User
unfolding update_google_access_token
store_google_token env id none t = t
store_google_token env id (some token) t = update_google_access_token env id token t

-- `access_token` is the token for the API of Google that the request may bring.
unfoldable pub google_login :
    Tokens
    → Env
    → UserEnv
    → Option GooglePayload
    → Option String
    → Sessions
    → Result (TokenResponse × Sessions)
unfolding generate_tokens update_last_login find_or_create
google_login c env users_env ticket access_token s = do
  p ← or_throw ticket unauthorized
  throw_if (str_eq p.email "") unauthorized
  throw_if (not p.email_verified) unauthorized
  throw_if (str_eq p.sub "") unauthorized
  let (u, users) = find_or_create users_env (google_account p) s.users
  let users' = update_last_login env.now u.id users
  let users'' = store_google_token users_env u.id (or_null access_token) users'
  ok (generate_tokens c env u.id (record s { users = users'' }))
