-- ===== src/Auth/Reset.antt =====
-- The reset of a vault with a recovery key: the four steps of `AuthService`
-- (src/modules/auth/auth.service.ts), the reset sessions of `OtpService`
-- (src/modules/otp/otp.service.ts), and `VaultSecurityService`
-- (src/modules/vault/vault-security.service.ts). A step returns what it returned or threw together
-- with the store.
use text.Mathlib.Text.{◌==◌ as str_eq}
use aamenn_backend.Base.{
  Bool, List, Option, Result, String, [], bad_request, err, false, if◌then◌else◌, is_none, ltb,
  none, not, ok, or_null, or_throw, select, some, throw_if, unauthorized, ℕ, ◌&&◌, ◌+◌, ◌>>=◌, ◌>>◌,
  ◌∷◌,
}
use aamenn_backend.Table.{get}
use aamenn_backend.Auth.Service.{Sessions, is_provider, logout_all}
use aamenn_backend.Entities.Accounts.{
  KdfParams, User, UserSecurity, user_entity, user_security_entity,
}
use aamenn_backend.Entities.Scalars.{Time, Uuid}
use aamenn_backend.Entities.Uploads.{session_entity}
use aamenn_backend.Otp.Service.{Slot, generate_otp, verify_otp}
use aamenn_backend.Users.Service.{by_email, find_user, update_password_hash, update_security_params}
use aamenn_backend.Users.Service.{Env as UserEnv}

-- A key `vault-reset:session:{token}` in Redis.
pub record ResetSession : Type 0 where
  pub token : String
  pub user_id : Uuid
  pub expires_at : Time

-- `slot` has the keys of the one-time password of the address of the request.
pub record Recovery : Type 0 where
  pub sessions : Sessions
  pub security : List UserSecurity
  pub slot : Slot
  pub resets : List ResetSession

-- The clock, the random number and token, the times in milliseconds, and the hash of the password.
pub record ResetEnv : Type 0 where
  pub now : Time
  pub otp : String
  pub otp_ttl : ℕ
  pub reset_token : String
  pub reset_session_ttl : ℕ
  pub password_hash : String

unfoldable pub create_reset_session : ResetEnv → Uuid → List ResetSession → List ResetSession
create_reset_session env u t =
    record { token = env.reset_token; user_id = u; expires_at = env.now + env.reset_session_ttl }
    ∷ select (λ (x : ResetSession). not (str_eq x.token env.reset_token)) t

abbrev pub is_reset_session : Time → String → ResetSession → Bool
is_reset_session now token x = str_eq x.token token && ltb now x.expires_at

unfoldable pub validate_reset_session : Time → String → List ResetSession → Option Uuid
validate_reset_session now token [] = none
validate_reset_session now token (x ∷ t) =
    if is_reset_session now token x then some x.user_id else validate_reset_session now token t

unfoldable pub consume_reset_session : String → List ResetSession → List ResetSession
consume_reset_session token = select (λ (x : ResetSession). not (str_eq x.token token))

abbrev pub is_given : Option String → Bool
is_given o = not (is_none (or_null o))

unfoldable pub is_vault_configured : Uuid → List UserSecurity → Bool
is_vault_configured u t = elim (get u t) [
  | none ↦ false
  | some s ↦ is_given (some s.encrypted_master_key) && is_given (some s.kek_salt)
]

unfoldable pub is_recovery_configured : Uuid → List UserSecurity → Bool
is_recovery_configured u t = elim (get u t) [
  | none ↦ false
  | some s ↦ is_given s.recovery_encrypted_master_key && is_given s.recovery_salt
]

unfoldable pub get_vault_security_or_throw : Uuid → List UserSecurity → Result UserSecurity
get_vault_security_or_throw u t = do
  s ← or_throw (get u t) unauthorized
  throw_if (not (is_given (some s.encrypted_master_key) && is_given (some s.kek_salt))) unauthorized
  ok s

-- `decrypts` says whether the key that is derived from a password opens the master key.
unfoldable pub verify_vault_password :
    (UserSecurity → String → Bool) → Uuid → String → List UserSecurity → Result (Unit {0})
unfolding get_vault_security_or_throw
verify_vault_password decrypts u password t = do
  s ← get_vault_security_or_throw u t
  throw_if (not (decrypts s password)) unauthorized
  ok tt

abbrev pub can_reset : Uuid → List UserSecurity → Bool
can_reset u t = elim (get u t) [ none ↦ false | some s ↦ is_given s.recovery_encrypted_master_key ]

unfoldable pub vault_reset_request : ResetEnv → String → Recovery → Recovery
vault_reset_request env email r = elim (find_user (by_email email) r.sessions.users) [
  | none ↦ r
  | some u ↦
      if can_reset u.id r.security
      then record r { slot = (generate_otp env.now env.otp_ttl env.otp r.slot).1 }
      else r
]

unfoldable pub vault_reset_verify : ResetEnv → String → String → Recovery → Result String × Recovery
unfolding create_reset_session
vault_reset_verify env email otp r = elim (find_user (by_email email) r.sessions.users) [
  | none ↦ (err unauthorized, r)
  | some u ↦
      let (is_valid, slot) = verify_otp env.now otp r.slot in
      if is_valid
      then (
        ok env.reset_token,
        record r { slot = slot; resets = create_reset_session env u.id r.resets },
      )
      else (err unauthorized, record r { slot = slot })
]

unfoldable pub vault_reset_get_params : Time → String → Recovery → Result UserSecurity
unfolding validate_reset_session
vault_reset_get_params now token r = do
  u ← or_throw (validate_reset_session now token r.resets) unauthorized
  s ← or_throw (get u r.security) bad_request
  throw_if (not (is_given s.recovery_encrypted_master_key)) bad_request
  ok s

-- `VaultResetCompleteDto`, without the password, of which the hash is in the environment.
pub record ResetComplete : Type 0 where
  pub reset_token : String
  pub new_encrypted_master_key : String
  pub new_kek_salt : String
  pub new_kdf_params : Option KdfParams

abbrev pub with_local_password : UserEnv → ResetEnv → User → List User → List User
unfolding update_password_hash
with_local_password users_env env u t =
    if is_provider "local" u.auth_provider
    then update_password_hash users_env u.id env.password_hash t
    else t

-- The password is written before the security record is looked for.
unfoldable pub vault_reset_complete :
    UserEnv → ResetEnv → ResetComplete → Recovery → Result (Unit {0}) × Recovery
unfolding validate_reset_session with_local_password update_security_params logout_all
    consume_reset_session
vault_reset_complete users_env env dto r =
    elim (validate_reset_session env.now dto.reset_token r.resets) [
      | none ↦ (err unauthorized, r)
      | some id ↦ elim (get id r.sessions.users) [
        | none ↦ (err unauthorized, r)
        | some u ↦
            let users = with_local_password users_env env u r.sessions.users in
            let s = record r.sessions { users = users } in
            elim (update_security_params id dto.new_encrypted_master_key dto.new_kek_salt
              dto.new_kdf_params r.security) [
                | err e ↦ (err e, record r { sessions = s })
                | ok security ↦ (
                  ok tt,
                  record r {
                    sessions = logout_all id s;
                    security = security;
                    resets = consume_reset_session dto.reset_token r.resets;
                  },
                )
              ]
      ]
    ]
