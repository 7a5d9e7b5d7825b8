-- ===== src/Auth/Registration.antt =====
-- Signup: `sendSignupOtp` and `register` of `AuthService` (src/modules/auth/auth.service.ts), and
-- what `register` starts and does not wait for: the result of the look-up of the address, and the
-- check for abuse (module Abuse). Mails are left out, and the count of signups of an address.
use aamenn_backend.Base.{
  Bool, List, Option, Result, String, bad_request, conflict, err, false, if◌then◌else◌, none, not,
  ok, or_null, some, true, ℕ, ◌>>◌, ◌||◌,
}
use aamenn_backend.Table.{save}
use aamenn_backend.Auth.Addresses.{IpType, datacenter, residential, unknown, vpn}
use aamenn_backend.Auth.Reset.{Recovery, ResetEnv}
use aamenn_backend.Auth.Service.{Env, TokenResponse, Tokens, generate_tokens, local_id}
use aamenn_backend.Auth.Validators.{
  validate_base64_format, validate_encrypted_data_format, validate_kdf_params,
}
use aamenn_backend.Entities.Accounts.{
  KdfParams, User, UserSecurity, user_entity, user_security_entity,
}
use aamenn_backend.Entities.Scalars.{Time, Uuid}
use aamenn_backend.Entities.Uploads.{session_entity}
use aamenn_backend.Otp.Service.{generate_otp, verify_otp}
use aamenn_backend.Users.Service.{Login, by_email, find_or_create, find_user, setup_user_security}
use aamenn_backend.Users.Service.{Env as UserEnv}

-- `slot` has the keys of the one-time password for a signup with the address of the request.
unfoldable pub send_signup_otp : ResetEnv → String → Recovery → Recovery
send_signup_otp env email r = elim (find_user (by_email email) r.sessions.users) [
  | none ↦ record r { slot = (generate_otp env.now env.otp_ttl env.otp r.slot).1 }
  | some u ↦ r
]

-- `RegisterDto`, without the password, of which the hash is an argument.
pub record Register : Type 0 where
  pub email : String
  pub email_otp : String
  pub encrypted_master_key : String
  pub kek_salt : String
  pub kdf_params : KdfParams
  pub display_name : Option String
  pub recovery_encrypted_master_key : Option String
  pub recovery_salt : Option String
  pub recovery_kdf_params : Option KdfParams
  pub encrypted_recovery_key : Option String
  pub device_fingerprint : Option String

unfoldable pub validate_register : (String → ℕ) → Register → Result (Unit {0})
validate_register decoded_length dto = do
  validate_base64_format dto.encrypted_master_key
  validate_encrypted_data_format decoded_length dto.encrypted_master_key 28
  validate_base64_format dto.kek_salt
  validate_kdf_params dto.kdf_params

abbrev pub local_account : Register → String → Login
local_account dto hash = record {
  auth_provider_id = local_id dto.email;
  email = dto.email;
  password_hash = some hash;
  auth_provider = some "local";
  display_name = dto.display_name;
}

abbrev pub security_of : Uuid → Register → UserSecurity
security_of u dto = record {
  user_id = u;
  encrypted_master_key = dto.encrypted_master_key;
  kek_salt = dto.kek_salt;
  kdf_params = dto.kdf_params;
  recovery_encrypted_master_key = dto.recovery_encrypted_master_key;
  recovery_salt = dto.recovery_salt;
  recovery_kdf_params = dto.recovery_kdf_params;
  encrypted_recovery_key = dto.encrypted_recovery_key;
}

abbrev pub signed_up : Time → Register → String → User → User
signed_up now dto ip u = record u {
  signup_ip = some ip;
  signup_fingerprint = or_null dto.device_fingerprint;
  updated_at = now;
}

-- From the account on: the security record, the metadata of the signup, and the tokens.
unfoldable pub finish_register :
    Tokens → Env → Register → String → User → Recovery → Result (TokenResponse × User) × Recovery
unfolding setup_user_security generate_tokens
finish_register c env dto ip u r =
    elim (setup_user_security u.id (security_of u.id dto) r.security) [
      | err e ↦ (err e, r)
      | ok security ↦
          let u' = signed_up env.now dto ip u in
          let (response, s) =
            generate_tokens c env u.id (record r.sessions { users = save u' r.sessions.users }) in
          (ok (response, u'), record r { sessions = s; security = security })
    ]

-- Returns the row, too, which the look-up of the address keeps.
unfoldable pub register :
    Tokens
    → (String → ℕ)
    → Env
    → UserEnv
    → String
    → Register
    → String
    → Recovery
    → Result (TokenResponse × User) × Recovery
unfolding finish_register validate_register find_or_create
register c decoded_length env users_env hash dto ip r =
    let (is_valid, slot) = verify_otp env.now dto.email_otp r.slot in
    let r1 = record r { slot = slot } in
    if not is_valid
    then (err bad_request, r1)
    else (elim (find_user (by_email dto.email) r.sessions.users) [
      | some u ↦ (err conflict, r1)
      | none ↦ elim (validate_register decoded_length dto) [
        | err e ↦ (err e, r1)
        | ok _ ↦
            let (u, users) = find_or_create users_env (local_account dto hash) r.sessions.users in
            finish_register c env dto ip u
              (record r1 { sessions = record r.sessions { users = users } })
      ]
    ])

abbrev pub ip_type_text : IpType → String
ip_type_text residential = "residential"
ip_type_text datacenter = "datacenter"
ip_type_text vpn = "vpn"
ip_type_text unknown = "unknown"

abbrev pub is_flagged_type : IpType → Bool
is_flagged_type residential = false
is_flagged_type datacenter = true
is_flagged_type vpn = true
is_flagged_type unknown = false

abbrev pub with_ip_type : Time → IpType → User → User
with_ip_type now type u = record u {
  signup_ip_type = some (ip_type_text type);
  signup_flagged = u.signup_flagged || is_flagged_type type;
  updated_at = now;
}

-- The result of the look-up is saved with the row as it was when the account was made.
unfoldable pub store_ip_type : Time → IpType → User → List User → List User
store_ip_type now type u t = save (with_ip_type now type u) t
