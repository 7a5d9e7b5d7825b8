-- ===== src/Auth/Recovered.antt =====
-- Registrations and resets of a vault keep spent tokens spent.
use aamenn_backend.Base.{Bool-cases, Option-cases, Result-cases, String, inl, inr, ℕ}
use aamenn_backend.Table.{get, save}
use aamenn_backend.Auth.Outcomes.{generate_tokens-IsSpent}
use aamenn_backend.Auth.Registration.{
  Register, finish_register, local_account, register, security_of, signed_up, validate_register,
}
use aamenn_backend.Auth.Reset.{
  Recovery, ResetComplete, ResetEnv, validate_reset_session, vault_reset_complete,
}
use aamenn_backend.Auth.Rotation.{IsFresh, IsSpent, IsSpent-update_where}
use aamenn_backend.Auth.Service.{Env, Tokens, is_live_of, logout_all}
use aamenn_backend.Entities.Accounts.{User, user_entity}
use aamenn_backend.Entities.Scalars.{Uuid}
use aamenn_backend.Entities.Uploads.{session_entity}
use aamenn_backend.Otp.Service.{verify_otp}
use aamenn_backend.Users.Service.{
  by_email, find_or_create, find_user, setup_user_security, update_security_params,
}
use aamenn_backend.Users.Service.{Env as UserEnv}

pub vault_reset_complete-IsSpent :
    (users_env : UserEnv) (env : ResetEnv) (dto : ResetComplete) (r : Recovery) (hash : String)
    (w : Uuid)
    → IsSpent hash w r.sessions.tokens
    → IsSpent hash w (vault_reset_complete users_env env dto r).1.sessions.tokens
unfolding vault_reset_complete logout_all
vault_reset_complete-IsSpent users_env env dto r hash w spent =
    elim (Option-cases (validate_reset_session env.now dto.reset_token r.resets)) [
      | inl no_session ↦ rw (no_session, vault_reset_complete) spent
      | inr (id, session_ok) ↦ elim (Option-cases (get id r.sessions.users)) [
        | inl no_user ↦ rw (session_ok, no_user, vault_reset_complete) spent
        | inr (u, at) ↦
            elim (Result-cases (
              update_security_params id dto.new_encrypted_master_key dto.new_kek_salt
                dto.new_kdf_params r.security)) [
                  | inl (security, written) ↦
                      rw (session_ok, at, written, vault_reset_complete)
                        (IsSpent-update_where (is_live_of id) hash w r.sessions.tokens spent)
                  | inr (e, failing) ↦ rw (session_ok, at, failing, vault_reset_complete) spent
                ]
      ]
    ]

finish_register-IsSpent :
    (c : Tokens) (env : Env) (dto : Register) (ip : String) (u : User) (r : Recovery)
    (hash : String) (w : Uuid)
    → IsFresh c env r.sessions.tokens
    → IsSpent hash w r.sessions.tokens
    → IsSpent hash w (finish_register c env dto ip u r).1.sessions.tokens
unfolding finish_register
finish_register-IsSpent c env dto ip u r hash w new spent =
    elim (Result-cases (setup_user_security u.id (security_of u.id dto) r.security)) [
      | inl (security, written) ↦
          rw (written, finish_register)
            (generate_tokens-IsSpent c env u.id
              (record r.sessions { users = save (signed_up env.now dto ip u) r.sessions.users })
              hash w new spent)
      | inr (e, failing) ↦ rw (failing, finish_register) spent
    ]

pub register-IsSpent :
    (c : Tokens) (decoded_length : String → ℕ) (env : Env) (users_env : UserEnv)
    (password_hash : String) (dto : Register) (ip : String) (r : Recovery) (hash : String)
    (w : Uuid)
    → IsFresh c env r.sessions.tokens
    → IsSpent hash w r.sessions.tokens
    → IsSpent hash w
        (register c decoded_length env users_env password_hash dto ip r).1.sessions.tokens
unfolding register
register-IsSpent c decoded_length env users_env password_hash dto ip r hash w new spent =
    elim (Bool-cases (verify_otp env.now dto.email_otp r.slot).0) [
      | inr wrong ↦ rw (wrong, register) spent
      | inl right ↦ elim (Option-cases (find_user (by_email dto.email) r.sessions.users)) [
        | inr (u, known) ↦ rw (right, known, register) spent
        | inl unknown_user ↦ elim (Result-cases (validate_register decoded_length dto)) [
          | inr (e, failing) ↦ rw (right, unknown_user, failing, register) spent
          | inl (x, accepted) ↦
              let made =
                find_or_create users_env (local_account dto password_hash) r.sessions.users in
              rw (right, unknown_user, accepted, register)
                (finish_register-IsSpent c env dto ip made.0
                  (record r {
                    slot = (verify_otp env.now dto.email_otp r.slot).1;
                    sessions = record r.sessions { users = made.1 };
                  })
                  hash w new spent)
        ]
      ]
    ]
