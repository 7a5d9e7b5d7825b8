-- ===== src/Entities/Accounts.antt =====
-- The rows of `users`, `user_security` and `refresh_tokens` (src/database/entities).
use aamenn_backend.Base.{ℕ, Bool, Option, String}
use aamenn_backend.Table.{Entity}
use aamenn_backend.Entities.Scalars.{Uuid, Time}

pub data UserRole : Type 0 where
  user admin : UserRole

pub record User : Type 0 where
  pub id : Uuid
  pub email : String
  pub display_name : Option String
  pub auth_provider_id : String
  pub password_hash : Option String
  pub auth_provider : Option String
  pub role : UserRole
  pub is_active : Bool
  pub last_login_at : Option Time
  pub avatar_file_id : Option Uuid
  pub trash_retention_days : ℕ
  pub storage_limit_gb : ℕ
  pub google_access_token : Option String
  pub google_refresh_token : Option String
  pub google_token_expires_at : Option Time
  pub signup_ip : Option String
  pub signup_fingerprint : Option String
  pub signup_flagged : Bool
  pub signup_ip_type : Option String
  pub created_at : Time
  pub updated_at : Time

instance abbrev pub user_entity : Entity User
user_entity = record { key = λ u. u.id }

pub record KdfParams : Type 0 where
  pub algorithm : String
  pub iterations : Option ℕ
  pub memory : Option ℕ
  pub parallelism : Option ℕ
  pub hash_length : Option ℕ

-- The key is the id of the user.
pub record UserSecurity : Type 0 where
  pub user_id : Uuid
  pub encrypted_master_key : String
  pub kek_salt : String
  pub kdf_params : KdfParams
  pub recovery_encrypted_master_key : Option String
  pub recovery_salt : Option String
  pub recovery_kdf_params : Option KdfParams
  pub encrypted_recovery_key : Option String

instance abbrev pub user_security_entity : Entity UserSecurity
user_security_entity = record { key = λ s. s.user_id }

pub record RefreshToken : Type 0 where
  pub id : Uuid
  pub user_id : Uuid
  pub token_hash : String
  pub is_revoked : Bool
  pub expires_at : Time
  pub user_agent : Option String
  pub ip_address : Option String
  pub created_at : Time
  pub last_used_at : Option Time

instance abbrev pub refresh_token_entity : Entity RefreshToken
refresh_token_entity = record { key = λ t. t.id }
