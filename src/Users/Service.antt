-- ===== src/Users/Service.antt =====
-- The methods of `UsersService` (src/modules/users/users.service.ts).
use Prim.Native.String.{◌++◌ as str_append}
use text.Mathlib.Text.{◌==◌ as str_eq}
use aamenn_backend.Base.{
  Bool, List, Option, Result, String, [], err, false, if◌then◌else◌, internal, ltb, none, not, ok,
  or_null, or_old, or_throw, select, some, true, update_where, ℕ, ◌&&◌, ◌++◌, ◌+◌, ◌==◌, ◌>>=◌, ◌∷◌,
}
use aamenn_backend.Storage.{path_list}
use aamenn_backend.Table.{delete_keys, get, save}
use aamenn_backend.Entities.Accounts.{
  KdfParams, User, UserRole, UserSecurity, user_entity, user_security_entity,
}
use aamenn_backend.Entities.Library.{File, Folder, file_entity, folder_entity}
use aamenn_backend.Entities.Scalars.{Time, Uuid}
use aamenn_backend.Entities.Uploads.{UploadSession, session_entity}
use aamenn_backend.Uploads.Store.{is_open}

pub record Accounts : Type 0 where
  pub users : List User
  pub security : List UserSecurity
  pub files : List File
  pub folders : List Folder
  pub sessions : List UploadSession
  -- the paths whose deletion was asked of the object store, and the ids of the large files whose
  -- upload was cancelled there
  pub b2_deletions : List String
  pub b2_cancelled : List String

abbrev pub find_by : (User → Bool) → List User → Option User
find_by test [] = none
find_by test (u ∷ t) = if test u then some u else find_by test t

abbrev pub has_email : String → User → Bool
has_email email u = str_eq u.email email

abbrev pub has_provider_id : String → User → Bool
has_provider_id provider_id u = str_eq u.auth_provider_id provider_id

-- `FindUserOptions`: the first option that is given counts. An empty text counts as absent.
pub data FindUser : Type 0 where
  by_id : Uuid → FindUser
  by_email by_auth_provider_id : String → FindUser

unfoldable pub find_user : FindUser → List User → Option User
find_user (by_id id) t = get id t
find_user (by_email email) t = if str_eq email "" then none else find_by (has_email email) t
find_user (by_auth_provider_id p) t = if str_eq p "" then none else find_by (has_provider_id p) t

-- The clock, the id of a new user, and the column defaults of the entity.
pub record Env : Type 0 where
  pub now : Time
  pub fresh_user : Uuid
  pub trash_retention_days : ℕ
  pub storage_limit_gb : ℕ

-- The arguments of `findOrCreate`.
pub record Login : Type 0 where
  pub auth_provider_id : String
  pub email : String
  pub password_hash : Option String
  pub auth_provider : Option String
  pub display_name : Option String

abbrev pub new_user : Env → Login → User
new_user env l = record {
  id = env.fresh_user;
  email = if str_eq l.email "" then str_append l.auth_provider_id "@unknown.auth" else l.email;
  display_name = l.display_name;
  auth_provider_id = l.auth_provider_id;
  password_hash = l.password_hash;
  auth_provider = l.auth_provider;
  role = UserRole.user;
  is_active = true;
  last_login_at = none;
  avatar_file_id = none;
  trash_retention_days = env.trash_retention_days;
  storage_limit_gb = env.storage_limit_gb;
  google_access_token = none;
  google_refresh_token = none;
  google_token_expires_at = none;
  signup_ip = none;
  signup_fingerprint = none;
  signup_flagged = false;
  signup_ip_type = none;
  created_at = env.now;
  updated_at = env.now;
}

-- First by the id at the provider, then by the address.
abbrev pub known_user : Login → List User → Option User
known_user l t = elim (find_user (by_auth_provider_id l.auth_provider_id) t) [
  | none ↦ find_user (by_email l.email) t
  | some u ↦ some u
]

abbrev pub with_email : Env → Login → User → User
with_email env l u = record u { email = l.email; updated_at = env.now }

abbrev pub has_other_email : Login → User → Bool
has_other_email l u = not (str_eq l.email "") && not (str_eq u.email l.email)

unfoldable pub find_or_create : Env → Login → List User → User × List User
unfolding find_user
find_or_create env l t = elim (known_user l t) [
  | none ↦ (new_user env l, save (new_user env l) t)
  | some u ↦
      if has_other_email l u then (with_email env l u, save (with_email env l u) t) else (u, t)
]

unfoldable pub setup_user_security :
    Uuid → UserSecurity → List UserSecurity → Result (List UserSecurity)
setup_user_security u dto t = elim (get u t) [
  | some s ↦ err internal
  | none ↦ ok (
      save
        (record dto {
          user_id = u;
          recovery_encrypted_master_key = or_null dto.recovery_encrypted_master_key;
          recovery_salt = or_null dto.recovery_salt;
          encrypted_recovery_key = or_null dto.encrypted_recovery_key;
        })
        t)
]

unfoldable pub update_security_params :
    Uuid → String → String → Option KdfParams → List UserSecurity → Result (List UserSecurity)
update_security_params u encrypted_master_key kek_salt kdf_params t = do
  s ← or_throw (get u t) internal
  ok (
      save
        (record s {
          encrypted_master_key = encrypted_master_key;
          kek_salt = kek_salt;
          kdf_params = or_old kdf_params s.kdf_params;
        })
        t)

-- `UpdateProfileDto`: an absent field is `none`, and the avatar may be null.
pub record UpdateProfile : Type 0 where
  pub display_name : Option (Option String)
  pub avatar_file_id : Option (Option Uuid)
  pub trash_retention_days : Option ℕ

unfoldable pub update_profile : Env → Uuid → UpdateProfile → List User → Result (User × List User)
update_profile env id dto t = do
  u ← or_throw (get id t) internal
  let u' = record u {
    display_name = or_old dto.display_name u.display_name;
    avatar_file_id = or_old dto.avatar_file_id u.avatar_file_id;
    trash_retention_days = or_old dto.trash_retention_days u.trash_retention_days;
    updated_at = env.now;
  }
  ok (u', save u' t)

abbrev pub is_user : Uuid → User → Bool
is_user id u = u.id == id

abbrev pub log_in : Time → User → User
log_in now u = record u { last_login_at = some now; updated_at = now }

unfoldable pub update_last_login : Time → Uuid → List User → List User
update_last_login now id = update_where (is_user id) (log_in now)

abbrev pub with_password_hash : Env → String → User → User
with_password_hash env hash u = record u { password_hash = some hash; updated_at = env.now }

unfoldable pub update_password_hash : Env → Uuid → String → List User → List User
update_password_hash env id hash = update_where (is_user id) (with_password_hash env hash)

-- One hour in milliseconds.
abbrev pub google_token_time : ℕ
google_token_time = 3600000

abbrev pub with_google_token : Env → String → User → User
with_google_token env token u = record u {
  google_access_token = some token;
  google_token_expires_at = some (env.now + google_token_time);
  updated_at = env.now;
}

unfoldable pub update_google_access_token : Env → Uuid → String → List User → List User
update_google_access_token env id token = update_where (is_user id) (with_google_token env token)

abbrev pub is_live_token : Env → Option Time → Bool
is_live_token env none = false
is_live_token env (some t) = not (ltb t env.now)

unfoldable pub get_google_access_token : Env → Uuid → List User → Option String
get_google_access_token env id t = elim (get id t) [
  | none ↦ none
  | some u ↦
      if is_live_token env u.google_token_expires_at then or_null u.google_access_token else none
]

-- The paths that the deletion of an account collects: the file and two of the three thumbnails.
abbrev pub account_paths : List File → List String
account_paths [] = []
account_paths (f ∷ fs) =
    path_list (or_null (some f.b2_file_path))
    ++ (path_list (or_null f.b2_thumb_small_path)
        ++ (path_list (or_null f.b2_thumb_medium_path) ++ account_paths fs))

abbrev pub large_file_ids : List UploadSession → List String
large_file_ids [] = []
large_file_ids (s ∷ ss) = s.b2_file_id ∷ large_file_ids ss

abbrev pub is_open_session_of : Uuid → UploadSession → Bool
is_open_session_of u s = s.user_id == u && is_open s.status

-- A failure of the object store is caught, so that what counts is what it is asked. Rows of other
-- tables that the database deletes along with a user are left out.
unfoldable pub delete_account : Uuid → Accounts → Accounts
delete_account u a = record {
  users = delete_keys (u ∷ []) a.users;
  security = delete_keys (u ∷ []) a.security;
  files = select (λ f. not (f.user_id == u)) a.files;
  folders = select (λ f. not (f.user_id == u)) a.folders;
  sessions = select (λ s. not (s.user_id == u)) a.sessions;
  b2_deletions = a.b2_deletions ++ account_paths (select (λ f. f.user_id == u) a.files);
  b2_cancelled = a.b2_cancelled ++ large_file_ids (select (is_open_session_of u) a.sessions);
}
