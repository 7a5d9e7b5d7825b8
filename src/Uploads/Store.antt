-- ===== src/Uploads/Store.antt =====
-- The repositories that `UploadsService` uses (src/modules/uploads/uploads.service.ts), the tests
-- in its queries, and its private helper.
use aamenn_backend.Base.{
  Bool, List, Option, Result, String, [], false, if◌then◌else◌, none, not_found, or_throw, or_zero,
  some, true, ℕ, ◌&&◌, ◌*◌, ◌+◌, ◌==◌, ◌∷◌,
}
use aamenn_backend.Cache.{Cache}
use aamenn_backend.Table.{find_one, get}
use aamenn_backend.Entities.Accounts.{User, user_entity}
use aamenn_backend.Entities.Library.{File, file_entity}
use aamenn_backend.Entities.Scalars.{Time, Uuid}
use aamenn_backend.Entities.Uploads.{UploadSession, UploadSessionStatus, session_entity}

pub record Uploads : Type 0 where
  pub sessions : List UploadSession
  pub files : List File
  pub users : List User
  pub cache : Cache

-- The clock, the ids of a new session and a new file, and the path that `generateFilePath` makes.
pub record Env : Type 0 where
  pub now : Time
  pub fresh_session : Uuid
  pub fresh_file : Uuid
  pub b2_file_path : String

abbrev pub is_open : UploadSessionStatus → Bool
is_open UploadSessionStatus.active = true
is_open UploadSessionStatus.completed = false
is_open UploadSessionStatus.cancelled = false
is_open UploadSessionStatus.expired = false

abbrev pub is_own_open : Uuid → UploadSession → Bool
is_own_open u s = s.user_id == u && is_open s.status

abbrev pub get_active_session : Uuid → Uuid → Uploads → Result UploadSession
get_active_session u id b = or_throw (find_one id (is_own_open u) b.sessions) not_found

-- `COALESCE(SUM(file.sizeBytes), 0)` over the files of the user, with the trash.
abbrev pub used_bytes : Uuid → List File → ℕ
used_bytes u [] = 0
used_bytes u (f ∷ fs) = (if f.user_id == u then or_zero f.size_bytes else 0) + used_bytes u fs

abbrev pub bytes_per_gb : ℕ
bytes_per_gb = 1024 * 1024 * 1024

abbrev pub default_limit_gb : ℕ
default_limit_gb = 4

abbrev pub limit_gb_of : Option User → ℕ
limit_gb_of none = default_limit_gb
limit_gb_of (some u) = u.storage_limit_gb

unfoldable pub limit_bytes : Uuid → List User → ℕ
limit_bytes u users = limit_gb_of (get u users) * bytes_per_gb
