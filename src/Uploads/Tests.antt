-- ===== src/Uploads/Tests.antt =====
-- The theorems on uploads at a sample store.
use aamenn_backend.Base.{
  [], arith, err, false, none, ok, payload_too_large, refl, some, true, ◌+◌, ◌<◌, ◌∷◌, ◌≡◌, ◌≤◌,
  ◌⊎◌,
}
use aamenn_backend.Cache.{Cache}
use aamenn_backend.Table.{get}
use aamenn_backend.Entities.Accounts.{user_entity}
use aamenn_backend.Entities.Library.{file_entity}
use aamenn_backend.Entities.Scalars.{Uuid}
use aamenn_backend.Entities.Uploads.{UploadSession, UploadSessionStatus, session_entity, whole}
use aamenn_backend.Files.Reads.{StorageUsage, get_storage_usage}
use aamenn_backend.Uploads.Quota.{two_uploads, two_uploads_exceed_limit}
use aamenn_backend.Uploads.Reached.{AllParts, SameEnd, UploadReach-AllParts, UploadReach-final}
use aamenn_backend.Uploads.Service.{
  StartUpload, add_part, cancel_upload, new_session, record_part, save_session, start_upload,
}
use aamenn_backend.Uploads.Sessions.{cancel, here, next, record_one}
use aamenn_backend.Uploads.Store.{Env, Uploads, limit_bytes, used_bytes}
use aamenn_backend.Uploads.Usage.{start_upload-get_storage_usage}

abbrev cache : Cache
cache = record { is_healthy = true; failure_count = 0; answers = true; versions = λ u k. 0 }

abbrev store : Uploads
store = record { sessions = []; files = []; users = []; cache = cache }

abbrev env : Uuid → Env
env n = record { now = 1000; fresh_session = n; fresh_file = n; b2_file_path = "users/7/files/1" }

-- A file of three gigabytes, where the limit is four.
abbrev large : StartUpload
large = record {
  file_name_encrypted = "name";
  cipher_file_key = "key";
  mime_type = none;
  total_bytes = 3221225472;
  total_parts = 307;
  chunk_size_bytes = 10485760;
  content_hash = none;
  folder_id = none;
  width = none;
  height = none;
  duration = none;
}

abbrev shown : StorageUsage
shown = get_storage_usage 7 (record { files = []; users = []; cache = cache; b2_deletions = [] })

start_upload-get_storage_usage_example :
    ((shown.used_bytes + 3221225472 ≤ shown.limit_bytes)
      × ((s : UploadSession) × (b' : Uploads) × (start_upload (env 1) 7 large (ok "large_1") store
            ≡ ok (s, b'))))
    ⊎ ((shown.limit_bytes < shown.used_bytes + 3221225472)
        × (start_upload (env 1) 7 large (ok "large_1") store ≡ err payload_too_large))
start_upload-get_storage_usage_example =
    start_upload-get_storage_usage (env 1) 7 large "large_1" store
      (record { files = []; users = []; cache = cache; b2_deletions = [] }) refl refl

two_uploads_exceed_limit_example :
    (b' : Uploads) × (two_uploads (env 1) (env 2) (env 3) (env 4) 7 large store ≡ ok b')
    × (limit_bytes 7 b'.users < used_bytes 7 b'.files)
unfolding limit_bytes
two_uploads_exceed_limit_example =
    two_uploads_exceed_limit (env 1) (env 2) (env 3) (env 4) 7 large store (ground arith)
      (ground arith) refl refl (ground arith) (ground arith)

abbrev session : UploadSession
session = new_session (env 1) 7 large "large_1"

abbrev one_active : Uploads
one_active = record store { sessions = session ∷ [] }

abbrev ended : UploadSession
ended = record session { status = UploadSessionStatus.completed }

abbrev one_completed : Uploads
one_completed = record store { sessions = ended ∷ [] }

-- a request to cancel the completed session changes nothing
UploadReach-final_example :
    (s' : UploadSession) × (get 1 one_completed.sessions ≡ some s') × SameEnd ended s'
unfolding cancel_upload
UploadReach-final_example =
    UploadReach-final 1 ended (refl, tt)
      (next here (cancel (env 9) 7 1 one_completed one_completed refl)) refl refl

abbrev recorded : Uploads
recorded = save_session (add_part (env 9) (whole 3) "sha1" session) one_active

one_active-AllParts : AllParts one_active.sessions
one_active-AllParts id s at = let empty : s.completed_parts ≡ [] = ground arith in rw empty (tt, tt)

-- the first part that arrives is part 3
UploadReach-AllParts_example : AllParts recorded.sessions
unfolding record_part
UploadReach-AllParts_example =
    UploadReach-AllParts (refl, tt) one_active-AllParts
      (next here (record_one (env 9) 7 1 (whole 3) "sha1" one_active recorded false refl))
