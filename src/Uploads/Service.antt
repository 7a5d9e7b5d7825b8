-- ===== src/Uploads/Service.antt =====
-- The handlers of `UploadsService` that change the store. Answers of the object store are
-- arguments: `err` is a call that failed. A failure stops a handler before its next write.
use text.Mathlib.Text.{◌==◌ as str_eq}
use aamenn_backend.Base.{
  Bool, List, Option, Result, String, [], any, bad_request, false, if◌then◌else◌, ltb, none, not,
  not_found, ok, or_null, or_throw, payload_too_large, select, some, throw_if, true, ℕ, ◌&&◌, ◌++◌,
  ◌+◌, ◌-◌, ◌==◌, ◌>>=◌, ◌>>◌, ◌||◌, ◌∷◌,
}
use aamenn_backend.Cache.{files, increment_version}
use aamenn_backend.Table.{find_one, save}
use aamenn_backend.Entities.Accounts.{user_entity}
use aamenn_backend.Entities.Library.{File, file_entity}
use aamenn_backend.Entities.Scalars.{Uuid}
use aamenn_backend.Entities.Uploads.{
  CompletedPart, PartNumber, UploadSession, UploadSessionStatus, object, scalar, session_entity,
  whole,
}
use aamenn_backend.Uploads.Store.{
  Env, Uploads, get_active_session, is_open, is_own_open, limit_bytes, used_bytes,
}

-- `StartUploadDto`
pub record StartUpload : Type 0 where
  pub file_name_encrypted : String
  pub cipher_file_key : String
  pub mime_type : Option String
  pub total_bytes : ℕ
  pub total_parts : ℕ
  pub chunk_size_bytes : ℕ
  pub content_hash : Option String
  pub folder_id : Option Uuid
  pub width : Option ℕ
  pub height : Option ℕ
  pub duration : Option ℕ

abbrev pub new_session : Env → Uuid → StartUpload → String → UploadSession
new_session env u dto b2_file_id = record {
  id = env.fresh_session;
  user_id = u;
  b2_file_id = b2_file_id;
  b2_file_path = env.b2_file_path;
  file_name_encrypted = dto.file_name_encrypted;
  cipher_file_key = dto.cipher_file_key;
  mime_type = or_null dto.mime_type;
  total_bytes = dto.total_bytes;
  total_parts = dto.total_parts;
  chunk_size_bytes = dto.chunk_size_bytes;
  completed_parts = [];
  status = UploadSessionStatus.active;
  content_hash = or_null dto.content_hash;
  folder_id = dto.folder_id;
  width = dto.width;
  height = dto.height;
  duration = dto.duration;
  created_at = env.now;
  updated_at = env.now;
}

-- `started` is what `startLargeFile` returns.
unfoldable pub start_upload :
    Env → Uuid → StartUpload → Result String → Uploads → Result (UploadSession × Uploads)
unfolding limit_bytes
start_upload env u dto started b = do
  throw_if (ltb (limit_bytes u b.users) (used_bytes u b.files + dto.total_bytes)) payload_too_large
  b2_file_id ← started
  let s = new_session env u dto b2_file_id
  ok (s, record b { sessions = save s b.sessions })

abbrev pub max_part : ℕ
max_part = 10000

-- `partNumber < 1 || partNumber > 10000`
abbrev pub is_out_of_range : PartNumber → Bool
is_out_of_range (whole n) = ltb n 1 || ltb max_part n
is_out_of_range (scalar out json) = out
is_out_of_range (object out json) = out

-- `===`: two arrays or objects that were read apart are never the same.
abbrev pub is_same_number : PartNumber → PartNumber → Bool
is_same_number (whole m) (whole n) = m == n
is_same_number (whole m) (scalar out json) = false
is_same_number (whole m) (object out json) = false
is_same_number (scalar out json) (whole n) = false
is_same_number (scalar out json) (scalar out' json') = str_eq json json'
is_same_number (scalar out json) (object out' json') = false
is_same_number (object out json) n = false

abbrev pub is_part : PartNumber → CompletedPart → Bool
is_part n p = is_same_number p.part_number n

abbrev pub add_part : Env → PartNumber → String → UploadSession → UploadSession
add_part env n sha1 s = record s {
  completed_parts = s.completed_parts ++ record { part_number = n; sha1 = sha1 } ∷ [];
  updated_at = env.now;
}

-- Returns `duplicate`.
unfoldable pub record_part :
    Env → Uuid → Uuid → PartNumber → String → Uploads → Result (Bool × Uploads)
record_part env u id n sha1 b = do
  throw_if (is_out_of_range n) bad_request
  s ← get_active_session u id b
  ok (
      if any (is_part n) s.completed_parts
      then (true, b)
      else (false, record b { sessions = save (add_part env n sha1 s) b.sessions }))

abbrev pub with_status : Env → UploadSessionStatus → UploadSession → UploadSession
with_status env status s = record s { status = status; updated_at = env.now }

-- The paths of the thumbnails, where all three came with the request.
pub record Thumbs : Type 0 where
  pub small : String
  pub medium : String
  pub large : String

abbrev pub thumb {ℓ} : {A : Type ℓ} → (Thumbs → A) → Option Thumbs → Option A
thumb f none = none
thumb f (some t) = some (f t)

abbrev pub file_of : Env → Uuid → Option Thumbs → UploadSession → File
file_of env u thumbs s = record {
  id = env.fresh_file;
  user_id = u;
  b2_file_path = s.b2_file_path;
  b2_thumb_small_path = thumb (λ t. t.small) thumbs;
  b2_thumb_medium_path = thumb (λ t. t.medium) thumbs;
  b2_thumb_large_path = thumb (λ t. t.large) thumbs;
  cipher_file_key = s.cipher_file_key;
  file_name_encrypted = s.file_name_encrypted;
  mime_type = s.mime_type;
  size_bytes = some s.total_bytes;
  width = s.width;
  height = s.height;
  duration = s.duration;
  folder_id = s.folder_id;
  is_favorite = false;
  is_avatar = false;
  content_hash = s.content_hash;
  created_at = env.now;
  updated_at = env.now;
  deleted_at = none;
}

-- `parts` is the length of `partSha1Array`; `finished` is the outcome of `finishLargeFile`, and
-- `thumbs` that of the uploads of the thumbnails. The signed URLs come after the last write.
unfoldable pub complete_upload :
    Env
    → Uuid
    → Uuid
    → ℕ
    → Result (Unit {0})
    → Result (Option Thumbs)
    → Uploads
    → Result (File × Uploads)
complete_upload env u id parts finished thumbs b = do
  s ← get_active_session u id b
  throw_if (not (parts == s.total_parts)) bad_request
  finished
  t ← thumbs
  let f = file_of env u t s
  ok (
    f,
    record b {
      files = save f b.files;
      sessions = save (with_status env UploadSessionStatus.completed s) b.sessions;
      cache = increment_version u files b.cache;
    },
  )

abbrev pub is_own_session : Uuid → UploadSession → Bool
is_own_session u s = s.user_id == u

-- A failure of `cancelLargeFile` is caught.
unfoldable pub cancel_upload : Env → Uuid → Uuid → Uploads → Result Uploads
cancel_upload env u id b = do
  s ← or_throw (find_one id (is_own_session u) b.sessions) not_found
  ok (
      if is_open s.status
      then record b { sessions = save (with_status env UploadSessionStatus.cancelled s) b.sessions }
      else b)

-- What `listParts` answers: the parts, that the large file is gone, or another failure.
pub data PartList : Type 0 where
  listed : List CompletedPart → PartList
  gone : PartList
  failed : PartList

abbrev pub save_session : UploadSession → Uploads → Uploads
save_session s b = record b { sessions = save s b.sessions }

-- `save` of TypeORM writes a row only where a column has another content.
abbrev pub has_same_content : PartNumber → PartNumber → Bool
has_same_content (object out json) (whole n) = false
has_same_content (object out json) (scalar out' json') = false
has_same_content (object out json) (object out' json') = str_eq json json'
has_same_content (whole m) n = is_same_number (whole m) n
has_same_content (scalar out json) n = is_same_number (scalar out json) n

abbrev pub has_same_parts : List CompletedPart → List CompletedPart → Bool
has_same_parts [] [] = true
has_same_parts [] (q ∷ qs) = false
has_same_parts (p ∷ ps) [] = false
has_same_parts (p ∷ ps) (q ∷ qs) =
    has_same_content p.part_number q.part_number && str_eq p.sha1 q.sha1 && has_same_parts ps qs

abbrev pub with_parts : Env → List CompletedPart → UploadSession → UploadSession
with_parts env parts s = record s {
  completed_parts = parts;
  updated_at = if has_same_parts s.completed_parts parts then s.updated_at else env.now;
}

-- An active session is brought in line with the object store.
unfoldable pub reconcile : Env → PartList → UploadSession → Uploads → UploadSession × Uploads
reconcile env (listed parts) s b = (with_parts env parts s, save_session (with_parts env parts s) b)
reconcile env gone s b =
    let s' = with_status env UploadSessionStatus.expired s in (s', save_session s' b)
reconcile env failed s b = (s, b)

unfoldable pub get_session_status :
    Env → Uuid → Uuid → PartList → Uploads → Result (UploadSession × Uploads)
unfolding reconcile
get_session_status env u id answer b = do
  s ← or_throw (find_one id (is_own_session u) b.sessions) not_found
  ok (if is_open s.status then reconcile env answer s b else (s, b))

abbrev pub is_stale : Env → ℕ → UploadSession → Bool
is_stale env max_age_ms s = is_open s.status && ltb s.updated_at (env.now - max_age_ms)

-- The loop of `expireStaleSessions`, over the rows that the query returned; it counts them.
unfoldable pub expire_loop :
    Env → List UploadSession → ℕ × List UploadSession → ℕ × List UploadSession
expire_loop env [] (n, t) = (n, t)
expire_loop env (s ∷ rest) (n, t) =
    expire_loop env rest (n + 1, save (with_status env UploadSessionStatus.expired s) t)

unfoldable pub expire_stale_sessions : Env → ℕ → Uploads → ℕ × Uploads
unfolding expire_loop
expire_stale_sessions env max_age_ms b =
    let (n, t) = expire_loop env (select (is_stale env max_age_ms) b.sessions) (0, b.sessions) in
    (n, record b { sessions = t })

unfoldable pub delete_all_for_user : Uuid → Uploads → Uploads
delete_all_for_user u b = record b { sessions = select (λ s. not (is_own_session u s)) b.sessions }

-- What one row of `listPendingSessions` is read from.
unfoldable pub list_pending_sessions : Uuid → Uploads → List UploadSession
list_pending_sessions u b = select (is_own_open u) b.sessions
