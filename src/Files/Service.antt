-- ===== src/Files/Service.antt =====
-- The handlers of `FilesService` that make and change files. Answers of the object store are
-- arguments: a failed upload stops a handler before its write.
use text.Mathlib.Text.{◌==◌ as str_eq}
use aamenn_backend.Base.{
  Bool, Option, Result, String, false, if◌then◌else◌, is_same_id, none, not, ok, or_null, or_old,
  some, true, ℕ, ◌&&◌, ◌>>=◌, ◌>>◌,
}
use aamenn_backend.Table.{save}
use aamenn_backend.Entities.Library.{File, file_entity}
use aamenn_backend.Entities.Scalars.{Uuid}
use aamenn_backend.Files.Store.{Drive, Env, touch_files, verify_file_ownership}

-- `InitiateUploadDto`
pub record InitiateUpload : Type 0 where
  pub file_name_encrypted : String
  pub cipher_file_key : String
  pub mime_type : Option String
  pub size_bytes : Option ℕ
  pub content_hash : Option String
  pub folder_id : Option Uuid

-- What `uploadFileProxy` stores: a file without folder and thumbnails.
abbrev pub plain_file : Env → Uuid → InitiateUpload → File
plain_file env u dto = record {
  id = env.fresh_file;
  user_id = u;
  b2_file_path = env.b2_file_path;
  b2_thumb_small_path = none;
  b2_thumb_medium_path = none;
  b2_thumb_large_path = none;
  cipher_file_key = dto.cipher_file_key;
  file_name_encrypted = dto.file_name_encrypted;
  mime_type = dto.mime_type;
  size_bytes = dto.size_bytes;
  width = none;
  height = none;
  duration = none;
  folder_id = none;
  is_favorite = false;
  is_avatar = false;
  content_hash = or_null dto.content_hash;
  created_at = env.now;
  updated_at = env.now;
  deleted_at = none;
}

abbrev pub add_file : File → Drive → Drive
add_file f d = record d { files = save f d.files }

unfoldable pub upload_avatar :
    Env → Uuid → InitiateUpload → Result (Unit {0}) → Drive → Result (File × Drive)
upload_avatar env u dto uploaded d = do
  uploaded
  let f = record (plain_file env u dto) { is_avatar = true; content_hash = none }
  ok (f, add_file f d)

unfoldable pub upload_file_proxy :
    Env → Uuid → InitiateUpload → Result (Unit {0}) → Drive → Result (File × Drive)
upload_file_proxy env u dto uploaded d = do
  uploaded
  let f = plain_file env u dto
  ok (f, add_file f d)

-- `ThumbnailData` without the images.
pub record ThumbnailData : Type 0 where
  pub width : Option ℕ
  pub height : Option ℕ
  pub duration : Option ℕ

abbrev pub with_thumbnails : Env → Option ThumbnailData → File → File
with_thumbnails env none f = f
with_thumbnails env (some t) f = record f {
  b2_thumb_small_path = some env.thumb_small_path;
  b2_thumb_medium_path = some env.thumb_medium_path;
  b2_thumb_large_path = some env.thumb_large_path;
  width = t.width;
  height = t.height;
  duration = t.duration;
}

-- All uploads run together; `uploaded` is the outcome of all. Signed URLs come after the writes.
unfoldable pub upload_file_with_thumbnails :
    Env
    → Uuid
    → InitiateUpload
    → Option ThumbnailData
    → Result (Unit {0})
    → Drive
    → Result (File × Drive)
upload_file_with_thumbnails env u dto thumbs uploaded d = do
  uploaded
  let f = with_thumbnails env thumbs (record (plain_file env u dto) { folder_id = dto.folder_id })
  ok (f, touch_files u (add_file f d))

-- The body of a request to update a file: an absent field is `none`, and a folder may be null.
pub record FileUpdates : Type 0 where
  pub is_favorite : Option Bool
  pub file_name_encrypted : Option String
  pub folder_id : Option (Option Uuid)

-- `save` of TypeORM writes a row, and its `updated_at`, only where a column has another content.
abbrev pub is_same_flag : Bool → Bool → Bool
is_same_flag true b = b
is_same_flag false b = not b

abbrev pub is_same_file : FileUpdates → File → Bool
is_same_file up f =
    is_same_flag (or_old up.is_favorite f.is_favorite) f.is_favorite
    && str_eq (or_old up.file_name_encrypted f.file_name_encrypted) f.file_name_encrypted
    && is_same_id (or_old up.folder_id f.folder_id) f.folder_id

abbrev pub apply_updates : Env → FileUpdates → File → File
apply_updates env up f = record f {
  is_favorite = or_old up.is_favorite f.is_favorite;
  file_name_encrypted = or_old up.file_name_encrypted f.file_name_encrypted;
  folder_id = or_old up.folder_id f.folder_id;
  updated_at = if is_same_file up f then f.updated_at else env.now;
}

unfoldable pub update_file : Env → Uuid → Uuid → FileUpdates → Drive → Result (File × Drive)
unfolding verify_file_ownership
update_file env id u up d = do
  f ← verify_file_ownership id u d.files
  let f' = apply_updates env up f
  ok (f', touch_files u (add_file f' d))
