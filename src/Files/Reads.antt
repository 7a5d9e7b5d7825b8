-- ===== src/Files/Reads.antt =====
-- The queries of `FilesService`. Signed URLs are left out; `signs` says for which files the object
-- store makes them all.
use text.Mathlib.Text.{◌==◌ as str_eq}
use aamenn_backend.Base.{
  Bool, List, Option, Result, String, [], ceil_div, drop, false, internal, is_id, is_none, leb,
  length, ltb, none, not, not_found, ok, or_null, or_throw, or_zero, select, some, sort_with, take,
  throw_if, true, ℕ, ◌&&◌, ◌*◌, ◌+◌, ◌-◌, ◌>>=◌, ◌>>◌, ◌∷◌,
}
use aamenn_backend.Storage.{file_ids}
use aamenn_backend.Table.{get}
use aamenn_backend.Entities.Accounts.{User, user_entity}
use aamenn_backend.Entities.Library.{File, file_entity}
use aamenn_backend.Entities.Scalars.{Uuid}
use aamenn_backend.Files.Store.{
  Drive, is_kept_file, is_own_file, is_own_listed, is_trashed_of, verify_file_ownership,
}

abbrev pub is_hash : String → Option String → Bool
is_hash hash none = false
is_hash hash (some h) = str_eq h hash

abbrev pub has_hash : Uuid → String → File → Bool
has_hash u hash f = is_own_file u f && is_hash hash f.content_hash && is_kept_file f

abbrev pub head_of {ℓ} : {A : Type ℓ} → List A → Option A
head_of [] = none
head_of (x ∷ xs) = some x

-- `checkDuplicate`: the existing file, which is any that fits; the model takes the first.
unfoldable pub check_duplicate : Uuid → String → List File → Option File
check_duplicate u hash t = head_of (select (has_hash u hash) t)

-- The variants of a file's content.
pub data Variant : Type 0 where
  original thumb_small thumb_medium thumb_large : Variant

abbrev pub path_of_variant : Variant → File → Option String
path_of_variant original f = or_null (some f.b2_file_path)
path_of_variant thumb_small f = or_null f.b2_thumb_small_path
path_of_variant thumb_medium f = or_null f.b2_thumb_medium_path
path_of_variant thumb_large f = or_null f.b2_thumb_large_path

-- `file.mimeType || 'application/octet-stream'`
abbrev pub mime_of : Option String → String
mime_of none = "application/octet-stream"
mime_of (some m) = m

pub record ContentSource : Type 0 where
  pub b2_path : String
  pub mime_type : String
  pub size_bytes : Option ℕ

unfoldable pub resolve_content_source : Uuid → Uuid → Variant → List File → Result ContentSource
unfolding verify_file_ownership
resolve_content_source id u v t = do
  f ← verify_file_ownership id u t
  path ← or_throw (path_of_variant v f) not_found
  ok (record {
    b2_path = path;
    mime_type = mime_of (or_null f.mime_type);
    size_bytes = f.size_bytes;
  })

-- `downloadContent`; `fetch` is `downloadBytes`, where a path that it fails on has no bytes.
unfoldable pub download_content :
    (String → Result String) → Uuid → Uuid → Variant → List File → Result (String × String)
unfolding resolve_content_source
download_content fetch id u v t = do
  source ← resolve_content_source id u v t
  bytes ← fetch source.b2_path
  ok (bytes, source.mime_type)

abbrev pub has_cipher_key : File → Bool
has_cipher_key f = not (str_eq f.cipher_file_key "")

-- `getFile`, without the record of the view.
unfoldable pub get_file : (File → Bool) → Uuid → Uuid → List File → Result File
unfolding verify_file_ownership
get_file signs id u t = do
  f ← verify_file_ownership id u t
  throw_if (not (has_cipher_key f)) not_found
  throw_if (not (signs f)) internal
  ok f

unfoldable pub get_files_by_ids : List Uuid → Uuid → List File → List File
get_files_by_ids [] u t = []
get_files_by_ids (id ∷ ids) u t = select (λ f. is_own_listed u (id ∷ ids) f && is_kept_file f) t

-- A file without one of its thumbnails makes the code read a field of null; the exception is
-- caught, and the file is left out.
abbrev pub has_thumbnails : File → Bool
has_thumbnails f =
    not (is_none (or_null f.b2_thumb_small_path))
    && not (is_none (or_null f.b2_thumb_medium_path))
    && not (is_none (or_null f.b2_thumb_large_path))

abbrev pub is_viewable : (File → Bool) → File → Bool
is_viewable signs f = has_cipher_key f && signs f && has_thumbnails f

-- `fileIds.map((id) => fileMap.get(id)).filter(Boolean)`
unfoldable pub in_order : List Uuid → List File → List File
in_order [] t = []
in_order (id ∷ ids) t = elim (get id t) [ none ↦ in_order ids t | some f ↦ f ∷ in_order ids t ]

unfoldable pub get_files_batch : (File → Bool) → List Uuid → Uuid → List File → List File
unfolding in_order
get_files_batch signs ids u t =
    in_order ids
      (select (is_viewable signs) (select (λ f. is_own_listed u ids f && is_kept_file f) t))

-- The filters of `listFiles`: any folder, the root, or one folder.
pub data FolderFilter : Type 0 where
  any_folder root_only : FolderFilter
  one_folder : Uuid → FolderFilter

abbrev pub is_in_filter : FolderFilter → File → Bool
is_in_filter any_folder f = true
is_in_filter root_only f = is_none f.folder_id
is_in_filter (one_folder id) f = is_id f.folder_id id

abbrev pub is_favorite_as : Option Bool → File → Bool
is_favorite_as none f = true
is_favorite_as (some true) f = f.is_favorite
is_favorite_as (some false) f = not f.is_favorite

abbrev pub is_listed : Uuid → Option Bool → FolderFilter → File → Bool
is_listed u favorite place f =
    is_own_file u f
    && is_kept_file f
    && not f.is_avatar
    && is_favorite_as favorite f
    && is_in_filter place f

-- `ORDER BY created_at DESC`, and `deleted_at DESC`
abbrev pub is_newer : File → File → Bool
is_newer f g = leb g.created_at f.created_at

abbrev pub is_trashed_after : File → File → Bool
is_trashed_after f g = leb (or_zero g.deleted_at) (or_zero f.deleted_at)

-- An answer from the cache has no `hasMore`.
pub record Page : Type 0 where
  pub files : List File
  pub page : ℕ
  pub limit : ℕ
  pub total : ℕ
  pub total_pages : ℕ
  pub has_more : Option Bool

-- Pages count from 1; requests keep both numbers at 1 or more.
abbrev pub page_of {ℓ} : {A : Type ℓ} → ℕ → ℕ → List A → List A
page_of page limit xs = take limit (drop ((page - 1) * limit) xs)

-- `order` is what the database does for `ORDER BY created_at DESC`, where rows with equal times may
-- come in any order.
abbrev pub listed_files :
    (List File → List File) → Uuid → Option Bool → FolderFilter → List File → List File
listed_files order u favorite place t = order (select (is_listed u favorite place) t)

abbrev pub cached_page : (List File → List File) → Uuid → ℕ → ℕ → List Uuid × ℕ → List File → Page
cached_page order u page limit (ids, total) t = record {
  files = order (select (λ f. is_own_listed u ids f && is_kept_file f && not f.is_avatar) t);
  page = page;
  limit = limit;
  total = total;
  total_pages = ceil_div total limit;
  has_more = none;
}

abbrev pub fresh_page :
    (List File → List File) → Uuid → ℕ → ℕ → Option Bool → FolderFilter → List File → Page
fresh_page order u page limit favorite place t =
    let total = length (select (is_listed u favorite place) t) in
    record {
      files = page_of page limit (listed_files order u favorite place t);
      page = page;
      limit = limit;
      total = total;
      total_pages = ceil_div total limit;
      has_more = some (ltb (page * limit) total);
    }

-- `snapshot` is what the cache has under the key of the request: the ids of a page and the total.
-- Where it has nothing, the new snapshot is returned too, and stored in the cache.
unfoldable pub list_files :
    (List File → List File)
    → Option (List Uuid × ℕ)
    → Uuid
    → ℕ
    → ℕ
    → Option Bool
    → FolderFilter
    → List File
    → Page × (List Uuid × ℕ)
list_files order (some s) u page limit favorite place t = (cached_page order u page limit s t, s)
list_files order none u page limit favorite place t =
    let p = fresh_page order u page limit favorite place t in (p, (file_ids p.files, p.total))

unfoldable pub list_trash : Uuid → ℕ → ℕ → List File → Page
list_trash u page limit t =
    let all_files = sort_with is_trashed_after (select (is_trashed_of u) t) in
    record {
      files = page_of page limit all_files;
      page = page;
      limit = limit;
      total = length all_files;
      total_pages = ceil_div (length all_files) limit;
      has_more = none;
    }

-- `getStorageUsage`, without the rounded numbers for the display.
pub record StorageUsage : Type 0 where
  pub used_bytes : ℕ
  pub limit_bytes : ℕ
  pub limit_gb : ℕ
  pub file_count : ℕ
  pub exceeded : Bool

abbrev pub sum_of_sizes : List File → ℕ
sum_of_sizes [] = 0
sum_of_sizes (f ∷ fs) = or_zero f.size_bytes + sum_of_sizes fs

abbrev pub limit_of : Option User → ℕ
limit_of none = 4
limit_of (some u) = u.storage_limit_gb

unfoldable pub get_storage_usage : Uuid → Drive → StorageUsage
get_storage_usage u d =
    let used = sum_of_sizes (select (is_own_file u) d.files) in
    let gb = limit_of (get u d.users) in
    let bytes = gb * 1024 * 1024 * 1024 in
    record {
      used_bytes = used;
      limit_bytes = bytes;
      limit_gb = gb;
      file_count = length (select (λ f. is_own_file u f && is_kept_file f) d.files);
      exceeded = leb bytes used;
    }
