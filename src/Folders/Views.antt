-- ===== src/Folders/Views.antt =====
-- The views of `FoldersService` (src/modules/folders/folders.service.ts). Signed URLs are left out.
use aamenn_backend.Base.{
  Bool, List, Option, Result, [], ceil_div, drop, false, is_id, is_none, leb, length, map, none,
  not, ok, select, some, sort_with, suc, take, zero, ℕ, ◌&&◌, ◌*◌, ◌-◌, ◌==◌, ◌>>=◌, ◌∷◌,
}
use aamenn_backend.Table.{find_one}
use aamenn_backend.Entities.Library.{File, Folder, file_entity, folder_entity}
use aamenn_backend.Entities.Scalars.{Uuid}
use aamenn_backend.Folders.Service.{in_folders}
use aamenn_backend.Folders.Store.{
  Library, collect_descendant_folder_ids, is_own_active, max_depth, verify_folder_ownership,
}

abbrev pub is_own_kept : Uuid → File → Bool
is_own_kept u f = f.user_id == u && is_none f.deleted_at

abbrev pub is_file_in : Option Uuid → File → Bool
is_file_in none f = is_none f.folder_id
is_file_in (some id) f = is_id f.folder_id id

abbrev pub is_folder_in : Option Uuid → Folder → Bool
is_folder_in none f = is_none f.parent_folder_id
is_folder_in (some id) f = is_id f.parent_folder_id id

unfoldable pub file_count : Uuid → Uuid → List File → ℕ
file_count u id t = length (select (λ f. is_own_kept u f && is_id f.folder_id id) t)

unfoldable pub subfolder_count : Uuid → Uuid → List Folder → ℕ
subfolder_count u id t = length (select (λ f. is_own_active u f && is_id f.parent_folder_id id) t)

pub record FolderWithCounts : Type 0 where
  pub row : Folder
  pub files_in : ℕ
  pub subfolders_in : ℕ

abbrev pub with_counts : Uuid → Library → Folder → FolderWithCounts
unfolding file_count subfolder_count
with_counts u lib f = record {
  row = f;
  files_in = file_count u f.id lib.files;
  subfolders_in = subfolder_count u f.id lib.folders;
}

-- The lists leave avatars out of the number of files.
unfoldable pub listed_file_count : Uuid → Uuid → List File → ℕ
listed_file_count u id t =
    length (select (λ f. is_own_kept u f && is_id f.folder_id id && not f.is_avatar) t)

abbrev pub with_listed_counts : Uuid → Library → Folder → FolderWithCounts
unfolding listed_file_count subfolder_count
with_listed_counts u lib f = record {
  row = f;
  files_in = listed_file_count u f.id lib.files;
  subfolders_in = subfolder_count u f.id lib.folders;
}

unfoldable pub get_folder : Uuid → Uuid → Library → Result FolderWithCounts
unfolding verify_folder_ownership with_counts
get_folder id u lib = do f ← verify_folder_ownership id u lib.folders; ok (with_counts u lib f)

-- The oldest first.
unfoldable pub list_folders : Uuid → Option Uuid → Library → List FolderWithCounts
unfolding with_counts
list_folders u parent lib = map (with_counts u lib) (
    sort_with (λ (f g : Folder). leb f.created_at g.created_at)
      (select (λ f. is_own_active u f && is_folder_in parent f) lib.folders))

-- The loop over the parents, with the rounds that `depth < 50` leaves and the trail so far.
unfoldable pub breadcrumb_loop : ℕ → Uuid → Option Uuid → List Folder → List Folder → List Folder
breadcrumb_loop zero u id trail t = trail
breadcrumb_loop (suc n) u none trail t = trail
breadcrumb_loop (suc n) u (some id) trail t = elim (find_one id (is_own_active u) t) [
  | none ↦ trail
  | some f ↦ breadcrumb_loop n u f.parent_folder_id (f ∷ trail) t
]

-- From the root to the folder.
unfoldable pub get_breadcrumbs : Uuid → Uuid → List Folder → List Folder
unfolding breadcrumb_loop
get_breadcrumbs id u t = breadcrumb_loop max_depth u (some id) [] t

pub record LibraryView : Type 0 where
  pub current_folder : Option FolderWithCounts
  pub breadcrumbs : List Folder
  pub subfolders : List FolderWithCounts
  pub files_here : List File
  pub total : ℕ
  pub total_pages : ℕ

abbrev pub files_of : Uuid → Option Uuid → List File → List File
files_of u place t =
    sort_with (λ (f g : File). leb g.created_at f.created_at)
      (select (λ f. is_own_kept u f && not f.is_avatar && is_file_in place f) t)

abbrev pub view_at :
    Uuid → Option Uuid → Option FolderWithCounts → List Folder → ℕ → ℕ → Library → LibraryView
unfolding list_folders
view_at u place current trail page limit lib = record {
  current_folder = current;
  breadcrumbs = trail;
  subfolders = list_folders u place lib;
  files_here = take limit (drop ((page - 1) * limit) (files_of u place lib.files));
  total = length (files_of u place lib.files);
  total_pages = ceil_div (length (files_of u place lib.files)) limit;
}

unfoldable pub get_library : Uuid → Option Uuid → ℕ → ℕ → Library → Result LibraryView
unfolding view_at get_folder get_breadcrumbs
get_library u none page limit lib = ok (view_at u none none [] page limit lib)
get_library u (some id) page limit lib = do
  current ← get_folder id u lib
  ok (view_at u (some id) (some current) (get_breadcrumbs id u lib.folders) page limit lib)

-- The files of a folder and of all folders below it, the newest first.
unfoldable pub get_all_files_in_folder : Uuid → Uuid → Library → Result (List File)
unfolding verify_folder_ownership collect_descendant_folder_ids
get_all_files_in_folder id u lib = do
  _ ← verify_folder_ownership id u lib.folders
  ids ← collect_descendant_folder_ids id u false lib.folders
  ok (
      sort_with (λ (f g : File). leb g.created_at f.created_at)
        (select (λ f. is_own_kept u f && in_folders (id ∷ ids) f.folder_id) lib.files))
