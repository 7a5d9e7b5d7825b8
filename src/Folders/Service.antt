-- ===== src/Folders/Service.antt =====
-- The handlers of `FoldersService` that change the store. Each throws only before its first
-- write, so an error leaves the store as it was.
use mathlib.Core.List.{reverse}
use text.Mathlib.Text.{◌==◌ as str_eq}
use aamenn_backend.Base.{
  Bool, List, Option, Result, String, [], bad_request, false, if◌then◌else◌, is_id, is_none,
  is_same_id, is_some, length, map, member, none, not, not_found, ok, or_throw, select, some,
  throw_if, true, update_where, ℕ, ◌&&◌, ◌++◌, ◌==◌, ◌>>=◌, ◌>>◌, ◌∷◌,
}
use aamenn_backend.Cache.{files, increment_version}
use aamenn_backend.Storage.{b2_paths_all, file_ids}
use aamenn_backend.Table.{delete_keys, find_one, save}
use aamenn_backend.Entities.Library.{File, Folder, file_entity, folder_entity}
use aamenn_backend.Entities.Scalars.{Uuid}
use aamenn_backend.Folders.Store.{
  Env, Library, collect_descendant_folder_ids, is_folder_descendant, is_own_active,
  verify_folder_ownership,
}

abbrev pub touch : Uuid → Library → Library
touch user_id lib = record lib { cache = increment_version user_id files lib.cache }

-- The check of an optional parent: `if (id) await this.verifyFolderOwnership(id, userId)`.
unfoldable pub verify_parent : Option Uuid → Uuid → List Folder → Result (Unit {0})
unfolding verify_folder_ownership
verify_parent none user_id t = ok tt
verify_parent (some p) user_id t = do _ ← verify_folder_ownership p user_id t; ok tt

unfoldable pub create_folder :
    Env → Uuid → String → Option Uuid → Library → Result (Folder × Library)
unfolding verify_parent
create_folder env user_id name_encrypted parent_folder_id lib = do
  verify_parent parent_folder_id user_id lib.folders
  let folder : Folder = record {
    id = env.fresh_id;
    user_id = user_id;
    parent_folder_id = parent_folder_id;
    name_encrypted = name_encrypted;
    created_at = env.now;
    updated_at = env.now;
    deleted_at = none;
  }
  ok (folder, touch user_id (record lib { folders = save folder lib.folders }))

-- `dto.parentFolderId`: absent, null, or an id.
pub data ParentUpdate : Type 0 where
  keep : ParentUpdate
  to_root : ParentUpdate
  move_to : Uuid → ParentUpdate

unfoldable pub check_move : Uuid → Uuid → ParentUpdate → List Folder → Result (Unit {0})
unfolding verify_folder_ownership is_folder_descendant
check_move folder_id user_id keep t = ok tt
check_move folder_id user_id to_root t = ok tt
check_move folder_id user_id (move_to p) t = do
  throw_if (p == folder_id) bad_request
  _ ← verify_folder_ownership p user_id t
  throw_if (is_folder_descendant p folder_id user_id t) bad_request

abbrev pub new_parent : ParentUpdate → Option Uuid → Option Uuid
new_parent keep old = old
new_parent to_root old = none
new_parent (move_to p) old = some p

abbrev pub new_name : Option String → String → String
new_name none old = old
new_name (some name) old = name

-- `save` of TypeORM writes a row, and its `updated_at`, only where a column has another content.
abbrev pub updated : Env → Option String → ParentUpdate → Folder → Folder
updated env name u f =
    let same =
      str_eq (new_name name f.name_encrypted) f.name_encrypted
      && is_same_id (new_parent u f.parent_folder_id) f.parent_folder_id in
    record f {
      name_encrypted = new_name name f.name_encrypted;
      parent_folder_id = new_parent u f.parent_folder_id;
      updated_at = if same then f.updated_at else env.now;
    }

unfoldable pub update_folder :
    Env → Uuid → Uuid → Option String → ParentUpdate → Library → Result (Folder × Library)
unfolding verify_folder_ownership check_move
update_folder env folder_id user_id name_encrypted parent lib = do
  folder ← verify_folder_ownership folder_id user_id lib.folders
  check_move folder_id user_id parent lib.folders
  let folder' : Folder = updated env name_encrypted parent folder
  ok (folder', touch user_id (record lib { folders = save folder' lib.folders }))

abbrev pub parent_update : Option Uuid → ParentUpdate
parent_update none = to_root
parent_update (some p) = move_to p

unfoldable pub move_folder_to_folder :
    Env → Uuid → Option Uuid → Uuid → Library → Result (Folder × Library)
unfolding update_folder
move_folder_to_folder env folder_id target user_id lib =
    update_folder env folder_id user_id none (parent_update target) lib

abbrev pub is_own_in : Uuid → List Uuid → Folder → Bool
is_own_in user_id ids f = member f.id ids && f.user_id == user_id

abbrev pub in_folders : List Uuid → Option Uuid → Bool
in_folders ids none = false
in_folders ids (some id) = member id ids

abbrev pub is_own_file_in : Uuid → List Uuid → File → Bool
is_own_file_in user_id ids f = in_folders ids f.folder_id && f.user_id == user_id

-- Returns the number in the message, `allFolderIds.length`.
unfoldable pub delete_folder : Env → Uuid → Uuid → Library → Result (ℕ × Library)
unfolding verify_folder_ownership
delete_folder env folder_id user_id lib = do
  _ ← verify_folder_ownership folder_id user_id lib.folders
  found ← collect_descendant_folder_ids folder_id user_id false lib.folders
  let all_folder_ids = found ++ folder_id ∷ []
  let folders =
      update_where (is_own_in user_id all_folder_ids)
        (λ f. record f { deleted_at = some env.now; updated_at = env.now }) lib.folders
  let files =
      update_where (λ f. is_own_file_in user_id all_folder_ids f && is_none f.deleted_at)
        (λ f. record f { deleted_at = some env.now; updated_at = env.now }) lib.files
  ok (length all_folder_ids, touch user_id (record lib { folders = folders; files = files }))

-- The parent that a restored folder gets: its own, or the root where that is gone.
abbrev pub surviving_parent : Uuid → Option Uuid → List Folder → Option Uuid
surviving_parent user_id none t = none
surviving_parent user_id (some p) t =
    if is_some (find_one p (is_own_active user_id) t) then some p else none

abbrev pub is_own : Uuid → Folder → Bool
is_own user_id f = f.user_id == user_id

unfoldable pub restore_folder : Env → Uuid → Uuid → Library → Result Library
restore_folder env folder_id user_id lib = do
  folder ← or_throw (find_one folder_id (is_own user_id) lib.folders) not_found
  found ← collect_descendant_folder_ids folder_id user_id true lib.folders
  let all_folder_ids = found ++ folder_id ∷ []
  let parent = surviving_parent user_id folder.parent_folder_id lib.folders
  let rerooted =
      if is_some folder.parent_folder_id && is_none parent
      then save (record folder { parent_folder_id = none; updated_at = env.now }) lib.folders
      else lib.folders
  let folders =
      update_where (is_own_in user_id all_folder_ids)
        (λ f. record f { deleted_at = none; updated_at = env.now }) rerooted
  let files =
      update_where (is_own_file_in user_id all_folder_ids)
        (λ f. record f { deleted_at = none; updated_at = env.now }) lib.files
  ok (touch user_id (record lib { folders = folders; files = files }))

-- `delete ... where id = :id`, for one id after the other. The foreign keys of files and folders
-- are `onDelete: 'SET NULL'`.
abbrev pub clear_parent : Uuid → Folder → Folder
clear_parent id f = if is_id f.parent_folder_id id then record f { parent_folder_id = none } else f

abbrev pub clear_folder : Uuid → File → File
clear_folder id f = if is_id f.folder_id id then record f { folder_id = none } else f

unfoldable pub delete_folder_row : Uuid → Library → Library
delete_folder_row id lib = record lib {
  folders = map (clear_parent id) (delete_keys (id ∷ []) lib.folders);
  files = map (clear_folder id) lib.files;
}

unfoldable pub delete_folder_rows : List Uuid → Library → Library
unfolding delete_folder_row
delete_folder_rows [] lib = lib
delete_folder_rows (id ∷ ids) lib = delete_folder_rows ids (delete_folder_row id lib)

-- Returns the number of files in the message.
unfoldable pub delete_folder_permanently : Uuid → Uuid → Library → Result (ℕ × Library)
delete_folder_permanently folder_id user_id lib = do
  _ ← or_throw (find_one folder_id (is_own user_id) lib.folders) not_found
  found ← collect_descendant_folder_ids folder_id user_id true lib.folders
  let all_folder_ids = found ++ folder_id ∷ []
  let doomed = select (is_own_file_in user_id all_folder_ids) lib.files
  let lib' : Library = record lib {
    files = delete_keys (file_ids doomed) lib.files;
    b2_deletions = lib.b2_deletions ++ b2_paths_all doomed;
  }
  ok (length doomed, touch user_id (delete_folder_rows (reverse all_folder_ids) lib'))

abbrev pub is_own_listed_file : Uuid → List Uuid → File → Bool
is_own_listed_file user_id ids f = member f.id ids && f.user_id == user_id && is_none f.deleted_at

-- Returns `movedCount`.
unfoldable pub move_files_to_folder :
    Env → List Uuid → Option Uuid → Uuid → Library → Result (ℕ × Library)
unfolding verify_parent
move_files_to_folder env file_ids target user_id lib = do
  verify_parent target user_id lib.folders
  let found = length (select (is_own_listed_file user_id file_ids) lib.files)
  throw_if (not (found == length file_ids)) bad_request
  let files =
      update_where (λ f. member f.id file_ids && f.user_id == user_id)
        (λ f. record f { folder_id = target; updated_at = env.now }) lib.files
  ok (found, touch user_id (record lib { files = files }))
