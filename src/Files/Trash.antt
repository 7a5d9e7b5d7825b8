-- ===== src/Files/Trash.antt =====
-- The trash of `FilesService`, and deletion for good. A failure of the object store is caught, so
-- what counts of a call of `deleteFiles` is the paths that it is asked to delete.
use aamenn_backend.Base.{
  Bool, List, Result, String, [], any, if◌then◌else◌, leb, length, none, not, not_found, ok,
  or_throw, or_zero, select, some, sort_with, take, throw_if, update_where, ℕ, ◌&&◌, ◌++◌, ◌==◌,
  ◌>>=◌, ◌>>◌, ◌∷◌,
}
use aamenn_backend.Storage.{b2_paths, file_ids}
use aamenn_backend.Table.{delete_keys, find_one}
use aamenn_backend.Entities.Library.{File, file_entity}
use aamenn_backend.Entities.Scalars.{Uuid}
use aamenn_backend.Files.Store.{
  Drive, Env, has_path, is_kept_file, is_own_file, is_own_listed, is_trashed_of, touch_files,
  verify_file_ownership,
}

abbrev pub trash : Env → File → File
trash env f = record f { deleted_at = some env.now; updated_at = env.now }

abbrev pub untrash : Env → File → File
untrash env f = record f { deleted_at = none; updated_at = env.now }

-- `softDelete` and `restore` of TypeORM take the rows that fit, in the trash or not.
abbrev pub soft_delete : Env → Uuid → List Uuid → Drive → Drive
soft_delete env u ids d = record d {
  files = update_where (is_own_listed u ids) (trash env) d.files;
}

abbrev pub restore : Env → Uuid → List Uuid → Drive → Drive
restore env u ids d = record d { files = update_where (is_own_listed u ids) (untrash env) d.files }

unfoldable pub move_to_trash : Env → Uuid → Uuid → Drive → Result Drive
unfolding verify_file_ownership
move_to_trash env id u d = do
  _ ← verify_file_ownership id u d.files
  ok (touch_files u (soft_delete env u (id ∷ []) d))

abbrev pub is_own_listed_kept : Uuid → List Uuid → File → Bool
is_own_listed_kept u ids f = is_own_listed u ids f && is_kept_file f

abbrev pub is_own_listed_trashed : Uuid → List Uuid → File → Bool
is_own_listed_trashed u ids f = is_own_listed u ids f && not (is_kept_file f)

-- Returns `count`.
unfoldable pub move_to_trash_bulk : Env → List Uuid → Uuid → Drive → Result (ℕ × Drive)
move_to_trash_bulk env [] u d = ok (0, d)
move_to_trash_bulk env (id ∷ ids) u d = do
  let count = length (select (is_own_listed_kept u (id ∷ ids)) d.files)
  throw_if (count == 0) not_found
  ok (count, touch_files u (soft_delete env u (id ∷ ids) d))

unfoldable pub restore_files_bulk : Env → List Uuid → Uuid → Drive → Result (ℕ × Drive)
restore_files_bulk env [] u d = ok (0, d)
restore_files_bulk env (id ∷ ids) u d = do
  let count = length (select (is_own_listed_trashed u (id ∷ ids)) d.files)
  throw_if (count == 0) not_found
  ok (count, touch_files u (restore env u (id ∷ ids) d))

-- The other rows that `hasOtherActiveReferences` counts.
abbrev pub is_other_reference : File → File → Bool
is_other_reference f g = has_path f.b2_file_path g && not (g.id == f.id) && is_kept_file g

unfoldable pub has_other_active_references : File → List File → Bool
has_other_active_references f t = any (is_other_reference f) t

-- The objects that are deleted along with a row, and with several rows.
unfoldable pub doomed_paths : List File → File → List String
unfolding has_other_active_references
doomed_paths t f = if has_other_active_references f t then [] else b2_paths f

abbrev pub doomed_paths_all : List File → List File → List String
unfolding doomed_paths
doomed_paths_all t [] = []
doomed_paths_all t (f ∷ fs) = doomed_paths t f ++ doomed_paths_all t fs

-- The object store is asked first, while the rows are still there; then they are removed.
unfoldable pub purge_files : List File → Drive → Drive
unfolding doomed_paths
purge_files doomed d = record d {
  files = delete_keys (file_ids doomed) d.files;
  b2_deletions = d.b2_deletions ++ doomed_paths_all d.files doomed;
}

unfoldable pub delete_file_permanently : Uuid → Uuid → Drive → Result Drive
unfolding purge_files
delete_file_permanently id u d = do
  f ← or_throw (find_one id (is_own_file u) d.files) not_found
  ok (touch_files u (purge_files (f ∷ []) d))

unfoldable pub delete_files_permanently_bulk : List Uuid → Uuid → Drive → Result (ℕ × Drive)
unfolding purge_files
delete_files_permanently_bulk [] u d = ok (0, d)
delete_files_permanently_bulk (id ∷ ids) u d = do
  let found = select (is_own_listed u (id ∷ ids)) d.files
  throw_if (length found == 0) not_found
  ok (length found, touch_files u (purge_files found d))

-- `ORDER BY deleted_at ASC`
abbrev pub is_trashed_before : File → File → Bool
is_trashed_before f g = leb (or_zero f.deleted_at) (or_zero g.deleted_at)

-- Returns `deletedIds` and `remaining`.
unfoldable pub empty_trash_batch : Uuid → ℕ → Drive → (List Uuid × ℕ) × Drive
unfolding purge_files
empty_trash_batch u batch_size d =
    let found = take batch_size (sort_with is_trashed_before (select (is_trashed_of u) d.files)) in
    if length found == 0
    then (([], 0), d)
    else (let d' = touch_files u (purge_files found d) in
        ((file_ids found, length (select (is_trashed_of u) d'.files)), d'))
