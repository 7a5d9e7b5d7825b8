-- ===== src/Folders/Store.antt =====
-- The repositories that `FoldersService` uses, and its private helpers
-- (src/modules/folders/folders.service.ts).
use aamenn_backend.Base.{
  Bool, List, Option, Result, String, [], err, false, forbidden, if◌then◌else◌, is_id, is_none,
  length, none, not, not_found, ok, or_throw, select, some, stuck, suc, throw_if, true, zero, ℕ,
  ◌&&◌, ◌++◌, ◌==◌, ◌>>=◌, ◌>>◌, ◌||◌, ◌∷◌,
}
use aamenn_backend.Cache.{Cache}
use aamenn_backend.Table.{find_one}
use aamenn_backend.Entities.Library.{File, Folder, file_entity, folder_entity}
use aamenn_backend.Entities.Scalars.{Time, Uuid}

-- `b2_deletions` are the object paths whose deletion the object store was asked for.
pub record Library : Type 0 where
  pub folders : List Folder
  pub files : List File
  pub cache : Cache
  pub b2_deletions : List String

-- The clock and the id generator, as a request finds them.
pub record Env : Type 0 where
  pub now : Time
  pub fresh_id : Uuid

-- `deletedAt: IsNull()`, which TypeORM also adds to a `find` without `withDeleted`.
abbrev pub is_active : Folder → Bool
is_active f = is_none f.deleted_at

abbrev pub is_own_active : Uuid → Folder → Bool
is_own_active uid f = f.user_id == uid && is_active f

unfoldable pub verify_folder_ownership : Uuid → Uuid → List Folder → Result Folder
verify_folder_ownership folder_id user_id t = do
  folder ← or_throw (find_one folder_id is_active t) not_found
  throw_if (not (folder.user_id == user_id)) forbidden
  ok folder

abbrev pub parent_of_found : Option Folder → Option Uuid
parent_of_found none = none
parent_of_found (some f) = f.parent_folder_id

-- The body of the loop of `isFolderDescendant`: the next `currentId`; `none` also where the
-- folder is not found and the loop breaks.
unfoldable pub own_parent : Uuid → List Folder → Uuid → Option Uuid
own_parent user_id t id = parent_of_found (find_one id (is_own_active user_id) t)

-- The loop, with the rounds that `depth < 50` leaves.
unfoldable pub descends_within : ℕ → Uuid → Option Uuid → Uuid → List Folder → Bool
descends_within zero user_id current ancestor t = false
descends_within (suc n) user_id none ancestor t = false
descends_within (suc n) user_id (some id) ancestor t =
    let rest = descends_within n user_id (own_parent user_id t id) ancestor t in
    if id == ancestor then true else rest

abbrev pub max_depth : ℕ
max_depth = 50

unfoldable pub is_folder_descendant : Uuid → Uuid → Uuid → List Folder → Bool
is_folder_descendant target_id ancestor_id user_id t =
    descends_within max_depth user_id (some target_id) ancestor_id t

abbrev pub is_child : Uuid → Bool → Uuid → Folder → Bool
is_child user_id include_deleted parent f =
    f.user_id == user_id && is_id f.parent_folder_id parent && (include_deleted || is_active f)

abbrev pub ids_of : List Folder → List Uuid
ids_of [] = []
ids_of (f ∷ fs) = f.id ∷ ids_of fs

-- The query of one round of `collectDescendantFolderIds`.
unfoldable pub children : Uuid → Bool → Uuid → List Folder → List Uuid
children user_id include_deleted parent t =
    ids_of (select (is_child user_id include_deleted parent) t)

-- The `while` loop over `queue`, with fuel; `found id` are the ids that the query for `id` gives.
unfoldable pub collect_loop : ℕ → (Uuid → List Uuid) → List Uuid → List Uuid → Result (List Uuid)
collect_loop fuel found [] result = ok result
collect_loop zero found (id ∷ queue) result = err stuck
collect_loop (suc fuel) found (id ∷ queue) result =
    collect_loop fuel found (queue ++ found id) (result ++ found id)

-- Each round takes another folder off the queue: one round for each row, and one for the root.
unfoldable pub collect_descendant_folder_ids : Uuid → Uuid → Bool → List Folder → Result (List Uuid)
unfolding collect_loop children
collect_descendant_folder_ids folder_id user_id include_deleted t =
    collect_loop (suc (length t)) (λ id. children user_id include_deleted id t) (folder_id ∷ []) []
