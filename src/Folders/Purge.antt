-- ===== src/Folders/Purge.antt =====
-- What `deleteFolderPermanently` removes.
use mathlib.Core.List.{reverse, reverse_aux}
use native.Mathlib.Decide.{ℕ_discrete}
use aamenn_backend.Base.{
  List, [], arith, inl, inr, length, map, member, none, ok, refl, select, some, true, ℕ, ◌++◌, ◌||◌,
  ◌↔◌, ◌∷◌, ◌≡◌, ◌⊎◌,
}
use aamenn_backend.Storage.{b2_paths_all, file_ids}
use aamenn_backend.Table.{IsKeyed, delete_keys, find_one, get, get-delete_keys}
use aamenn_backend.Entities.Library.{Folder, file_entity, folder_entity}
use aamenn_backend.Entities.Scalars.{Uuid}
use aamenn_backend.Folders.Descendants.{IsBelow, collect_descendants}
use aamenn_backend.Folders.Service.{
  clear_parent, delete_folder_permanently, delete_folder_row, delete_folder_rows, is_own,
  is_own_file_in, touch,
}
use aamenn_backend.Folders.Store.{Library}
use aamenn_backend.Folders.Trash.{subtree_ids}
use aamenn_backend.Folders.Tree.{IsTree}

get-clear_parent :
    (c id : Uuid) (t : List Folder) → get c t ≡ none → get c (map (clear_parent id) t) ≡ none
get-clear_parent c id [] h = refl
get-clear_parent c id (f ∷ t) h = ground (arith, get-clear_parent c id t)

delete_folder_row-none :
    (c id : Uuid) (lib : Library)
    → (get c lib.folders ≡ none) ⊎ (c ≡ id)
    → get c (delete_folder_row id lib).folders ≡ none
unfolding delete_folder_row
delete_folder_row-none c id lib h =
    get-clear_parent c id (delete_keys (id ∷ []) lib.folders)
      (ground (arith, get-delete_keys c (id ∷ []) lib.folders, h))

delete_folder_rows-none :
    (c : Uuid) (ids : List Uuid) (lib : Library)
    → (get c lib.folders ≡ none) ⊎ (member c ids ≡ true)
    → get c (delete_folder_rows ids lib).folders ≡ none
unfolding delete_folder_rows
delete_folder_rows-none c [] lib h = ground (arith, h)
delete_folder_rows-none c (id ∷ ids) lib h =
    delete_folder_rows-none c ids (delete_folder_row id lib) (elim h [
      | inl gone_c ↦ inl (delete_folder_row-none c id lib (inl gone_c))
      | inr m ↦ elim (ℕ_discrete c id) [
        | yes e ↦ inl (delete_folder_row-none c id lib (inr e))
        | no ne ↦ inr (ground (arith, m, ne))
      ]
    ])

delete_folder_rows-deletions :
    (ids : List Uuid) (lib : Library) → (delete_folder_rows ids lib).b2_deletions ≡ lib.b2_deletions
unfolding delete_folder_rows delete_folder_row
delete_folder_rows-deletions [] lib = refl
delete_folder_rows-deletions (id ∷ ids) lib =
    delete_folder_rows-deletions ids (delete_folder_row id lib)

member-reverse_aux :
    (c : Uuid) (ids acc : List Uuid)
    → member c (reverse_aux ids acc) ≡ (member c ids || member c acc)
member-reverse_aux c [] acc = refl
member-reverse_aux c (id ∷ ids) acc = ground (arith, member-reverse_aux c ids (id ∷ acc))

-- What `deleteFolderPermanently` makes of the store, where `ids` are the folders that it deletes.
pub record Purged (u root : Uuid) (lib lib' : Library) (ids : List Uuid) : Type 0 where
  pub subtree :
      (c : Uuid) → (member c ids ≡ true) ↔ ((c ≡ root) ⊎ IsBelow u true lib.folders root c)
  pub folders : (c : Uuid) → member c ids ≡ true → get c lib'.folders ≡ none
  pub deletions :
      lib'.b2_deletions ≡ lib.b2_deletions ++ b2_paths_all (select (is_own_file_in u ids) lib.files)

-- Deleting a folder of the user for good always succeeds, where the table is a tree with unique
-- ids: the rows of the folder and of the user's folders below it, in the trash or not, are gone,
-- and the deletion of the objects of exactly the user's files in them is asked of the object store.
pub delete_folder_permanently-Purged :
    (root u : Uuid) (lib : Library) (f : Folder)
    → IsTree lib.folders
    → IsKeyed lib.folders
    → find_one root (is_own u) lib.folders ≡ some f
    → (ids : List Uuid) × (n : ℕ) × (lib' : Library) × (delete_folder_permanently root u lib
        ≡ ok (n, lib'))
      × Purged u root lib lib' ids
unfolding delete_folder_permanently
delete_folder_permanently-Purged root u lib f tree keyed own =
    let (found, e, below) = collect_descendants u root true lib.folders tree keyed in
    let ids = found ++ root ∷ [] in
    let doomed = select (is_own_file_in u ids) lib.files in
    let lib1 = record lib {
      files = delete_keys (file_ids doomed) lib.files;
      b2_deletions = lib.b2_deletions ++ b2_paths_all doomed;
    } in
    (
      ids,
      length doomed,
      touch u (delete_folder_rows (reverse ids) lib1),
      rw (own, e) refl,
      record {
        subtree = λ c. subtree_ids found root c (below c);
        folders = λ c m.
            delete_folder_rows-none c (reverse ids) lib1
              (inr (ground (arith, member-reverse_aux c ids [], m)));
        deletions = delete_folder_rows-deletions (reverse ids) lib1;
      },
    )
