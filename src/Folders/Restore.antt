-- ===== src/Folders/Restore.antt =====
-- What `restoreFolder` brings back.
use aamenn_backend.Base.{
  List, Option-cases, [], ap, arith, if◌then◌else◌, inl, inr, is_none, is_some, member, none, ok,
  refl, some, true, update_where, ◌&&◌, ◌++◌, ◌↔◌, ◌∙◌, ◌∷◌, ◌≡◌, ◌≢◌, ◌⊎◌,
}
use aamenn_backend.Table.{
  IsKeyed, find_one, get, get-save, get-update_where, key-get, option_update, save,
}
use aamenn_backend.Entities.Library.{File, Folder, file_entity, folder_entity}
use aamenn_backend.Entities.Scalars.{Uuid}
use aamenn_backend.Folders.Descendants.{IsBelow, collect_descendants}
use aamenn_backend.Folders.Service.{
  is_own, is_own_file_in, is_own_in, restore_folder, surviving_parent, touch,
}
use aamenn_backend.Folders.Store.{Env, Library, is_own_active}
use aamenn_backend.Folders.Trash.{subtree_ids}
use aamenn_backend.Folders.Tree.{IsTree}

abbrev pub untrash_folder : Env → Folder → Folder
untrash_folder env f = record f { deleted_at = none; updated_at = env.now }

abbrev pub untrash_file : Env → File → File
untrash_file env f = record f { deleted_at = none; updated_at = env.now }

-- The restored folder itself: at the root, where its parent is gone.
abbrev pub restored_root : Env → Uuid → List Folder → Folder → Folder
restored_root env u t f = record (untrash_folder env f) {
  parent_folder_id = surviving_parent u f.parent_folder_id t;
}

-- What `restoreFolder` makes of the store, where `ids` are the folders that it restores.
pub record Restored (env : Env) (u root : Uuid) (f : Folder) (lib lib' : Library) (ids : List Uuid)
    : Type 0 where
  pub subtree :
      (c : Uuid) → (member c ids ≡ true) ↔ ((c ≡ root) ⊎ IsBelow u true lib.folders root c)
  pub others :
      (c : Uuid)
      → c ≢ root
      → get c lib'.folders
        ≡ option_update (is_own_in u ids) (untrash_folder env) (get c lib.folders)
  pub top : get root lib'.folders ≡ some (restored_root env u lib.folders f)
  pub files :
      (c : Uuid)
      → get c lib'.files ≡ option_update (is_own_file_in u ids) (untrash_file env) (get c lib.files)
  pub deletions : lib'.b2_deletions ≡ lib.b2_deletions

abbrev rerooted : Env → Uuid → Folder → List Folder → List Folder
rerooted env u f t =
    if is_some f.parent_folder_id && is_none (surviving_parent u f.parent_folder_id t)
    then save (record f { parent_folder_id = none; updated_at = env.now }) t
    else t

rerooted_other :
    (env : Env) (u : Uuid) (f : Folder) (t : List Folder) (c : Uuid)
    → c ≢ f.id
    → get c (rerooted env u f t) ≡ get c t
rerooted_other env u f t c ne =
    ground (arith, get-save c (record f { parent_folder_id = none; updated_at = env.now }) t)

rerooted_top :
    (env : Env) (root u : Uuid) (f : Folder) (t : List Folder) (ids : List Uuid)
    → f.id ≡ root
    → get root t ≡ some f
    → f.user_id ≡ u
    → member root ids ≡ true
    → option_update (is_own_in u ids) (untrash_folder env) (get root (rerooted env u f t))
      ≡ some (restored_root env u t f)
rerooted_top env root u f t ids key at own mem = elim (Option-cases f.parent_folder_id) [
  | inl e ↦ ground (arith, e, at, key)
  | inr (p, e) ↦ elim (Option-cases (find_one p (is_own_active u) t)) [
    | inl dead ↦ ground (
      arith,
      e,
      dead,
      at,
      key,
      get-save root (record f { parent_folder_id = none; updated_at = env.now }) t,
    )
    | inr (g, alive) ↦ ground (arith, e, alive, at, key)
  ]
]

-- Restoring a folder of the user always succeeds, where the table is a tree with unique ids: it
-- takes out of the trash exactly the folder and the user's folders below it, with the files of
-- the user in them. The folder keeps its parent if that is an active folder of the user, and else
-- comes to the root; all other rows stay.
pub restore_folder-Restored :
    (env : Env) (root u : Uuid) (lib : Library) (f : Folder)
    → IsTree lib.folders
    → IsKeyed lib.folders
    → find_one root (is_own u) lib.folders ≡ some f
    → (ids : List Uuid) × (lib' : Library) × (restore_folder env root u lib ≡ ok lib')
      × Restored env u root f lib lib' ids
unfolding restore_folder
restore_folder-Restored env root u lib f tree keyed own =
    let (found, e, below) = collect_descendants u root true lib.folders tree keyed in
    let ids = found ++ root ∷ [] in
    let t = rerooted env u f lib.folders in
    let folders' = update_where (is_own_in u ids) (untrash_folder env) t in
    let files' = update_where (is_own_file_in u ids) (untrash_file env) lib.files in
    let at : get root lib.folders ≡ some f = ground (arith, own) in
    let key : f.id ≡ root = key-get root lib.folders at in
    let sub : (c : Uuid)
        → (member c ids ≡ true) ↔ ((c ≡ root) ⊎ IsBelow u true lib.folders root c) =
      λ c. subtree_ids found root c (below c) in
    let new : (c : Uuid)
        → get c folders' ≡ option_update (is_own_in u ids) (untrash_folder env) (get c t) =
      λ c. get-update_where c (is_own_in u ids) (untrash_folder env) (λ g. refl) t in
    (
      ids,
      touch u (record lib { folders = folders'; files = files' }),
      rw (own, e) refl,
      record {
        subtree = sub;
        others = λ c ne.
            new c
            ∙ ap (option_update (is_own_in u ids) (untrash_folder env))
                (rerooted_other env u f lib.folders c (ground (arith, key, ne)));
        top =
            new root
            ∙ rerooted_top env root u f lib.folders ids key at (ground (arith, own))
                ((sub root).1 (inl refl));
        files =
            λ c. get-update_where c (is_own_file_in u ids) (untrash_file env) (λ g. refl) lib.files;
        deletions = refl;
      },
    )
