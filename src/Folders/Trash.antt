-- ===== src/Folders/Trash.antt =====
-- What `deleteFolder` trashes.
use aamenn_backend.Base.{
  Bool, Bool-cases, List, Option-cases, [], ap, arith, false, inl, inr, is_none, length, member,
  member-append, member-append_cases, ok, refl, some, suc, true, update_where, ℕ, ◌&&◌, ◌++◌, ◌↔◌,
  ◌∙◌, ◌∷◌, ◌≡◌, ◌⊎◌,
}
use aamenn_backend.Table.{IsKeyed, get, get-update_where, key-get, option_update}
use aamenn_backend.Entities.Library.{File, Folder, file_entity, folder_entity}
use aamenn_backend.Entities.Scalars.{Uuid}
use aamenn_backend.Folders.Chains.{IsAcyclic-restrict}
use aamenn_backend.Folders.Descendants.{IsBelow, collect_descendants}
use aamenn_backend.Folders.Service.{delete_folder, is_own_file_in, is_own_in, touch}
use aamenn_backend.Folders.Store.{Env, Library, is_active, verify_folder_ownership}
use aamenn_backend.Folders.Tree.{IsParent, IsTree, parent_of}

abbrev trash_folder : Env → Folder → Folder
trash_folder env f = record f { deleted_at = some env.now; updated_at = env.now }

abbrev trash_file : Env → File → File
trash_file env f = record f { deleted_at = some env.now; updated_at = env.now }

abbrev is_own_kept_file : Uuid → List Uuid → File → Bool
is_own_kept_file u ids f = is_own_file_in u ids f && is_none f.deleted_at

-- The deleted folder and everything that the user has below it.
abbrev pub IsInSubtree : Uuid → List Folder → Uuid → Uuid → Type 0
IsInSubtree u t root c = (c ≡ root) ⊎ IsBelow u false t root c

-- What `deleteFolder` makes of the store, where `ids` are the folders that it moves to the trash.
pub record Trashed (env : Env) (u root : Uuid) (lib lib' : Library) (ids : List Uuid) : Type 0 where
  pub subtree : (c : Uuid) → (member c ids ≡ true) ↔ IsInSubtree u lib.folders root c
  pub folders :
      (c : Uuid)
      → get c lib'.folders ≡ option_update (is_own_in u ids) (trash_folder env) (get c lib.folders)
  pub files :
      (c : Uuid)
      → get c lib'.files ≡ option_update (is_own_kept_file u ids) (trash_file env) (get c lib.files)
  pub deletions : lib'.b2_deletions ≡ lib.b2_deletions

pub subtree_ids {ℓ} :
    {P : Type ℓ} (found : List Uuid) (root c : Uuid)
    → (member c found ≡ true) ↔ P
    → (member c (found ++ root ∷ []) ≡ true) ↔ ((c ≡ root) ⊎ P)
subtree_ids found root c below = (
  λ m. elim (member-append_cases c found (root ∷ []) m) [
    | inl old ↦ inr (below.0 old)
    | inr last ↦ inl (ground arith)
  ],
  elim [
    | inl top ↦ ground (arith, member-append c found (root ∷ []))
    | inr w ↦ ground (arith, member-append c found (root ∷ []), below.1 w)
  ],
)

-- Deleting a folder that the user owns always succeeds, where the table is a tree with unique
-- ids: it moves to the trash exactly the folder and the user's active folders below it, with the
-- active files of the user in them; all other rows stay, and nothing is deleted from the object
-- store.
pub delete_folder-Trashed :
    (env : Env) (root u : Uuid) (lib : Library) (f : Folder)
    → IsTree lib.folders
    → IsKeyed lib.folders
    → verify_folder_ownership root u lib.folders ≡ ok f
    → (ids : List Uuid) × (lib' : Library) × (delete_folder env root u lib ≡ ok (length ids, lib'))
      × Trashed env u root lib lib' ids
unfolding delete_folder
delete_folder-Trashed env root u lib f tree keyed own =
    let (found, e, below) = collect_descendants u root false lib.folders tree keyed in
    let ids = found ++ root ∷ [] in
    let folders' = update_where (is_own_in u ids) (trash_folder env) lib.folders in
    let files' = update_where (is_own_kept_file u ids) (trash_file env) lib.files in
    (
      ids,
      touch u (record lib { folders = folders'; files = files' }),
      rw (own, e) refl,
      record {
        subtree = λ c. subtree_ids found root c (below c);
        folders =
            λ c. get-update_where c (is_own_in u ids) (trash_folder env) (λ g. refl) lib.folders;
        files =
            λ c. get-update_where c (is_own_kept_file u ids) (trash_file env) (λ g. refl) lib.files;
        deletions = refl;
      },
    )

-- In the subtree lie the children of each of its folders.
subtree_closed :
    (u root : Uuid) (t : List Folder) (c p : Uuid) (f : Folder)
    → get c t ≡ some f
    → is_active f ≡ true
    → f.user_id ≡ u
    → f.parent_folder_id ≡ some p
    → IsInSubtree u t root p
    → IsInSubtree u t root c
subtree_closed u root t c p f found alive own par (inl top) = inr (0, ground arith)
subtree_closed u root t c p f found alive own par (inr (n, r)) = inr (suc n, ground arith)

module _ (env : Env) (u root : Uuid) (lib lib' : Library) (ids : List Uuid)
    (tree : IsTree lib.folders) (d : Trashed env u root lib lib' ids) where
  -- A folder that is active afterwards was so before, and was not chosen.
  active_before :
      (id : Uuid) (g : Folder)
      → get id lib'.folders ≡ some g
      → is_active g ≡ true
      → (get id lib.folders ≡ some g) × (is_own_in u ids g ≡ false)
  active_before id g at on = elim (Option-cases (get id lib.folders)) [
    | inl gone ↦ ground (arith, d.folders id)
    | inr (h, before) ↦ elim (Bool-cases (is_own_in u ids h)) [
      | inl chosen ↦ ground (arith, d.folders id)
      | inr kept ↦
          let same : h ≡ g = ground (arith, d.folders id) in
          (before ∙ ap some same, rw (← same) kept)
    ]
  ]

  -- The parent of a folder that was not chosen was not chosen either.
  parent_kept :
      (id p : Uuid) (g q : Folder)
      → get id lib.folders ≡ some g
      → is_active g ≡ true
      → is_own_in u ids g ≡ false
      → g.parent_folder_id ≡ some p
      → get p lib.folders ≡ some q
      → q.user_id ≡ g.user_id
      → is_own_in u ids q ≡ false
  parent_kept id p g q at on kept par at_p same = elim (Bool-cases (is_own_in u ids q)) [
    | inr free ↦ free
    | inl chosen ↦
        let key_q : q.id ≡ p = key-get p lib.folders at_p in
        let key_g : g.id ≡ id = key-get id lib.folders at in
        let mem_p : member p ids ≡ true = rw (← key_q) (ground arith) in
        let own : g.user_id ≡ u = ground (arith, chosen, same) in
        let below =
          subtree_closed u root lib.folders id p g at on own par ((d.subtree p).0 mem_p) in
        let mem_g : member g.id ids ≡ true = rw key_g ((d.subtree id).1 below) in
        ground (arith, kept, mem_g, own)
  ]

  Trashed-parents :
      (id : Uuid) (g : Folder)
      → get id lib'.folders ≡ some g
      → is_active g ≡ true
      → (p : Uuid) → g.parent_folder_id ≡ some p
      → IsParent lib'.folders g p
  Trashed-parents id g at on p par =
      let (before, kept) = active_before id g at on in
      let (q, at_p, same, alive) = tree.parents id g before on p par in
      let free = parent_kept id p g q before on kept par at_p same in
      (q, ground (arith, d.folders p, at_p, free), same, alive)

-- Deleting a folder that the user owns succeeds and keeps the tree, where the table is a tree
-- with unique ids: no active folder is left under a trashed one.
pub delete_folder-IsTree :
    (env : Env) (root u : Uuid) (lib : Library) (f : Folder)
    → IsTree lib.folders
    → IsKeyed lib.folders
    → verify_folder_ownership root u lib.folders ≡ ok f
    → (n : ℕ) × (lib' : Library) × (delete_folder env root u lib ≡ ok (n, lib'))
      × IsTree lib'.folders
delete_folder-IsTree env root u lib f tree keyed own =
    let (ids, lib', e, d) = delete_folder-Trashed env root u lib f tree keyed own in
    (
      length ids,
      lib',
      e,
      record {
        acyclic =
            IsAcyclic-restrict (parent_of lib.folders) (parent_of lib'.folders)
              (λ x q h. ground (arith, d.folders x, h)) tree.acyclic;
        parents = Trashed-parents env u root lib lib' ids tree d;
      },
    )
