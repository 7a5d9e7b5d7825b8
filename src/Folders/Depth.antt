-- ===== src/Folders/Depth.antt =====
-- What the limit of 50 rounds in `isFolderDescendant` means for moves.
use aamenn_backend.Base.{
  Bool-cases, List, Option, String, ap, arith, bad_request, err, false, inl, inr, ok, refl, some,
  suc, sym, ℕ, ◌+◌, ◌-◌, ◌<◌, ◌∙◌, ◌≡◌, ◌≢◌,
}
use aamenn_backend.Table.{find_one, key-get, save}
use aamenn_backend.Entities.Library.{Folder, folder_entity}
use aamenn_backend.Entities.Scalars.{Uuid}
use aamenn_backend.Folders.Chains.{IsAcyclic, up, up-add, up-redirect}
use aamenn_backend.Folders.Saves.{parent_of-save, parent_of-save_self}
use aamenn_backend.Folders.Service.{check_move, move_to, touch, update_folder, updated}
use aamenn_backend.Folders.Store.{
  Env, Library, descends_within, is_folder_descendant, is_own_active, max_depth,
  verify_folder_ownership,
}
use aamenn_backend.Folders.Tree.{
  IsTree, descends_within_sound, is_folder_descendant_complete, parent_of,
}

-- Both ends of a move belong to the user and are out of the trash.
pub record AreOwnActive (folder_id target user_id : Uuid) (t : List Folder) : Type 0 where
  pub folder : Folder
  pub at_folder : find_one folder_id (is_own_active user_id) t ≡ some folder
  pub parent : Folder
  pub at_parent : find_one target (is_own_active user_id) t ≡ some parent

verify_folder_ownership-own :
    (id user_id : Uuid) (t : List Folder) {f : Folder}
    → find_one id (is_own_active user_id) t ≡ some f
    → verify_folder_ownership id user_id t ≡ ok f
unfolding verify_folder_ownership
verify_folder_ownership-own id user_id t h = ground arith

-- Moving a folder below itself is refused with 400 Bad Request, where the target lies fewer
-- than 50 levels below it: the table is a tree, and both belong to the user and are active.
pub update_folder-refuses_descendant :
    (env : Env) (folder_id target user_id : Uuid) (name : Option String) (lib : Library) (k : ℕ)
    → IsTree lib.folders
    → AreOwnActive folder_id target user_id lib.folders
    → k < max_depth
    → up (parent_of lib.folders) k target ≡ some folder_id
    → update_folder env folder_id user_id name (move_to target) lib ≡ err bad_request
unfolding update_folder check_move
update_folder-refuses_descendant env folder_id target user_id name lib k tree both near below =
    ground (
      arith,
      verify_folder_ownership-own folder_id user_id lib.folders both.at_folder,
      verify_folder_ownership-own target user_id lib.folders both.at_parent,
      is_folder_descendant_complete k user_id target folder_id lib.folders both.parent tree
          (ground (arith, both.at_parent)) (ground (arith, both.at_parent))
          (ground (arith, both.at_parent)) near below,
    )

-- In a tree the test misses a folder that lies 50 levels above or more.
is_folder_descendant_deep :
    (user_id folder_id target : Uuid) (t : List Folder) (j : ℕ)
    → IsTree t
    → up (parent_of t) (max_depth + j) target ≡ some folder_id
    → is_folder_descendant target folder_id user_id t ≡ false
unfolding is_folder_descendant
is_folder_descendant_deep user_id folder_id target t j tree below =
    elim (Bool-cases (descends_within max_depth user_id (some target) folder_id t)) [
      | inr missed ↦ missed
      | inl hit ↦
          let (k, near, r) = descends_within_sound max_depth user_id target folder_id t hit in
          let d : ℕ = 49 + j - k in
          let e : k + suc d ≡ max_depth + j = omega arith in
          absurd (
            tree.acyclic folder_id d (
              sym (up-add (parent_of t) k (suc d) target folder_id r)
              ∙ ap (λ m. up (parent_of t) m target) e
              ∙ below))
    ]

-- A folder under a parent below it lies above itself.
save-cycle :
    (t : List Folder) (f' : Folder) (target : Uuid) (n : ℕ)
    → f'.parent_folder_id ≡ some target
    → up (parent_of t) n target ≡ some f'.id
    → ¬ IsAcyclic (parent_of (save f' t))
save-cycle t f' target n par below acyclic =
    elim (up-redirect (parent_of (save f' t)) (parent_of t) f'.id
      (λ x ne. sym (parent_of-save t f' x ne)) n target f'.id below) [
        | inl still ↦ acyclic f'.id n (ground (arith, parent_of-save_self t f'))
        | inr (k, still, _) ↦ acyclic f'.id k (ground (arith, parent_of-save_self t f'))
      ]

not_self :
    (t : List Folder) (folder_id target : Uuid) (j : ℕ)
    → IsTree t
    → up (parent_of t) (max_depth + j) target ≡ some folder_id
    → target ≢ folder_id
not_self t folder_id target j tree below e =
    let n : max_depth + j ≡ suc (49 + j) = omega arith in
    tree.acyclic folder_id (49 + j) (
      ap (λ m. up (parent_of t) m folder_id) (sym n)
      ∙ ap (λ x. up (parent_of t) (max_depth + j) x) (sym e)
      ∙ below)

-- The limit lets a cycle in: in a tree, moving a folder below itself is accepted where the
-- target lies 50 levels below it or more and both belong to the user and are active, and
-- afterwards the folders are no longer free of cycles.
pub update_folder_deep_cycle :
    (env : Env) (folder_id target user_id : Uuid) (name : Option String) (lib : Library) (j : ℕ)
    → IsTree lib.folders
    → AreOwnActive folder_id target user_id lib.folders
    → up (parent_of lib.folders) (max_depth + j) target ≡ some folder_id
    → (f' : Folder) × (lib' : Library) × (update_folder env folder_id user_id name
          (move_to target)
          lib
        ≡ ok (f', lib'))
      × (¬ IsAcyclic (parent_of lib'.folders))
unfolding update_folder check_move
update_folder_deep_cycle env folder_id target user_id name lib j tree both below =
    let t = lib.folders in
    let f' : Folder = updated env name (move_to target) both.folder in
    let key : both.folder.id ≡ folder_id =
      key-get folder_id t {r = both.folder} (ground (arith, both.at_folder)) in
    (
      f',
      touch user_id (record lib { folders = save f' t }),
      ground (
        arith,
        verify_folder_ownership-own folder_id user_id t both.at_folder,
        verify_folder_ownership-own target user_id t both.at_parent,
        not_self t folder_id target j tree below,
        is_folder_descendant_deep user_id folder_id target t j tree below,
      ),
      save-cycle t f' target (max_depth + j) refl (rw key below),
    )
