-- ===== src/Folders/Moves.antt =====
-- Moving and renaming folders (`updateFolder`, `moveFolderToFolder`) and creating them, against
-- the invariant of the table.
use native.Mathlib.Decide.{dec_lt}
use aamenn_backend.Base.{
  >>=-eq-ok, List, Option, String, arith, bad_request, false, none, ok, some, throw_if, true, ℕ,
  ◌==◌, ◌≡◌, ◌≢◌, ◌≤◌,
}
use aamenn_backend.Table.{get, key-get, save}
use aamenn_backend.Entities.Library.{Folder, folder_entity}
use aamenn_backend.Entities.Scalars.{Uuid}
use aamenn_backend.Folders.Chains.{up}
use aamenn_backend.Folders.Saves.{save-IsTree}
use aamenn_backend.Folders.Service.{
  ParentUpdate, check_move, keep, move_to, new_parent, to_root, update_folder, updated,
}
use aamenn_backend.Folders.Store.{
  Env, Library, is_active, is_folder_descendant, max_depth, verify_folder_ownership,
}
use aamenn_backend.Folders.Tree.{
  IsParent, IsTree, is_folder_descendant_complete, parent_of, verify_folder_ownership-eq-ok,
}

-- The target of a move lies fewer than 50 levels deep.
abbrev pub IsShallow : ParentUpdate → List Folder → Type 0
IsShallow (move_to p) t = (k : ℕ) → max_depth ≤ k → up (parent_of t) k p ≡ none
IsShallow keep t = Unit {0}
IsShallow to_root t = Unit {0}

check_move-eq-ok :
    (folder_id user_id p : Uuid) (t : List Folder)
    → check_move folder_id user_id (move_to p) t ≡ ok tt
    → (g : Folder) × (verify_folder_ownership p user_id t ≡ ok g)
      × (is_folder_descendant p folder_id user_id t ≡ false)
unfolding check_move
check_move-eq-ok folder_id user_id p t h =
    let (_, _, h') = >>=-eq-ok (throw_if (p == folder_id) bad_request) _ h in
    let (g, e, h'') = >>=-eq-ok (verify_folder_ownership p user_id t) _ h' in (g, e, ground arith)

-- The parent that a checked move chooses is fit and does not lie below the folder.
module _ (folder_id user_id : Uuid) (t : List Folder) (f : Folder) (tree : IsTree t)
    (found : get folder_id t ≡ some f) (alive : is_active f ≡ true)
    (own : f.user_id ≡ user_id) where
  moved-fit :
      (u : ParentUpdate) (p : Uuid)
      → check_move folder_id user_id u t ≡ ok tt
      → new_parent u f.parent_folder_id ≡ some p
      → IsParent t f p
  moved-fit keep p checked e = tree.parents folder_id f found alive p e
  moved-fit to_root p checked e = cc
  moved-fit (move_to q) p checked e =
      let (g, verified, _) = check_move-eq-ok folder_id user_id q t checked in
      let (at_q, on, of_user) = verify_folder_ownership-eq-ok q user_id t verified in
      (g, ground arith, ground arith, on)

  moved-apart :
      (u : ParentUpdate) (p : Uuid) (k : ℕ)
      → check_move folder_id user_id u t ≡ ok tt
      → IsShallow u t
      → new_parent u f.parent_folder_id ≡ some p
      → up (parent_of t) k p ≢ some folder_id
  moved-apart keep p k checked shallow e r = tree.acyclic folder_id k (ground arith)
  moved-apart to_root p k checked shallow e r = cc
  moved-apart (move_to q) p k checked shallow e r =
      let (g, verified, apart) = check_move-eq-ok folder_id user_id q t checked in
      let (at_q, on, of_user) = verify_folder_ownership-eq-ok q user_id t verified in
      let same : q ≡ p = ground arith in
      elim (dec_lt k max_depth) [
        | yes near ↦ cc (
          apart,
          is_folder_descendant_complete k user_id q folder_id t g tree at_q of_user on near
              (rw same r),
        )
        | no far ↦ ground (arith, shallow k (omega arith))
      ]

update_folder-eq-ok :
    (env : Env) (folder_id user_id : Uuid) (name : Option String) (u : ParentUpdate)
    (lib lib' : Library) (f' : Folder)
    → update_folder env folder_id user_id name u lib ≡ ok (f', lib')
    → (f : Folder) × (verify_folder_ownership folder_id user_id lib.folders ≡ ok f)
      × (check_move folder_id user_id u lib.folders ≡ ok tt)
      × (f' ≡ updated env name u f)
      × (lib'.folders ≡ save f' lib.folders)
unfolding update_folder
update_folder-eq-ok env folder_id user_id name u lib lib' f' h =
    let (f, e, h') = >>=-eq-ok (verify_folder_ownership folder_id user_id lib.folders) _ h in
    let (c, e', h'') = >>=-eq-ok (check_move folder_id user_id u lib.folders) _ h' in
    (f, e, e', ground arith, ground arith)

-- Renaming or moving a folder keeps the tree: no folder comes to lie above itself, and every
-- active folder keeps an active parent of its user. The condition is that the table is a tree
-- and that the target of a move lies fewer than 50 levels deep.
pub update_folder-IsTree :
    (env : Env) (folder_id user_id : Uuid) (name : Option String) (u : ParentUpdate)
    (lib lib' : Library) (f' : Folder)
    → IsTree lib.folders
    → IsShallow u lib.folders
    → update_folder env folder_id user_id name u lib ≡ ok (f', lib')
    → IsTree lib'.folders
update_folder-IsTree env folder_id user_id name u lib lib' f' tree shallow h =
    let (f, verified, checked, made, stored) =
      update_folder-eq-ok env folder_id user_id name u lib lib' f' h in
    let (found, alive, own) =
      verify_folder_ownership-eq-ok folder_id user_id lib.folders verified in
    let key : f.id ≡ folder_id = key-get folder_id lib.folders found in
    let g : Folder = updated env name u f in
    rw (stored, made)
      (save-IsTree lib.folders g tree (λ h e. ground (arith, key, found)) alive
        (λ p e. moved-fit folder_id user_id lib.folders f tree found alive own u p checked e)
        (λ p k e. rw key (
          moved-apart folder_id user_id lib.folders f tree found alive own u p k checked shallow
            e)))
