-- ===== src/Folders/Creation.antt =====
-- Creating a folder (`createFolder`) against the invariant of the table.
use aamenn_backend.Base.{
  >>=-eq-ok, List, Option, Option-cases, String, ap, arith, inl, inr, none, ok, some, suc, zero, ℕ,
  ◌∙◌, ◌≡◌, ◌≢◌,
}
use aamenn_backend.Table.{get, save}
use aamenn_backend.Entities.Library.{Folder, folder_entity}
use aamenn_backend.Entities.Scalars.{Uuid}
use aamenn_backend.Folders.Chains.{up}
use aamenn_backend.Folders.Saves.{save-IsTree}
use aamenn_backend.Folders.Service.{create_folder, verify_parent}
use aamenn_backend.Folders.Store.{Env, Library, verify_folder_ownership}
use aamenn_backend.Folders.Tree.{IsTree, parent_of, verify_folder_ownership-eq-ok}

-- An id that no row has and none refers to.
abbrev pub IsFresh : Uuid → List Folder → Type 0
IsFresh id t = (get id t ≡ none) × ((x : Uuid) → parent_of t x ≢ some id)

up-fresh :
    (t : List Folder) (id : Uuid)
    → IsFresh id t
    → (k : ℕ) (x : Uuid) → x ≢ id
    → up (parent_of t) k x ≢ some id
up-fresh t id fresh zero x ne e = ground arith
up-fresh t id fresh (suc k) x ne e = elim (Option-cases (parent_of t x)) [
  | inl root ↦ ground arith
  | inr (q, at_q) ↦ up-fresh t id fresh k q (λ same. fresh.1 x (at_q ∙ ap some same)) (ground arith)
]

-- A folder that is created in a tree keeps the tree; its id is one that no row of the table has or
-- refers to.
pub create_folder-IsTree :
    (env : Env) (user_id : Uuid) (name : String) (parent : Option Uuid) (lib lib' : Library)
    (f' : Folder)
    → IsTree lib.folders
    → IsFresh env.fresh_id lib.folders
    → create_folder env user_id name parent lib ≡ ok (f', lib')
    → IsTree lib'.folders
unfolding create_folder verify_parent
create_folder-IsTree env user_id name none lib lib' f' tree fresh h =
    let stored : lib'.folders ≡ save f' lib.folders = ground arith in
    rw stored (
      save-IsTree lib.folders f' tree (λ g e. ground arith) (ground arith) (λ p e. ground arith)
        (λ p k e. ground arith))
create_folder-IsTree env user_id name (some q) lib lib' f' tree fresh h =
    let (c, checked, h') = >>=-eq-ok (verify_parent (some q) user_id lib.folders) _ h in
    let (g, verified, _) = >>=-eq-ok (verify_folder_ownership q user_id lib.folders) _ checked in
    let (found, alive, own) = verify_folder_ownership-eq-ok q user_id lib.folders verified in
    let stored : lib'.folders ≡ save f' lib.folders = ground arith in
    rw stored (
      save-IsTree lib.folders f' tree (λ g e. ground arith) (ground arith)
        (λ p e. (g, ground arith, ground arith, alive))
        (λ p k e r.
          up-fresh lib.folders env.fresh_id fresh k p (λ same. ground arith) (ground arith)))
