-- ===== src/Folders/Descendants.antt =====
-- `collectDescendantFolderIds` returns exactly the folders below the given one.
use native.Mathlib.Decide.{ℕ_discrete}
use aamenn_backend.Base.{
  Bool, Distinct, List, [], arith, false, length, length-select-le, member, member-append, none,
  not, ok, refl, select, some, suc, true, ℕ, ◌&&◌, ◌++◌, ◌+◌, ◌==◌, ◌||◌, ◌↔◌, ◌∷◌, ◌≡◌, ◌≤◌,
}
use aamenn_backend.Table.{IsKeyed, find_one, get}
use aamenn_backend.Entities.Library.{Folder, folder_entity}
use aamenn_backend.Entities.Scalars.{Uuid}
use aamenn_backend.Folders.Chains.{IsAcyclic, IsAcyclic-restrict, Parents, up}
use aamenn_backend.Folders.Search.{loop-descendants, loop_total}
use aamenn_backend.Folders.Store.{
  children, collect_descendant_folder_ids, is_active, parent_of_found,
}
use aamenn_backend.Folders.Tree.{IsTree, parent_of}

abbrev pub is_kept : Uuid → Bool → Folder → Bool
is_kept user_id include_deleted f = f.user_id == user_id && (include_deleted || is_active f)

-- The parents, among the folders that the query sees.
abbrev pub kept_parent : Uuid → Bool → List Folder → Parents
kept_parent user_id include_deleted t id =
    parent_of_found (find_one id (is_kept user_id include_deleted) t)

-- `c` lies below `root`, through folders that the query sees.
abbrev pub IsBelow : Uuid → Bool → List Folder → Uuid → Uuid → Type 0
IsBelow user_id include_deleted t root c =
    (n : ℕ) × (up (kept_parent user_id include_deleted t) (suc n) c ≡ some root)

module _ (u : Uuid) (incl : Bool) (p : Uuid) where
  children_absent :
      (t : List Folder) (c : Uuid) → get c t ≡ none → member c (children u incl p t) ≡ false
  unfolding children
  children_absent [] c h = refl
  children_absent (f ∷ t) c h = ground (arith, children_absent t c)

  children-kept_parent :
      (t : List Folder) (c : Uuid)
      → IsKeyed t
      → (member c (children u incl p t) ≡ true) ↔ (kept_parent u incl t c ≡ some p)
  unfolding children
  children-kept_parent [] c k = ((λ h. cc), (λ h. cc))
  children-kept_parent (f ∷ t) c k = elim (ℕ_discrete f.id c) [
    | yes this ↦
        let gone = children_absent t c (rw (← this) k.0) in
        (λ h. ground (arith, gone, this), λ h. ground (arith, gone, this))
    | no other ↦
        let ih = children-kept_parent t c k.1 in
        (λ h. ground (arith, ih.0, other), λ h. ground (arith, ih.1, other))
  ]

  children-Distinct : (t : List Folder) → IsKeyed t → Distinct (children u incl p t)
  unfolding children
  children-Distinct [] k = tt
  children-Distinct (f ∷ t) k = ground (arith, children-Distinct t k.1, children_absent t f.id)

-- The rows that are not in `result` yet.
abbrev remaining : List Folder → List Uuid → ℕ
remaining t result = length (select (λ f. not (member f.id result)) t)

remaining_drops :
    (u : Uuid) (incl : Bool) (p : Uuid) (t : List Folder) (result more : List Uuid)
    → ((c : Uuid)
        → member c (children u incl p t) ≡ true
        → (member c result ≡ false) × (member c more ≡ true))
    → remaining t (result ++ more) + length (children u incl p t) ≤ remaining t result
unfolding children
remaining_drops u incl p [] result more h = omega arith
remaining_drops u incl p (f ∷ t) result more h =
    let ih = remaining_drops u incl p t result more (λ c m. h c (ground arith)) in
    ground (arith, ih, h f.id, member-append f.id result more)

module _ (u root : Uuid) (incl : Bool) (t : List Folder) (tree : IsTree t) (keyed : IsKeyed t) where
  kept-IsAcyclic : IsAcyclic (kept_parent u incl t)
  kept-IsAcyclic =
      IsAcyclic-restrict (parent_of t) (kept_parent u incl t) (λ x q e. ground arith) tree.acyclic

  -- In a tree with unique ids the collection ends within its fuel, and it returns exactly the ids
  -- of the folders below the given one: those of the user, and without `includeDeleted` those
  -- that are reached through active folders only.
  pub collect_descendants :
      (r : List Uuid) × (collect_descendant_folder_ids root u incl t ≡ ok r)
      × ((c : Uuid) → (member c r ≡ true) ↔ IsBelow u incl t root c)
  unfolding collect_descendant_folder_ids
  collect_descendants =
      let par = kept_parent u incl t in
      let found : Uuid → List Uuid = λ id. children u incl id t in
      let kids = λ (p c : Uuid). children-kept_parent u incl p t c keyed in
      let apart = λ (p : Uuid). children-Distinct u incl p t keyed in
      let (r, ends) =
        loop_total par found kids apart root kept-IsAcyclic (remaining t)
          (λ id result fresh.
            remaining_drops u incl id t result (children u incl id t) (λ c m. (fresh c m, m)))
          (suc (length t))
          (omega (arith, length-select-le {0} (λ (f : Folder). not (member f.id [])) t)) in
      (r, ends, loop-descendants par found kids apart root kept-IsAcyclic (suc (length t)) ends)
