-- ===== src/Folders/Tree.antt =====
-- The invariant of the folder table, and what the ancestor test of `updateFolder` finds out.
use native.Mathlib.Decide.{ℕ_discrete}
use aamenn_backend.Base.{
  List, Option-cases, ap, arith, false, inl, inr, none, ok, refl, some, suc, true, zero, ℕ, ◌<◌,
  ◌∙◌, ◌≡◌,
}
use aamenn_backend.Table.{get}
use aamenn_backend.Entities.Library.{Folder, folder_entity}
use aamenn_backend.Entities.Scalars.{Uuid}
use aamenn_backend.Folders.Chains.{IsAcyclic, Parents, up}
use aamenn_backend.Folders.Store.{
  descends_within, is_active, is_folder_descendant, max_depth, own_parent, parent_of_found,
  verify_folder_ownership,
}

abbrev pub parent_of : List Folder → Parents
parent_of t id = parent_of_found (get id t)

-- The folder `p` can be the parent of `f`: it is there, not in the trash, and of the same user.
abbrev pub IsParent : List Folder → Folder → Uuid → Type 0
IsParent t f p = (g : Folder) × (get p t ≡ some g) × (g.user_id ≡ f.user_id) × (is_active g ≡ true)

-- No folder lies above itself, and the parent of an active folder is an active folder of the
-- same user.
pub record IsTree (t : List Folder) : Type 0 where
  pub acyclic : IsAcyclic (parent_of t)
  pub parents :
      (id : Uuid) (f : Folder)
      → get id t ≡ some f
      → is_active f ≡ true
      → (p : Uuid) → f.parent_folder_id ≡ some p
      → IsParent t f p

pub verify_folder_ownership-eq-ok :
    (id user_id : Uuid) (t : List Folder) {f : Folder}
    → verify_folder_ownership id user_id t ≡ ok f
    → (get id t ≡ some f) × (is_active f ≡ true) × (f.user_id ≡ user_id)
unfolding verify_folder_ownership
verify_folder_ownership-eq-ok id user_id t h = ground arith

pub own_parent-parent_of :
    (user_id : Uuid) (t : List Folder) (x q : Uuid)
    → own_parent user_id t x ≡ some q
    → parent_of t x ≡ some q
unfolding own_parent
own_parent-parent_of user_id t x q h = ground arith

descends_within-none :
    (n : ℕ) (user_id a : Uuid) (t : List Folder) → descends_within n user_id none a t ≡ false
unfolding descends_within
descends_within-none zero user_id a t = refl
descends_within-none (suc n) user_id a t = refl

-- The test says yes only for a folder that lies fewer than `n` levels above.
pub descends_within_sound :
    (n : ℕ) (user_id c a : Uuid) (t : List Folder)
    → descends_within n user_id (some c) a t ≡ true
    → (k : ℕ) × (k < n) × (up (parent_of t) k c ≡ some a)
unfolding descends_within
descends_within_sound zero user_id c a t h = cc
descends_within_sound (suc n) user_id c a t h = elim (ℕ_discrete c a) [
  | yes here ↦ (0, omega arith, ap some here)
  | no other ↦ elim (Option-cases (own_parent user_id t c)) [
    | inl e ↦ ground (arith, descends_within-none n user_id a t)
    | inr (q, e) ↦
        let (k, lt, r) = descends_within_sound n user_id q a t (ground arith) in
        (suc k, omega arith, ground (arith, own_parent-parent_of user_id t c q e))
  ]
]

-- Under the invariant it says yes for each of those.
pub descends_within_complete :
    (n k : ℕ) (user_id c a : Uuid) (t : List Folder) (f : Folder)
    → IsTree t
    → get c t ≡ some f
    → f.user_id ≡ user_id
    → is_active f ≡ true
    → k < n
    → up (parent_of t) k c ≡ some a
    → descends_within n user_id (some c) a t ≡ true
unfolding descends_within own_parent
descends_within_complete zero k user_id c a t f tree e own active h r = absurd (omega arith)
descends_within_complete (suc n) zero user_id c a t f tree e own active h r = ground arith
descends_within_complete (suc n) (suc k) user_id c a t f tree e own active h r =
    elim (Option-cases f.parent_folder_id) [
      | inl root ↦ ground arith
      | inr (q, up_q) ↦
          let (g, found, same, alive) = tree.parents c f e active q up_q in
          ground (
            arith,
            descends_within_complete n k user_id q a t g tree found (same ∙ own) alive
                (omega arith),
          )
    ]

-- The ancestor test of `updateFolder` finds every folder that lies fewer than 50 levels above.
pub is_folder_descendant_complete :
    (k : ℕ) (user_id target ancestor : Uuid) (t : List Folder) (f : Folder)
    → IsTree t
    → get target t ≡ some f
    → f.user_id ≡ user_id
    → is_active f ≡ true
    → k < max_depth
    → up (parent_of t) k target ≡ some ancestor
    → is_folder_descendant target ancestor user_id t ≡ true
unfolding is_folder_descendant
is_folder_descendant_complete k = descends_within_complete max_depth k
