-- ===== src/Shares/Ancestors.antt =====
-- Which folders a share gives access to: the loop over the parents, on any table, cycles included.
use native.Mathlib.Decide.{ℕ_discrete}
use aamenn_backend.Base.{
  ==_refl, Bool, Bool-cases, List, Option-cases, Result, [], ap, arith, false, inl, inr, length,
  length-select-le, member, none, not, ok, refl, select, some, subst, suc, sym, true, zero, ℕ, ◌+◌,
  ◌<◌, ◌==◌, ◌∙◌, ◌∷◌, ◌≡◌, ◌≢◌, ◌≤◌, ◌⊎◌,
}
use aamenn_backend.Table.{get}
use aamenn_backend.Entities.Library.{Folder, folder_entity}
use aamenn_backend.Entities.Scalars.{Uuid}
use aamenn_backend.Folders.Chains.{up}
use aamenn_backend.Shares.Store.{active_parent, ancestor_loop, is_folder_descendant_of}

-- `a` is a folder on the way up from the folder, or it.
abbrev pub LiesAbove : List Folder → Uuid → Uuid → Type 0
LiesAbove t a id = (k : ℕ) × (up (active_parent t) k id ≡ some a)

-- A visited folder's parent is visited, or comes next.
abbrev IsTrail : List Folder → List Uuid → Uuid → Type 0
IsTrail t visited current =
    (v q : Uuid)
    → member v visited ≡ true
    → active_parent t v ≡ some q
    → (member q visited ≡ true) ⊎ (q ≡ current)

-- From a cycle no way leads out.
trail_closed :
    (t : List Folder) (visited : List Uuid) (current : Uuid)
    → IsTrail t visited current
    → member current visited ≡ true
    → (k : ℕ) (v a : Uuid) → member v visited ≡ true
    → up (active_parent t) k v ≡ some a
    → member a visited ≡ true
trail_closed t visited current trail back zero v a m h =
    let e : v ≡ a = ground (arith, h) in subst (λ x. member x visited ≡ true) e m
trail_closed t visited current trail back (suc k) v a m h =
    elim (Option-cases (active_parent t v)) [
      | inl root ↦ ground (arith, root, h)
      | inr (q, e) ↦
          let later : up (active_parent t) k q ≡ some a = ground (arith, e, h) in
          elim (trail v q m e) [
            | inl inside ↦ trail_closed t visited current trail back k q a inside later
            | inr this ↦
                trail_closed t visited current trail back k q a
                  (subst (λ x. member x visited ≡ true) (sym this) back) later
          ]
    ]

IsTrail-longer :
    (t : List Folder) (visited : List Uuid) (current q : Uuid)
    → IsTrail t visited current
    → active_parent t current ≡ some q
    → IsTrail t (current ∷ visited) q
IsTrail-longer t visited current q trail e v r m h = elim (ℕ_discrete current v) [
  | yes this ↦
      let same_parent : r ≡ q = ground (arith, e, h, ap (active_parent t) this) in inr same_parent
  | no other ↦ elim (trail v r (ground (arith, m, other)) h) [
    | inl inside ↦ inl (ground (arith, inside))
    | inr this ↦ inl (ground (arith, this, ==_refl r))
  ]
]

-- The folders that the loop has not visited.
abbrev unvisited : List Folder → List Uuid → ℕ
unvisited t visited = length (select (λ f. not (member f.id visited)) t)

unvisited-le :
    (t : List Folder) (visited : List Uuid) (id : Uuid)
    → unvisited t (id ∷ visited) ≤ unvisited t visited
unvisited-le [] visited id = omega arith
unvisited-le (f ∷ t) visited id = ground (arith, unvisited-le t visited id)

unvisited-lt :
    (t : List Folder) (visited : List Uuid) (id : Uuid) (f : Folder)
    → get id t ≡ some f
    → member id visited ≡ false
    → unvisited t (id ∷ visited) < unvisited t visited
unvisited-lt [] visited id f at new = cc
unvisited-lt (g ∷ t) visited id f at new = elim (ℕ_discrete g.id id) [
  | yes this ↦
      let free : member g.id visited ≡ false = ap (λ i. member i visited) this ∙ new in
      ground (arith, this, free, ==_refl id, unvisited-le t visited id)
  | no other ↦
      ground (arith, at, other, unvisited-lt t visited id f (ground (arith, at, other)) new)
]

-- The loop ends where its rounds are more than the folders it has not visited, and says whether
-- the ancestor lies above.
abbrev pub Decides : Result Bool → Type 0 → Type 0
Decides r P = (b : Bool) × (r ≡ ok b) × (b ≡ true → P) × (b ≡ false → ¬ P)

no_way :
    (t : List Folder) (a current : Uuid)
    → active_parent t current ≡ none
    → (current == a) ≡ false
    → (k : ℕ) → up (active_parent t) k current ≢ some a
no_way t a current root other zero reach = ground (arith, reach, other)
no_way t a current root other (suc k) reach = ground (arith, reach, root)

later_way :
    (t : List Folder) (a current q : Uuid)
    → active_parent t current ≡ some q
    → (current == a) ≡ false
    → (k : ℕ) → up (active_parent t) k current ≡ some a
    → ¬ LiesAbove t a q
    → ⊥
later_way t a current q e other zero reach never = ground (arith, reach, other)
later_way t a current q e other (suc k) reach never = never (k, ground (arith, reach, e))

parent-row :
    (t : List Folder) (id q : Uuid)
    → active_parent t id ≡ some q
    → (f : Folder) × (get id t ≡ some f)
parent-row t id q e = elim (Option-cases (get id t)) [
  | inl absent ↦ ground (arith, e, absent)
  | inr (f, at) ↦ (f, at)
]

ancestor_loop-decides :
    (n : ℕ) (t : List Folder) (a : Uuid) (visited : List Uuid) (current : Uuid)
    → unvisited t visited < n
    → IsTrail t visited current
    → member a visited ≡ false
    → Decides (ancestor_loop n t a visited current) (LiesAbove t a current)
unfolding ancestor_loop
ancestor_loop-decides zero t a visited current fuel trail new =
    elim (let e : ⊥ = omega (arith, fuel) in e) [ ]
ancestor_loop-decides (suc n) t a visited current fuel trail new =
    elim (Bool-cases (member current visited)) [
      | inl back ↦ (
        false,
        rw back refl,
        λ e. cc,
        λ _ (k, reach).
            let inside = trail_closed t visited current trail back k current a back reach in cc,
      )
      | inr first_time ↦ elim (Bool-cases (current == a)) [
        | inl this ↦ (true, rw (first_time, this) refl, λ _. (0, ground (arith, this)), λ e. cc)
        | inr other ↦ elim (Option-cases (active_parent t current)) [
          | inl root ↦ (
            false,
            rw (first_time, other, root) refl,
            λ e. cc,
            λ _ (k, reach). no_way t a current root other k reach,
          )
          | inr (q, e) ↦
              let (f, at) = parent-row t current q e in
              let less = unvisited-lt t visited current f at first_time in
              let (b, result, yes_above, not_above) =
                ancestor_loop-decides n t a (current ∷ visited) q (omega (arith, fuel, less))
                  (IsTrail-longer t visited current q trail e) (ground (arith, new, other)) in
              (
                b,
                rw (first_time, other, e) result,
                λ h. (suc (yes_above h).0, ground (arith, e, (yes_above h).1)),
                λ h (k, reach). later_way t a current q e other k reach (not_above h),
              )
        ]
      ]
    ]

-- On every table, cycles included, the search ends, and says whether the ancestor is the folder or
-- one on the way up from it along folders outside the trash.
pub is_folder_descendant_of-decides :
    (id a : Uuid) (t : List Folder) → Decides (is_folder_descendant_of id a t) (LiesAbove t a id)
unfolding is_folder_descendant_of
is_folder_descendant_of-decides id a t =
    let few = length-select-le (λ (f : Folder). not (member f.id [])) t in
    ancestor_loop-decides (length t + 2) t a [] id (omega (arith, few)) (λ v q m h. cc) refl
