-- ===== src/Folders/Chains.antt =====
-- Chains of parents, for any map from a folder to its parent: walking up, cycles, and what a
-- change of one parent does to them.
use native.Mathlib.Decide.{ℕ_discrete}
use Prim.Native.Nat.add
use native.Mathlib.Nat.{add_comm}
use aamenn_backend.Base.{
  Option, Option-cases, ap, arith, inl, inr, none, some, suc, sym, zero, ℕ, ◌+◌, ◌<◌, ◌∙◌, ◌≡◌, ◌≢◌,
  ◌≤◌, ◌⊎◌,
}
use aamenn_backend.Entities.Scalars.{Uuid}

abbrev pub Parents : Type 0
Parents = Uuid → Option Uuid

-- The folder `n` levels above `id`.
abbrev pub up : Parents → ℕ → Uuid → Option Uuid
up p zero id = some id
up p (suc n) id = elim (p id) [ none ↦ none | some q ↦ up p n q ]

-- No folder lies above itself.
abbrev pub IsAcyclic : Parents → Type 0
IsAcyclic p = (id : Uuid) (n : ℕ) → up p (suc n) id ≢ some id

pub up-add : (p : Parents) (m n : ℕ) (x y : Uuid) → up p m x ≡ some y → up p (m + n) x ≡ up p n y
up-add p zero n x y h = rw (add.zero n) (ground (arith, h))
up-add p (suc m) n x y h = elim (Option-cases (p x)) [
  | inl e ↦ ground arith
  | inr (q, e) ↦ rw (add.suc m n) (ground (arith, up-add p m n q y))
]

-- A cycle may be entered anywhere along it.
pub up-rotate :
    (p : Parents) (k n : ℕ) (x a : Uuid) → up p n x ≡ some x → up p k x ≡ some a → up p n a ≡ some a
up-rotate p k n x a cycle reach =
    sym (up-add p k n x a reach)
    ∙ ap (λ m. up p m x) (add_comm k n)
    ∙ up-add p n k x x cycle
    ∙ reach

module _ (p p' : Parents) (a : Uuid) (same : (x : Uuid) → x ≢ a → p' x ≡ p x) where
  -- A walk under the new parents is one under the old ones, or it passes `a`.
  pub up-redirect :
      (n : ℕ) (x y : Uuid)
      → up p' n x ≡ some y
      → (up p n x ≡ some y) ⊎ ((k : ℕ) × (up p k x ≡ some a) × (up p' k x ≡ some a))
  up-redirect zero x y h = inl h
  up-redirect (suc n) x y h = elim (ℕ_discrete x a) [
    | yes here ↦ inr (0, ap some here, ap some here)
    | no other ↦ elim (Option-cases (p x)) [
      | inl root ↦ ground (arith, same x)
      | inr (q, e) ↦ elim (up-redirect n q y (ground (arith, same x other))) [
        | inl old ↦ inl (ground arith)
        | inr (k, old, new) ↦ inr (suc k, ground arith, ground (arith, same x other))
      ]
    ]
  ]

  -- Giving `a` another parent makes no cycle, unless `a` lies above that parent or is it.
  pub IsAcyclic-redirect :
      IsAcyclic p → ((q : Uuid) (k : ℕ) → p' a ≡ some q → up p k q ≢ some a) → IsAcyclic p'
  IsAcyclic-redirect acyclic apart x n h = elim (up-redirect (suc n) x x h) [
    | inl old ↦ acyclic x n old
    | inr (k, _, new) ↦ through_a (up-rotate p' k (suc n) x a h new)
  ]
    where
      through_a : up p' (suc n) a ≡ some a → ⊥
      through_a cycle = elim (Option-cases (p' a)) [
        | inl root ↦ ground arith
        | inr (q, e) ↦ elim (up-redirect n q a (ground arith)) [
          | inl old ↦ apart q n e old
          | inr (j, old, _) ↦ apart q j e old
        ]
      ]

-- Fewer parents, fewer cycles.
pub up-restrict :
    (p p' : Parents)
    → ((x q : Uuid) → p' x ≡ some q → p x ≡ some q)
    → (n : ℕ) (x y : Uuid) → up p' n x ≡ some y
    → up p n x ≡ some y
up-restrict p p' sub zero x y h = h
up-restrict p p' sub (suc n) x y h = elim (Option-cases (p' x)) [
  | inl root ↦ ground arith
  | inr (q, e) ↦ ground (arith, sub x q e, up-restrict p p' sub n q y (ground arith))
]

pub IsAcyclic-restrict :
    (p p' : Parents) → ((x q : Uuid) → p' x ≡ some q → p x ≡ some q) → IsAcyclic p → IsAcyclic p'
IsAcyclic-restrict p p' sub acyclic x n h = acyclic x n (up-restrict p p' sub (suc n) x x h)

-- Where every parent has a smaller id than its child there is no cycle.
module _ (p : Parents) (falls : (x q : Uuid) → p x ≡ some q → q < x) where
  up-le : (n : ℕ) (x y : Uuid) → up p n x ≡ some y → y ≤ x
  up-le zero x y h = ground arith
  up-le (suc n) x y h = elim (Option-cases (p x)) [
    | inl root ↦ ground arith
    | inr (q, e) ↦ omega (arith, falls x q e, up-le n q y (ground arith))
  ]

  pub IsAcyclic-of_lt : IsAcyclic p
  IsAcyclic-of_lt x n h = elim (Option-cases (p x)) [
    | inl root ↦ ground arith
    | inr (q, e) ↦ absurd (omega (arith, falls x q e, up-le n q x (ground arith)))
  ]
