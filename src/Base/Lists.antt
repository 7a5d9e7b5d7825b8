-- ===== src/Base/Lists.antt =====
-- Lists by Boolean tests, and tables: lists of rows under a primary key.
use Prim.Native.Nat.{ℕ, suc, ◌+◌, ◌≤◌}
use mathlib.Core.Path.{◌≡◌, refl}
use mathlib.Core.Bool.{Bool, true, false, ◌||◌}
use mathlib.Core.Logic.{◌⊎◌}
use mathlib.Core.List.{List, [], ◌∷◌, ◌++◌}
use native.Mathlib.Omega.{arith}
use aamenn_backend.Base.Tests.{◌==◌, if◌then◌else◌}

abbrev pub member : ℕ → List ℕ → Bool
member a [] = false
member a (b ∷ bs) = b == a || member a bs

pub member-append : (a : ℕ) (xs ys : List ℕ) → member a (xs ++ ys) ≡ (member a xs || member a ys)
member-append a [] ys = refl
member-append a (x ∷ xs) ys = ground (arith, member-append a xs ys)

pub member-append_cases :
    (a : ℕ) (xs ys : List ℕ)
    → member a (xs ++ ys) ≡ true
    → (member a xs ≡ true) ⊎ (member a ys ≡ true)
member-append_cases a xs ys h = ground (arith, member-append a xs ys)

pub member-append_false :
    (a : ℕ) (xs ys : List ℕ)
    → member a (xs ++ ys) ≡ false
    → (member a xs ≡ false) × (member a ys ≡ false)
member-append_false a xs ys h = ground (arith, member-append a xs ys)

pub member-append_none :
    (a : ℕ) (xs ys : List ℕ)
    → member a xs ≡ false
    → member a ys ≡ false
    → member a (xs ++ ys) ≡ false
member-append_none a xs ys h k = ground (arith, member-append a xs ys)

-- No number stands twice in the list.
abbrev pub Distinct : List ℕ → Type 0
Distinct [] = Unit
Distinct (x ∷ xs) = (member x xs ≡ false) × Distinct xs

pub Distinct-append :
    (xs ys : List ℕ)
    → Distinct xs
    → Distinct ys
    → ((x : ℕ) → member x xs ≡ true → member x ys ≡ false)
    → Distinct (xs ++ ys)
Distinct-append [] ys d e apart = e
Distinct-append (x ∷ xs) ys d e apart = (
  member-append_none x xs ys d.0 (apart x (ground arith)),
  Distinct-append xs ys d.1 e (λ z m. apart z (ground arith)),
)

module _ {ℓ} {A : Type ℓ} where
  abbrev pub length : List A → ℕ
  length [] = 0
  length (x ∷ xs) = suc (length xs)

  pub length-append : (xs ys : List A) → length (xs ++ ys) ≡ length xs + length ys
  length-append [] ys = omega arith
  length-append (x ∷ xs) ys = omega (arith, length-append xs ys)

  -- `xs.filter(p)`, and the rows that a `where` clause selects.
  abbrev pub select : (A → Bool) → List A → List A
  select p [] = []
  select p (x ∷ xs) = if p x then x ∷ select p xs else select p xs

  -- `xs.some(p)`
  abbrev pub any : (A → Bool) → List A → Bool
  any p [] = false
  any p (x ∷ xs) = p x || any p xs

  -- `update ... set g where p`
  abbrev pub update_where : (A → Bool) → (A → A) → List A → List A
  update_where p g [] = []
  update_where p g (x ∷ xs) = (if p x then g x else x) ∷ update_where p g xs

  abbrev pub All {κ} : (A → Type κ) → List A → Type κ
  All P [] = Unit
  All P (x ∷ xs) = P x × All P xs

  pub length-update_where :
      (p : A → Bool) (g : A → A) (xs : List A) → length (update_where p g xs) ≡ length xs
  length-update_where p g [] = refl
  length-update_where p g (x ∷ xs) = omega (arith, length-update_where p g xs)

  pub length-select-le : (p : A → Bool) (xs : List A) → length (select p xs) ≤ length xs
  length-select-le p [] = omega arith
  length-select-le p (x ∷ xs) = ground (arith, length-select-le p xs)
