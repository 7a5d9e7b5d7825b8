-- ===== src/Base/Sorting.antt =====
-- Sorted queries and pages of a list.
use Prim.Native.Nat.{ℕ, zero, suc, ◌+◌, ◌-◌, ◌*◌, ◌/◌, ◌≤◌, min}
use mathlib.Core.Path.{◌≡◌, refl, sym, ap, ◌∙◌}
use mathlib.Core.Bool.{Bool, ◌||◌}
use mathlib.Core.List.{List, [], ◌∷◌, ◌++◌}
use native.Mathlib.Omega.{arith}
use aamenn_backend.Base.Lists.{All, any, length}
use aamenn_backend.Base.Tests.{if◌then◌else◌, ltb}

module _ {ℓ} {A : Type ℓ} where
  -- `limit n`, and `skip n`
  abbrev pub take : ℕ → List A → List A
  take zero xs = []
  take (suc n) [] = []
  take (suc n) (x ∷ xs) = x ∷ take n xs

  abbrev pub drop : ℕ → List A → List A
  drop zero xs = xs
  drop (suc n) [] = []
  drop (suc n) (x ∷ xs) = drop n xs

  pub length-take : (n : ℕ) (xs : List A) → length (take n xs) ≡ min n (length xs)
  length-take zero xs = omega arith
  length-take (suc n) [] = omega arith
  length-take (suc n) (x ∷ xs) = omega (arith, length-take n xs)

  pub take-append-drop : (n : ℕ) (xs : List A) → take n xs ++ drop n xs ≡ xs
  take-append-drop zero xs = refl
  take-append-drop (suc n) [] = refl
  take-append-drop (suc n) (x ∷ xs) = ap (λ ys. x ∷ ys) (take-append-drop n xs)

  drop-nil : (n : ℕ) → drop n [] ≡ []
  drop-nil zero = refl
  drop-nil (suc n) = refl

  pub drop-drop : (m n : ℕ) (xs : List A) → drop m (drop n xs) ≡ drop (n + m) xs
  drop-drop m zero xs = ap (λ k. drop k xs) (omega arith)
  drop-drop m (suc n) [] = drop-nil m ∙ sym (drop-nil (suc n + m))
  drop-drop m (suc n) (x ∷ xs) =
      drop-drop m n xs
      ∙ ap (λ k. drop k (x ∷ xs)) (let e : suc (n + m) ≡ suc n + m = omega arith in e)

  pub drop_all : (n : ℕ) (xs : List A) → length xs ≤ n → drop n xs ≡ []
  drop_all zero [] h = refl
  drop_all zero (x ∷ xs) h = ground arith
  drop_all (suc n) [] h = refl
  drop_all (suc n) (x ∷ xs) h = drop_all n xs (omega (arith, h))

  pub take-nil : (n : ℕ) → take n [] ≡ []
  take-nil zero = refl
  take-nil (suc n) = refl

  pub take_all : (n : ℕ) (xs : List A) → length xs ≤ n → take n xs ≡ xs
  take_all zero [] h = refl
  take_all zero (x ∷ xs) h = ground arith
  take_all (suc n) [] h = refl
  take_all (suc n) (x ∷ xs) h = ap (λ ys. x ∷ ys) (take_all n xs (omega (arith, h)))

  pub take-add : (m n : ℕ) (xs : List A) → take m xs ++ take n (drop m xs) ≡ take (m + n) xs
  take-add zero n xs = ap (λ k. take k xs) (omega arith)
  take-add (suc m) n [] = take-nil n ∙ sym (take-nil (suc m + n))
  take-add (suc m) n (x ∷ xs) =
      ap (λ ys. x ∷ ys) (take-add m n xs)
      ∙ ap (λ k. take k (x ∷ xs)) (let e : suc (m + n) ≡ suc m + n = omega arith in e)

  pub All-take {κ} : (P : A → Type κ) (n : ℕ) (xs : List A) → All P xs → All P (take n xs)
  All-take P zero xs a = tt
  All-take P (suc n) [] a = tt
  All-take P (suc n) (x ∷ xs) a = (a.0, All-take P n xs a.1)

  module _ (le : A → A → Bool) where
    abbrev pub insert_with : A → List A → List A
    insert_with x [] = x ∷ []
    insert_with x (y ∷ ys) = if le x y then x ∷ (y ∷ ys) else y ∷ insert_with x ys

    -- `ORDER BY`: rows that compare equal keep their order.
    abbrev pub sort_with : List A → List A
    sort_with [] = []
    sort_with (x ∷ xs) = insert_with x (sort_with xs)

    pub length-insert_with : (x : A) (xs : List A) → length (insert_with x xs) ≡ suc (length xs)
    length-insert_with x [] = refl
    length-insert_with x (y ∷ ys) = ground (arith, length-insert_with x ys)

    pub length-sort_with : (xs : List A) → length (sort_with xs) ≡ length xs
    length-sort_with [] = refl
    length-sort_with (x ∷ xs) =
        omega (arith, length-insert_with x (sort_with xs), length-sort_with xs)

    pub any-insert_with :
        (p : A → Bool) (x : A) (xs : List A) → any p (insert_with x xs) ≡ (p x || any p xs)
    any-insert_with p x [] = refl
    any-insert_with p x (y ∷ ys) = ground (arith, any-insert_with p x ys)

    pub any-sort_with : (p : A → Bool) (xs : List A) → any p (sort_with xs) ≡ any p xs
    any-sort_with p [] = refl
    any-sort_with p (x ∷ xs) =
        ground (arith, any-insert_with p x (sort_with xs), any-sort_with p xs)

    pub All-insert_with {κ} :
        (P : A → Type κ) (x : A) (xs : List A) → P x → All P xs → All P (insert_with x xs)
    All-insert_with P x [] p a = (p, tt)
    All-insert_with P x (y ∷ ys) p a = ground (arith, All-insert_with P x ys p a.1)

    pub All-sort_with {κ} : (P : A → Type κ) (xs : List A) → All P xs → All P (sort_with xs)
    All-sort_with P [] a = tt
    All-sort_with P (x ∷ xs) a = All-insert_with P x (sort_with xs) a.0 (All-sort_with P xs a.1)

-- `Math.ceil(total / limit)`, for a limit of at least one
abbrev pub ceil_div : ℕ → ℕ → ℕ
ceil_div total limit = (total + limit - 1) / limit

pub ceil_div-covers : (total limit : ℕ) → 1 ≤ limit → total ≤ ceil_div total limit * limit
ceil_div-covers total limit h = grind arith

-- A page is before the last one where it leaves something.
pub ltb-ceil_div :
    (n total limit : ℕ) → 1 ≤ limit → ltb (n * limit) total ≡ ltb n (ceil_div total limit)
ltb-ceil_div n total limit h = grind arith
