-- ===== src/Uploads/Parts.antt =====
-- The parts of an upload that are on record: each whole number once, within the range of B2.
use mathlib.Core.List.{append-nil, append_assoc}
use aamenn_backend.Base.{
  All, Distinct, Distinct-append, List, String, [], any, ap, arith, false, member, refl, sym, ℕ,
  ◌++◌, ◌==◌, ◌||◌, ◌∙◌, ◌∷◌, ◌≡◌, ◌≤◌,
}
use aamenn_backend.Entities.Uploads.{CompletedPart, PartNumber, object, scalar, whole}
use aamenn_backend.Uploads.Service.{is_out_of_range, is_part, max_part}

-- A whole number, once; other values are left out.
abbrev pub number_of : PartNumber → List ℕ
number_of (whole n) = n ∷ []
number_of (scalar out json) = []
number_of (object out json) = []

abbrev pub numbers : List CompletedPart → List ℕ
numbers [] = []
numbers (p ∷ ps) = number_of p.part_number ++ numbers ps

-- Each whole number is there once, from 1 to 10,000.
abbrev pub AreParts : List CompletedPart → Type 0
AreParts ps = Distinct (numbers ps) × All (λ (n : ℕ). (1 ≤ n) × (n ≤ max_part)) (numbers ps)

numbers-append : (ps qs : List CompletedPart) → numbers (ps ++ qs) ≡ numbers ps ++ numbers qs
numbers-append [] qs = refl
numbers-append (p ∷ ps) qs =
    ap (λ ns. number_of p.part_number ++ ns) (numbers-append ps qs)
    ∙ sym (append_assoc (number_of p.part_number) (numbers ps) (numbers qs))

is_part-cons :
    (n : ℕ) (q : PartNumber) (sha1 : String) (ps : List CompletedPart)
    → member n (numbers ps) ≡ any (is_part (whole n)) ps
    → member n (numbers (record { part_number = q; sha1 = sha1 } ∷ ps))
      ≡ any (is_part (whole n)) (record { part_number = q; sha1 = sha1 } ∷ ps)
is_part-cons n (whole m) sha1 ps h = ap (λ b. m == n || b) h
is_part-cons n (scalar out json) sha1 ps h = h
is_part-cons n (object out json) sha1 ps h = h

member-numbers :
    (n : ℕ) (ps : List CompletedPart) → member n (numbers ps) ≡ any (is_part (whole n)) ps
member-numbers n [] = refl
member-numbers n (p ∷ ps) = is_part-cons n p.part_number p.sha1 ps (member-numbers n ps)

All-append_one : (P : ℕ → Type 0) (xs : List ℕ) (x : ℕ) → All P xs → P x → All P (xs ++ x ∷ [])
All-append_one P [] x a p = (p, tt)
All-append_one P (y ∷ xs) x a p = (a.0, All-append_one P xs x a.1 p)

-- A new value in range fits in.
pub AreParts-add :
    (n : PartNumber) (sha1 : String) (ps : List CompletedPart)
    → is_out_of_range n ≡ false
    → any (is_part n) ps ≡ false
    → AreParts ps
    → AreParts (ps ++ record { part_number = n; sha1 = sha1 } ∷ [])
AreParts-add (whole n) sha1 ps range new a =
    rw (numbers-append ps (record { part_number = whole n; sha1 = sha1 } ∷ [])) (
      Distinct-append (numbers ps) (n ∷ []) a.0 (refl, tt)
          (λ x m. ground (arith, member-numbers n ps, new, m)),
      All-append_one (λ (n : ℕ). (1 ≤ n) × (n ≤ max_part)) (numbers ps) n a.1
          (ground arith, ground arith),
    )
AreParts-add (scalar out json) sha1 ps range new a =
    rw
      (
        numbers-append ps (record { part_number = scalar out json; sha1 = sha1 } ∷ []),
        append-nil (numbers ps),
      )
      a
AreParts-add (object out json) sha1 ps range new a =
    rw
      (
        numbers-append ps (record { part_number = object out json; sha1 = sha1 } ∷ []),
        append-nil (numbers ps),
      )
      a
