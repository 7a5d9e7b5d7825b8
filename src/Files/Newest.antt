-- ===== src/Files/Newest.antt =====
-- The order of `listFiles` (src/modules/files/files.service.ts), and one way to have it.
use aamenn_backend.Base.{
  All, All-insert_with, Bool, Bool-cases, List, [], arith, inl, inr, insert_with, length,
  length-sort_with, refl, select, sort_with, ℕ, ◌∷◌, ◌≡◌, ◌≤◌,
}
use aamenn_backend.Entities.Library.{File, file_entity}
use aamenn_backend.Files.Reads.{is_newer}

-- What `ORDER BY created_at DESC` does, as far as it is documented: the rows come back, the newest
-- first, in some order of those with equal times.
abbrev pub IsNewestFirst : List File → Type 0
IsNewestFirst [] = Unit
IsNewestFirst (f ∷ fs) = All (λ (g : File). g.created_at ≤ f.created_at) fs × IsNewestFirst fs

pub record IsOrder (order : List File → List File) : Type 0 where
  pub rows : (fs : List File) → length (order fs) ≡ length fs
  pub members :
      (q : File → Bool) (fs : List File) → length (select q (order fs)) ≡ length (select q fs)
  pub newest_first : (fs : List File) → IsNewestFirst (order fs)

insert-select :
    (q : File → Bool) (x : File) (fs : List File)
    → length (select q (insert_with is_newer x fs)) ≡ length (select q (x ∷ fs))
insert-select q x [] = refl
insert-select q x (y ∷ fs) = ground (arith, insert-select q x fs)

sort-select :
    (q : File → Bool) (fs : List File)
    → length (select q (sort_with is_newer fs)) ≡ length (select q fs)
sort-select q [] = refl
sort-select q (x ∷ fs) = ground (arith, insert-select q x (sort_with is_newer fs), sort-select q fs)

below-le :
    (m n : ℕ) (fs : List File)
    → m ≤ n
    → All (λ (g : File). g.created_at ≤ m) fs
    → All (λ (g : File). g.created_at ≤ n) fs
below-le m n [] le a = tt
below-le m n (y ∷ fs) le a = (omega (arith, le, a.0), below-le m n fs le a.1)

insert-IsNewestFirst :
    (x : File) (fs : List File) → IsNewestFirst fs → IsNewestFirst (insert_with is_newer x fs)
insert-IsNewestFirst x [] h = (tt, tt)
insert-IsNewestFirst x (y ∷ fs) h = elim (Bool-cases (is_newer x y)) [
  | inl e ↦
      let le : y.created_at ≤ x.created_at = ground (arith, e) in
      rw e ((le, below-le y.created_at x.created_at fs le h.0), h)
  | inr e ↦
      let le : x.created_at ≤ y.created_at = ground (arith, e) in
      rw e (
        All-insert_with is_newer (λ (g : File). g.created_at ≤ y.created_at) x fs le h.0,
        insert-IsNewestFirst x fs h.1,
      )
]

sort-IsNewestFirst : (fs : List File) → IsNewestFirst (sort_with is_newer fs)
sort-IsNewestFirst [] = tt
sort-IsNewestFirst (x ∷ fs) = insert-IsNewestFirst x (sort_with is_newer fs) (sort-IsNewestFirst fs)

pub sort-IsOrder : IsOrder (sort_with is_newer)
sort-IsOrder = record {
  rows = length-sort_with is_newer;
  members = sort-select;
  newest_first = sort-IsNewestFirst;
}
