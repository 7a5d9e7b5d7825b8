-- ===== src/Shares/Normal.antt =====
-- The shape of the slugs that `generateUniqueSlug` starts from.
use aamenn_backend.Base.{
  Bool, Bool-cases, List, String, [], arith, codes, false, inl, inr, length, lower_all, map, refl,
  true, ℕ, ◌&&◌, ◌||◌, ◌∷◌, ◌≡◌, ◌≤◌,
}
use aamenn_backend.Shares.Slugs.{
  collapse, dash_unless_slug, drop_first_dash, drop_last_dash, is_dash, is_slug_code,
  normalize_slug, or_shared, starts_with_dash,
}

abbrev pub all_slug_codes : List ℕ → Bool
all_slug_codes [] = true
all_slug_codes (c ∷ cs) = is_slug_code c && all_slug_codes cs

abbrev pub has_double_dash : List ℕ → Bool
has_double_dash [] = false
has_double_dash (c ∷ cs) = (is_dash c && starts_with_dash cs) || has_double_dash cs

abbrev pub ends_with_dash : List ℕ → Bool
ends_with_dash [] = false
ends_with_dash (c ∷ []) = is_dash c
ends_with_dash (c ∷ (d ∷ cs)) = ends_with_dash (d ∷ cs)

-- A text of lower letters, digits and single dashes that neither starts nor ends with one.
abbrev pub IsSlug : List ℕ → Type 0
IsSlug cs =
    (all_slug_codes cs ≡ true)
    × (has_double_dash cs ≡ false)
    × (starts_with_dash cs ≡ false)
    × (ends_with_dash cs ≡ false)

map-all_slug_codes : (cs : List ℕ) → all_slug_codes (map dash_unless_slug cs) ≡ true
map-all_slug_codes [] = refl
map-all_slug_codes (c ∷ cs) = ground (arith, map-all_slug_codes cs)

collapse-starts_with_dash : (cs : List ℕ) → starts_with_dash (collapse cs) ≡ starts_with_dash cs
collapse-starts_with_dash [] = refl
collapse-starts_with_dash (c ∷ cs) = ground (arith, collapse-starts_with_dash cs)

collapse-all_slug_codes :
    (cs : List ℕ) → all_slug_codes cs ≡ true → all_slug_codes (collapse cs) ≡ true
collapse-all_slug_codes [] h = refl
collapse-all_slug_codes (c ∷ cs) h = ground (arith, h, collapse-all_slug_codes cs)

collapse-has_double_dash : (cs : List ℕ) → has_double_dash (collapse cs) ≡ false
collapse-has_double_dash [] = refl
collapse-has_double_dash (c ∷ cs) =
    ground (arith, collapse-has_double_dash cs, collapse-starts_with_dash cs)

first_dropped :
    (cs : List ℕ)
    → all_slug_codes cs ≡ true
    → has_double_dash cs ≡ false
    → (all_slug_codes (drop_first_dash cs) ≡ true)
      × (has_double_dash (drop_first_dash cs) ≡ false)
      × (starts_with_dash (drop_first_dash cs) ≡ false)
first_dropped [] a d = (refl, refl, refl)
first_dropped (c ∷ cs) a d = elim (Bool-cases (is_dash c)) [
  | inl dash ↦ rw dash (ground (arith, a), ground (arith, d), ground (arith, d, dash))
  | inr other ↦ rw other (ground (arith, a), ground (arith, d, other), ground (arith, other))
]

drop_last_dash-starts_with_dash :
    (cs : List ℕ) → starts_with_dash cs ≡ false → starts_with_dash (drop_last_dash cs) ≡ false
drop_last_dash-starts_with_dash [] h = refl
drop_last_dash-starts_with_dash (c ∷ []) h = ground (arith, h)
drop_last_dash-starts_with_dash (c ∷ (d ∷ cs)) h = h

later_start :
    (d : ℕ) (cs : List ℕ)
    → starts_with_dash (d ∷ cs) ≡ false
    → starts_with_dash (drop_last_dash (d ∷ cs)) ≡ false
later_start d cs h = drop_last_dash-starts_with_dash (d ∷ cs) h

last_dropped :
    (cs : List ℕ)
    → all_slug_codes cs ≡ true
    → has_double_dash cs ≡ false
    → (all_slug_codes (drop_last_dash cs) ≡ true) × (has_double_dash (drop_last_dash cs) ≡ false)
last_dropped [] a d = (refl, refl)
last_dropped (c ∷ []) a d = elim (Bool-cases (is_dash c)) [
  | inl dash ↦ rw dash (refl, refl)
  | inr other ↦ rw other (ground (arith, a), ground (arith, other))
]
last_dropped (c ∷ (e ∷ cs)) a d =
    let (a', d') = last_dropped (e ∷ cs) (ground (arith, a)) (ground (arith, d)) in
    (
      ground (arith, a, a'),
      elim (Bool-cases (is_dash c)) [
        | inl dash ↦ ground (arith, d, d', dash, later_start e cs)
        | inr other ↦ ground (arith, d', other)
      ],
    )

last_dropped-ends_with_dash :
    (cs : List ℕ) → has_double_dash cs ≡ false → ends_with_dash (drop_last_dash cs) ≡ false
last_dropped-ends_with_dash [] d = refl
last_dropped-ends_with_dash (c ∷ []) d = ground arith
last_dropped-ends_with_dash (c ∷ (e ∷ [])) d = ground (arith, d)
last_dropped-ends_with_dash (c ∷ (e ∷ (x ∷ cs))) d =
    last_dropped-ends_with_dash (e ∷ (x ∷ cs)) (ground (arith, d))

or_shared-IsSlug : (cs : List ℕ) → IsSlug cs → IsSlug (or_shared cs)
or_shared-IsSlug [] h = (refl, refl, refl, refl)
or_shared-IsSlug (c ∷ cs) h = h

or_shared-length : (cs : List ℕ) → 1 ≤ length (or_shared cs)
or_shared-length [] = omega arith
or_shared-length (c ∷ cs) = omega arith

-- From any text, the normalized slug is not empty and has only lower letters of ASCII, digits and
-- single dashes, with none at its start or its end.
pub normalize_slug-IsSlug :
    (base : String) → IsSlug (normalize_slug base) × (1 ≤ length (normalize_slug base))
unfolding normalize_slug
normalize_slug-IsSlug base =
    let cs = collapse (map dash_unless_slug (lower_all (codes base))) in
    let all =
      collapse-all_slug_codes (map dash_unless_slug (lower_all (codes base)))
        (map-all_slug_codes (lower_all (codes base))) in
    let single = collapse-has_double_dash (map dash_unless_slug (lower_all (codes base))) in
    let (all1, single1, starts1) = first_dropped cs all single in
    let (all2, single2) = last_dropped (drop_first_dash cs) all1 single1 in
    let starts2 = drop_last_dash-starts_with_dash (drop_first_dash cs) starts1 in
    let ends2 = last_dropped-ends_with_dash (drop_first_dash cs) single1 in
    (
      or_shared-IsSlug (drop_last_dash (drop_first_dash cs)) (all2, single2, starts2, ends2),
      or_shared-length (drop_last_dash (drop_first_dash cs)),
    )
