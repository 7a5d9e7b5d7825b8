-- ===== src/Shares/Unused.antt =====
-- The search for a slug that no other share has.
use native.Mathlib.Decide.{ℕ_discrete}
use aamenn_backend.Base.{
  ==_refl, Bool-cases, List, String, [], ap, arith, false, inl, inr, length, length-select-le, ltb,
  not, ok, refl, same_codes, select, subst, suc, sym, true, zero, ℕ, ◌%◌, ◌*◌, ◌++◌, ◌+◌, ◌-◌, ◌/◌,
  ◌<◌, ◌==◌, ◌∙◌, ◌∷◌, ◌≡◌, ◌≢◌, ◌≤◌,
}
use aamenn_backend.Shares.Slugs.{
  candidate, decimal, digits, generate_unique_slug, is_taken, normalize_slug, slug_loop,
}

same_codes-eq : (cs ds : List ℕ) → same_codes cs ds ≡ true → cs ≡ ds
same_codes-eq [] [] h = refl
same_codes-eq [] (d ∷ ds) h = cc
same_codes-eq (c ∷ cs) [] h = cc
same_codes-eq (c ∷ cs) (d ∷ ds) h =
    let e : c ≡ d = ground (arith, h) in
    let rest : cs ≡ ds = same_codes-eq cs ds (ground (arith, h)) in
    ap (λ x. x ∷ cs) e ∙ ap (λ xs. d ∷ xs) rest

pub same_codes_refl : (cs : List ℕ) → same_codes cs cs ≡ true
same_codes_refl [] = refl
same_codes_refl (c ∷ cs) = ground (arith, ==_refl c, same_codes_refl cs)

-- The number that digits stand for, after those of `n`.
abbrev value_after : ℕ → List ℕ → ℕ
value_after n [] = n
value_after n (c ∷ cs) = value_after (n * 10 + (c - b'0')) cs

value_after-digits :
    (f n : ℕ) (rest : List ℕ) → n < f → value_after 0 (digits f n rest) ≡ value_after n rest
unfolding digits
value_after-digits zero n rest h = omega arith
value_after-digits (suc f) n rest h = elim (Bool-cases (ltb n 10)) [
  | inl last ↦
      rw last (ap (λ k. value_after k rest) (let e : 0 * 10 + (n + 48 - 48) ≡ n = omega arith in e))
  | inr more ↦
      let big : 10 ≤ n = ground (arith, more) in
      rw more (
        value_after-digits f (n / 10) ((n % 10 + 48) ∷ rest) (omega (arith, h, big))
        ∙ ap (λ k. value_after k rest)
            (let e : n / 10 * 10 + (n % 10 + 48 - 48) ≡ n = omega arith in e))
]

decimal-injective : (m n : ℕ) → decimal m ≡ decimal n → m ≡ n
unfolding decimal
decimal-injective m n e =
    sym (value_after-digits (suc m) m [] (omega arith))
    ∙ ap (value_after 0) e
    ∙ value_after-digits (suc n) n [] (omega arith)

append-cancel : (base cs ds : List ℕ) → base ++ cs ≡ base ++ ds → cs ≡ ds
append-cancel [] cs ds e = e
append-cancel (b ∷ base) cs ds e = append-cancel base cs ds (cc e)

append-longer : (base : List ℕ) (c : ℕ) (cs : List ℕ) → base ≢ base ++ (c ∷ cs)
append-longer [] c cs e = cc
append-longer (b ∷ base) c cs e = append-longer base c cs (cc e)

candidate-injective : (base : List ℕ) (i j : ℕ) → candidate base i ≡ candidate base j → i ≡ j
unfolding candidate
candidate-injective base i j e = elim (Bool-cases (i == 1)) [
  | inl first ↦ elim (Bool-cases (j == 1)) [
    | inl also ↦ ground (arith, first, also)
    | inr later ↦
        let e' : base ≡ base ++ (45 ∷ decimal j) = ground (arith, e, first, later) in
        absurd (append-longer base 45 (decimal j) e')
  ]
  | inr later ↦ elim (Bool-cases (j == 1)) [
    | inl first ↦
        let e' : base ≡ base ++ (45 ∷ decimal i) = ground (arith, e, first, later) in
        absurd (append-longer base 45 (decimal i) e')
    | inr also ↦
        let e' : base ++ (45 ∷ decimal i) ≡ base ++ (45 ∷ decimal j) =
          ground (arith, e, later, also) in
        let e'' = append-cancel base (45 ∷ decimal i) (45 ∷ decimal j) e' in
        decimal-injective i j (cc e'')
  ]
]

-- The slugs but one.
abbrev without : List ℕ → List (List ℕ) → List (List ℕ)
without slug = select (λ s. not (same_codes s slug))

length-without :
    (slug : List ℕ) (taken : List (List ℕ))
    → is_taken slug taken ≡ true
    → suc (length (without slug taken)) ≤ length taken
length-without slug [] h = cc
length-without slug (s ∷ taken) h = elim (Bool-cases (same_codes s slug)) [
  | inl this ↦
      rw this (let le = length-select-le (λ x. not (same_codes x slug)) taken in omega (arith, le))
  | inr other ↦
      rw other (let le = length-without slug taken (ground (arith, h, other)) in omega (arith, le))
]

is_taken-without :
    (slug other : List ℕ) (taken : List (List ℕ))
    → slug ≢ other
    → is_taken other (without slug taken) ≡ is_taken other taken
is_taken-without slug other [] ne = refl
is_taken-without slug other (s ∷ taken) ne = elim (Bool-cases (same_codes s slug)) [
  | inl this ↦ elim (Bool-cases (same_codes s other)) [
    | inl both ↦ absurd (ne (sym (same_codes-eq s slug this) ∙ same_codes-eq s other both))
    | inr absent ↦ ground (arith, this, absent, is_taken-without slug other taken ne)
  ]
  | inr absent ↦ ground (arith, absent, is_taken-without slug other taken ne)
]

slug_loop-agree :
    (n : ℕ) (base : List ℕ) (c : ℕ) (taken taken' : List (List ℕ))
    → ((j : ℕ) → c ≤ j → is_taken (candidate base j) taken ≡ is_taken (candidate base j) taken')
    → slug_loop n base c taken ≡ slug_loop n base c taken'
unfolding slug_loop
slug_loop-agree zero base c taken taken' h = refl
slug_loop-agree (suc n) base c taken taken' h = ground (
  arith,
  h c (omega arith),
  slug_loop-agree n base (c + 1) taken taken' (λ j le. h j (omega (arith, le))),
)

-- What the search finds: the first candidate that is not taken.
abbrev pub IsFirstUnused : List ℕ → ℕ → List (List ℕ) → ℕ → Type 0
IsFirstUnused base c taken k =
    (c ≤ k)
    × (is_taken (candidate base k) taken ≡ false)
    × ((j : ℕ) → c ≤ j → j < k → is_taken (candidate base j) taken ≡ true)

slug_loop-total :
    (n : ℕ) (base : List ℕ) (c : ℕ) (taken : List (List ℕ))
    → length taken < n
    → (k : ℕ) × (slug_loop n base c taken ≡ ok (candidate base k)) × IsFirstUnused base c taken k
unfolding slug_loop
slug_loop-total zero base c taken h = elim (let e : ⊥ = omega (arith, h) in e) [ ]
slug_loop-total (suc n) base c taken h = elim (Bool-cases (is_taken (candidate base c) taken)) [
  | inr unused ↦ (
    c,
    rw unused refl,
    (omega arith, unused, λ j le lt. elim (let e : ⊥ = omega (arith, le, lt) in e) [ ]),
  )
  | inl used ↦
      let slug = candidate base c in
      let agree : (j : ℕ)
          → c + 1 ≤ j
          → is_taken (candidate base j) taken ≡ is_taken (candidate base j) (without slug taken) =
        λ j le. sym (
          is_taken-without slug (candidate base j) taken (λ e.
            let same_index : c ≡ j = candidate-injective base c j e in
            omega (arith, same_index, le))) in
      let shorter = length-without slug taken used in
      let (k, found, first) =
        slug_loop-total n base (c + 1) (without slug taken) (omega (arith, h, shorter)) in
      (
        k,
        rw used (slug_loop-agree n base (c + 1) taken (without slug taken) agree ∙ found),
        (
          omega (arith, first.0),
          agree k first.0 ∙ first.1,
          λ j lo hi. elim (ℕ_discrete c j) [
            | yes this ↦ subst (λ i. is_taken (candidate base i) taken ≡ true) this used
            | no later ↦
                let above : c + 1 ≤ j = omega (arith, lo, later) in
                agree j above ∙ first.2 j above hi
          ],
        ),
      )
]

-- From any text and any slugs of other shares, the search ends: with the normalized text itself,
-- or with it and the least number from 2 on that makes a slug no other share has.
pub generate_unique_slug-total :
    (base : String) (taken : List (List ℕ))
    → (k : ℕ) × (generate_unique_slug base taken ≡ ok (candidate (normalize_slug base) k))
      × IsFirstUnused (normalize_slug base) 1 taken k
unfolding generate_unique_slug
generate_unique_slug-total base taken =
    slug_loop-total (length taken + 1) (normalize_slug base) 1 taken (omega arith)
