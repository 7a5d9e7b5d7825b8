-- ===== src/Shares/Slugs.antt =====
-- `generateUniqueSlug`: texts as lists of code points.
use aamenn_backend.Base.{
  Bool, List, Result, String, [], codes, err, false, if◌then◌else◌, leb, length, lower_all, ltb,
  map, ok, same_codes, stuck, suc, zero, ℕ, ◌%◌, ◌&&◌, ◌++◌, ◌+◌, ◌/◌, ◌==◌, ◌||◌, ◌∷◌,
}

abbrev pub is_dash : ℕ → Bool
is_dash c = c == b'-'

abbrev pub is_slug_code : ℕ → Bool
is_slug_code c = (leb b'a' c && leb c b'z') || (leb b'0' c && leb c b'9') || is_dash c

-- `.replace(/[^a-z0-9-]/g, '-')`
abbrev pub dash_unless_slug : ℕ → ℕ
dash_unless_slug c = if is_slug_code c then c else b'-'

-- `.replace(/-+/g, '-')`: the last dash of each run stays
abbrev pub starts_with_dash : List ℕ → Bool
starts_with_dash [] = false
starts_with_dash (c ∷ cs) = is_dash c

abbrev pub collapse : List ℕ → List ℕ
collapse [] = []
collapse (c ∷ cs) = if is_dash c && starts_with_dash cs then collapse cs else c ∷ collapse cs

-- `.replace(/^-|-$/g, '')`
abbrev pub drop_first_dash : List ℕ → List ℕ
drop_first_dash [] = []
drop_first_dash (c ∷ cs) = if is_dash c then cs else c ∷ cs

abbrev pub drop_last_dash : List ℕ → List ℕ
drop_last_dash [] = []
drop_last_dash (c ∷ []) = if is_dash c then [] else c ∷ []
drop_last_dash (c ∷ (d ∷ cs)) = c ∷ drop_last_dash (d ∷ cs)

abbrev pub or_shared : List ℕ → List ℕ
or_shared [] = codes "shared"
or_shared (c ∷ cs) = c ∷ cs

unfoldable pub normalize_slug : String → List ℕ
normalize_slug base =
    or_shared
      (drop_last_dash (drop_first_dash (collapse (map dash_unless_slug (lower_all (codes base))))))

-- The decimal digits of a number before others.
unfoldable pub digits : ℕ → ℕ → List ℕ → List ℕ
digits zero n rest = rest
digits (suc f) n rest =
    let more = digits f (n / 10) ((n % 10 + b'0') ∷ rest) in
    if ltb n 10 then (n + b'0') ∷ rest else more

unfoldable pub decimal : ℕ → List ℕ
unfolding digits
decimal n = digits (suc n) n []

-- The slug in the round of `counter`; the first round is that of 1.
unfoldable pub candidate : List ℕ → ℕ → List ℕ
unfolding decimal
candidate base counter = if counter == 1 then base else (base ++ (b'-' ∷ decimal counter))

abbrev pub is_taken : List ℕ → List (List ℕ) → Bool
is_taken slug [] = false
is_taken slug (s ∷ ss) = same_codes s slug || is_taken slug ss

unfoldable pub slug_loop : ℕ → List ℕ → ℕ → List (List ℕ) → Result (List ℕ)
unfolding candidate
slug_loop zero base counter taken = err stuck
slug_loop (suc n) base counter taken =
    let more = slug_loop n base (counter + 1) taken in
    if is_taken (candidate base counter) taken then more else ok (candidate base counter)

-- Each round but the last finds another slug that is taken.
unfoldable pub generate_unique_slug : String → List (List ℕ) → Result (List ℕ)
unfolding normalize_slug slug_loop
generate_unique_slug base taken = slug_loop (length taken + 1) (normalize_slug base) 1 taken
