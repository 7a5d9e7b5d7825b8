-- ===== src/Base/Texts.antt =====
-- Texts as lists of code points.
use Prim.Native.Nat.{ℕ, zero, suc, ◌+◌}
use Prim.Native.Char.{code}
use Prim.Native.String.{String}
use mathlib.Core.Bool.{Bool, true, false, ◌&&◌, ◌||◌}
use mathlib.Core.List.{List, [], ◌∷◌, ◌++◌}
use aamenn_backend.Base.Tests.{if◌then◌else◌, leb, ◌==◌}

-- A text as the list of its code points.
abbrev pub codes : String → List ℕ
codes String.[] = []
codes (String.◌∷◌ c s) = code c ∷ codes s

-- `toLowerCase`, as far as letters of ASCII come out of it: those of ASCII, the sign for kelvin,
-- and the dotted capital I, which gives an i and a dot above. What is left alone here is
-- another character in either case.
abbrev pub lower : ℕ → List ℕ
lower c =
    if leb b'A' c && leb c b'Z'
    then (c + 32) ∷ []
    else (if c == 0x212A then b'k' ∷ [] else (if c == 0x130 then b'i' ∷ (0x307 ∷ []) else c ∷ []))

abbrev pub lower_all : List ℕ → List ℕ
lower_all [] = []
lower_all (c ∷ cs) = lower c ++ lower_all cs

abbrev pub same_codes : List ℕ → List ℕ → Bool
same_codes [] [] = true
same_codes [] (d ∷ ds) = false
same_codes (c ∷ cs) [] = false
same_codes (c ∷ cs) (d ∷ ds) = c == d && same_codes cs ds

-- `includes`
abbrev pub starts_with : List ℕ → List ℕ → Bool
starts_with [] cs = true
starts_with (p ∷ ps) [] = false
starts_with (p ∷ ps) (c ∷ cs) = p == c && starts_with ps cs

abbrev pub includes : List ℕ → List ℕ → Bool
includes part [] = starts_with part []
includes part (c ∷ cs) = starts_with part (c ∷ cs) || includes part cs

-- `split`, and `join` of the first parts
abbrev pub add_first : ℕ → List (List ℕ) → List (List ℕ)
add_first c [] = (c ∷ []) ∷ []
add_first c (p ∷ ps) = (c ∷ p) ∷ ps

abbrev pub split : ℕ → List ℕ → List (List ℕ)
split sep [] = [] ∷ []
split sep (c ∷ cs) = let rest = split sep cs in if c == sep then [] ∷ rest else add_first c rest

abbrev pub join_first : ℕ → ℕ → List (List ℕ) → List ℕ
join_first sep zero ps = []
join_first sep (suc n) [] = []
join_first sep (suc zero) (p ∷ ps) = p
join_first sep (suc (suc n)) (p ∷ []) = p
join_first sep (suc (suc n)) (p ∷ (q ∷ ps)) = p ++ (sep ∷ join_first sep (suc n) (q ∷ ps))
