-- ===== src/Base/Options.antt =====
-- Values that may be null.
use Prim.Native.Nat.{ℕ}
use Prim.Native.String.{String}
use mathlib.Core.Option.{Option, none, some}

-- `x ?? 0`
abbrev pub or_zero : Option ℕ → ℕ
or_zero none = 0
or_zero (some n) = n

-- `x || null` of a text
abbrev pub or_null : Option String → Option String
or_null none = none
or_null (some String.[]) = none
or_null (some (String.◌∷◌ c s)) = some (String.◌∷◌ c s)

-- A field of a partial update, where an absent one keeps the old value.
abbrev pub or_old {ℓ} : {A : Type ℓ} → Option A → A → A
or_old none old = old
or_old (some new) old = new
