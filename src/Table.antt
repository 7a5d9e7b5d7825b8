-- ===== src/Table.antt =====
-- A database table: its rows, under a primary key. A `where` clause on the primary key picks at
-- most one row; any other clause is a test on the row. The order of a query without an `order`
-- clause is that of the table.
pub mod Loops
pub mod Keys
pub mod Counts
use aamenn_backend.Base.{
  Bool, List, Option, [], arith, if◌then◌else◌, member, none, not, refl, select, some, update_where,
  ℕ, ◌==◌, ◌∷◌, ◌≡◌,
}

-- `@PrimaryGeneratedColumn('uuid')`
pub record Entity (Row : Type 0) : Type 0 where
  pub key : Row → ℕ

module _ {Row : Type 0} ⦃e : Entity Row⦄ where
  -- `findOne({ where: { id } })`, deleted rows included
  abbrev pub get : ℕ → List Row → Option Row
  get id [] = none
  get id (r ∷ rs) = if e.key r == id then some r else get id rs

  -- `save(row)`: overwrites the row with this key, or inserts it
  abbrev pub save : Row → List Row → List Row
  save r [] = r ∷ []
  save r (x ∷ xs) = if e.key x == e.key r then r ∷ xs else x ∷ save r xs

  -- `delete where id in ids`, `remove(rows)`
  abbrev pub delete_keys : List ℕ → List Row → List Row
  delete_keys ids = select (λ r. not (member (e.key r) ids))

abbrev pub option_filter {ℓ} : {A : Type ℓ} → (A → Bool) → Option A → Option A
option_filter p none = none
option_filter p (some a) = if p a then some a else none

module _ {Row : Type 0} ⦃e : Entity Row⦄ where
  -- `findOne({ where: { id, ...test } })`
  abbrev pub find_one : ℕ → (Row → Bool) → List Row → Option Row
  find_one id test t = option_filter test (get id t)

  pub get-save :
      (id : ℕ) (r : Row) (t : List Row)
      → get id (save r t) ≡ (if e.key r == id then some r else get id t)
  get-save id r [] = refl
  get-save id r (x ∷ t) = ground (arith, get-save id r t)

  pub key-get : (id : ℕ) (t : List Row) {r : Row} → get id t ≡ some r → e.key r ≡ id
  key-get id [] h = cc
  key-get id (x ∷ t) {r} h = ground (arith, key-get id t {r = r})

  pub get-delete_keys :
      (id : ℕ) (ids : List ℕ) (t : List Row)
      → get id (delete_keys ids t) ≡ (if member id ids then none else get id t)
  get-delete_keys id ids [] = ground arith
  get-delete_keys id ids (x ∷ t) = ground (arith, get-delete_keys id ids t)

  abbrev pub option_update : (Row → Bool) → (Row → Row) → Option Row → Option Row
  option_update p g none = none
  option_update p g (some r) = some (if p r then g r else r)

  pub get-update_where :
      (id : ℕ) (p : Row → Bool) (g : Row → Row)
      → ((r : Row) → e.key (g r) ≡ e.key r)
      → (t : List Row) → get id (update_where p g t) ≡ option_update p g (get id t)
  get-update_where id p g same [] = refl
  get-update_where id p g same (x ∷ t) = ground (arith, get-update_where id p g same t, same x)

  -- The primary key is unique.
  abbrev pub IsKeyed : List Row → Type 0
  IsKeyed [] = Unit {0}
  IsKeyed (r ∷ t) = (get (e.key r) t ≡ none) × IsKeyed t
