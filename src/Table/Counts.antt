-- ===== src/Table/Counts.antt =====
-- How many rows of a table satisfy a test, after a write.
use aamenn_backend.Base.{
  Bool, List, [], any, arith, false, if◌then◌else◌, length, none, refl, select, some, true,
  update_where, ◌+◌, ◌∷◌, ◌≡◌, ◌≤◌,
}
use aamenn_backend.Table.{Entity, get, save}

module _ {Row : Type 0} ⦃e : Entity Row⦄ (p : Row → Bool) where
  pub count-insert :
      (r : Row) (t : List Row)
      → get (e.key r) t ≡ none
      → length (select p (save r t)) ≡ length (select p t) + (if p r then 1 else 0)
  count-insert r [] h = ground arith
  count-insert r (x ∷ t) h = ground (arith, count-insert r t)

  pub count-replace-le :
      (r s : Row) (t : List Row)
      → get (e.key r) t ≡ some s
      → (p r ≡ true → p s ≡ true)
      → length (select p (save r t)) ≤ length (select p t)
  count-replace-le r s [] h k = ground arith
  count-replace-le r s (x ∷ t) h k = ground (arith, count-replace-le r s t)

  pub count-update_where-le :
      (q : Row → Bool) (g : Row → Row)
      → ((r : Row) → q r ≡ true → p (g r) ≡ true → p r ≡ true)
      → (t : List Row) → length (select p (update_where q g t)) ≤ length (select p t)
  count-update_where-le q g back [] = ground arith
  count-update_where-le q g back (x ∷ t) = ground (arith, back x, count-update_where-le q g back t)

  pub any-false : (t : List Row) → any p t ≡ false → select p t ≡ []
  any-false [] h = refl
  any-false (x ∷ t) h = ground (arith, any-false t)
