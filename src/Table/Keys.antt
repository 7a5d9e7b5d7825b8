-- ===== src/Table/Keys.antt =====
-- Writes keep the primary keys unique.
use aamenn_backend.Base.{Bool, List, [], arith, none, refl, select, update_where, ℕ, ◌∷◌, ◌≡◌}
use aamenn_backend.Table.{Entity, IsKeyed, get, get-save, get-update_where, save}

module _ {Row : Type 0} ⦃e : Entity Row⦄ where
  pub IsKeyed-update_where :
      (p : Row → Bool) (g : Row → Row)
      → ((r : Row) → e.key (g r) ≡ e.key r)
      → (t : List Row) → IsKeyed t
      → IsKeyed (update_where p g t)
  IsKeyed-update_where p g same [] k = tt
  IsKeyed-update_where p g same (r ∷ t) k =
      ground
        (arith, same r, IsKeyed-update_where p g same t k.1, get-update_where (e.key r) p g same t)

  pub IsKeyed-save : (r : Row) (t : List Row) → IsKeyed t → IsKeyed (save r t)
  IsKeyed-save r [] k = (refl, tt)
  IsKeyed-save r (x ∷ t) k = ground (arith, IsKeyed-save r t k.1, get-save (e.key x) r t)

  pub get-select-none :
      (p : Row → Bool) (id : ℕ) (t : List Row) → get id t ≡ none → get id (select p t) ≡ none
  get-select-none p id [] h = refl
  get-select-none p id (r ∷ t) h = ground (arith, get-select-none p id t)

  pub IsKeyed-select : (p : Row → Bool) (t : List Row) → IsKeyed t → IsKeyed (select p t)
  IsKeyed-select p [] k = tt
  IsKeyed-select p (r ∷ t) k =
      ground (arith, IsKeyed-select p t k.1, get-select-none p (e.key r) t k.0)
