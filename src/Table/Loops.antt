-- ===== src/Table/Loops.antt =====
-- A loop that saves rows one after the other, from a list that a query returned before, is one
-- update of the table.
use aamenn_backend.Base.{
  All, Bool, List, [], arith, if◌then◌else◌, none, refl, select, update_where, ℕ, ◌&&◌, ◌∷◌, ◌≡◌,
  ◌≢◌,
}
use aamenn_backend.Table.{Entity, IsKeyed, get, save}

module _ {Row : Type 0} ⦃e : Entity Row⦄ where
  -- `for (const r of rows) { if (p(r)) save(g(r)) }`
  unfoldable pub save_loop : (Row → Bool) → (Row → Row) → List Row → List Row → List Row
  save_loop p g [] t = t
  save_loop p g (r ∷ rows) t = save_loop p g rows (if p r then save (g r) t else t)

  -- No row of the list has this key.
  abbrev Avoids : ℕ → List Row → Type 0
  Avoids k = All (λ (r : Row). e.key r ≢ k)

  Avoids-select : (q : Row → Bool) (k : ℕ) (t : List Row) → get k t ≡ none → Avoids k (select q t)
  Avoids-select q k [] h = tt
  Avoids-select q k (r ∷ t) h = ground (arith, Avoids-select q k t)

  module _ (p : Row → Bool) (g : Row → Row) (same : (r : Row) → e.key (g r) ≡ e.key r) where
    save_loop-cons :
        (rows : List Row) (x : Row) (t : List Row)
        → Avoids (e.key x) rows
        → save_loop p g rows (x ∷ t) ≡ x ∷ save_loop p g rows t
    unfolding save_loop
    save_loop-cons [] x t a = refl
    save_loop-cons (r ∷ rows) x t a =
        ground
          (arith, same r, save_loop-cons rows x t a.1, save_loop-cons rows x (save (g r) t) a.1)

    pub save_loop-update_where :
        (q : Row → Bool) (t : List Row)
        → IsKeyed t
        → save_loop p g (select q t) t ≡ update_where (λ r. q r && p r) g t
    unfolding save_loop
    save_loop-update_where q [] k = refl
    save_loop-update_where q (r ∷ t) k =
        let away = Avoids-select q (e.key r) t k.0 in
        ground (
          arith,
          same r,
          save_loop-cons (select q t) r t away,
          save_loop-cons (select q t) (g r) t (rw (same r) away),
          save_loop-update_where q t k.1,
        )
