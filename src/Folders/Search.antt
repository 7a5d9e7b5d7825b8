-- ===== src/Folders/Search.antt =====
-- The breadth-first loop of `collectDescendantFolderIds`, for any map from a folder to its
-- parent and the lists of children that go with it.
use native.Mathlib.Decide.{ℕ_discrete}
use aamenn_backend.Base.{
  Distinct, Distinct-append, List, Option-cases, [], arith, false, inl, inr, length, length-append,
  member, member-append, member-append_cases, member-append_false, member-append_none, ok, refl,
  some, suc, true, zero, ℕ, ◌++◌, ◌+◌, ◌↔◌, ◌∷◌, ◌≡◌, ◌≢◌, ◌≤◌, ◌⊎◌,
}
use aamenn_backend.Entities.Scalars.{Uuid}
use aamenn_backend.Folders.Chains.{IsAcyclic, Parents, up}
use aamenn_backend.Folders.Store.{collect_loop}

-- What holds before each round of the loop.
pub record Inv (par : Parents) (root : Uuid) (queue result : List Uuid) : Type 0 where
  pub distinct : Distinct queue
  pub seen : (x : Uuid) → member x queue ≡ true → (x ≡ root) ⊎ (member x result ≡ true)
  pub closed :
      (p c : Uuid)
      → par c ≡ some p
      → (p ≡ root) ⊎ (member p result ≡ true)
      → member p queue ≡ false
      → member c result ≡ true
  pub caused :
      (c : Uuid)
      → member c result ≡ true
      → (p : Uuid) × (par c ≡ some p)
        × ((p ≡ root) ⊎ (member p result ≡ true))
        × (member p queue ≡ false)
  pub below : (c : Uuid) → member c result ≡ true → (n : ℕ) × (up par (suc n) c ≡ some root)

module _ (par : Parents) (found : Uuid → List Uuid)
    (kids : (p c : Uuid) → (member c (found p) ≡ true) ↔ (par c ≡ some p))
    (apart : (p : Uuid) → Distinct (found p)) (root : Uuid) (acyclic : IsAcyclic par) where
  -- The root is no child of a folder that was seen.
  root-not_child :
      (id : Uuid) (queue result : List Uuid)
      → Inv par root queue result
      → (id ≡ root) ⊎ (member id result ≡ true)
      → par root ≢ some id
  root-not_child id queue result v (inl top) e = acyclic root 0 (ground arith)
  root-not_child id queue result v (inr old) e =
      let (n, r) = v.below id old in acyclic root (suc n) (ground arith)

  -- No folder that was seen is a child of the one at the head of the queue.
  unseen :
      (id : Uuid) (queue result : List Uuid)
      → Inv par root (id ∷ queue) result
      → (c : Uuid) → (c ≡ root) ⊎ (member c result ≡ true)
      → par c ≢ some id
  unseen id queue result v c (inl top) e =
      root-not_child id (id ∷ queue) result v (v.seen id (ground arith)) (rw (← top) e)
  unseen id queue result v c (inr old) e =
      let (p, par_c, _, gone) = v.caused c old in ground (arith, par_c, gone, e)

  unseen-member :
      (id : Uuid) (queue result : List Uuid)
      → Inv par root (id ∷ queue) result
      → (c : Uuid) → (c ≡ root) ⊎ (member c result ≡ true)
      → member c (found id) ≡ false
  unseen-member id queue result v c s = ground (arith, unseen id queue result v c s, (kids id c).0)

  module _ (id : Uuid) (queue result : List Uuid) (v : Inv par root (id ∷ queue) result) where
    head_seen : (id ≡ root) ⊎ (member id result ≡ true)
    head_seen = v.seen id (ground arith)

    kid_fresh : (c : Uuid) → member c (found id) ≡ true → member c result ≡ false
    kid_fresh c m = ground (arith, unseen-member id queue result v c)

    queue_seen : (x : Uuid) → member x queue ≡ true → (x ≡ root) ⊎ (member x result ≡ true)
    queue_seen x m = v.seen x (ground arith)

    seen_still :
        (x : Uuid)
        → (x ≡ root) ⊎ (member x result ≡ true)
        → (x ≡ root) ⊎ (member x (result ++ found id) ≡ true)
    seen_still x s = ground (arith, member-append x result (found id), s)

    seen_before :
        (p : Uuid)
        → (p ≡ root) ⊎ (member p (result ++ found id) ≡ true)
        → member p (found id) ≡ false
        → (p ≡ root) ⊎ (member p result ≡ true)
    seen_before p s no_child = ground (arith, member-append p result (found id), s)

    step-closed :
        (p c : Uuid)
        → par c ≡ some p
        → (p ≡ root) ⊎ (member p (result ++ found id) ≡ true)
        → member p (queue ++ found id) ≡ false
        → member c (result ++ found id) ≡ true
    step-closed p c e s gone =
        let (not_queued, no_child) = member-append_false p queue (found id) gone in
        elim (ℕ_discrete p id) [
          | yes this ↦
              ground (arith, member-append c result (found id), (kids id c).1 (rw (← this) e))
          | no other ↦ ground (
            arith,
            member-append c result (found id),
            v.closed p c e (seen_before p s no_child) (ground arith),
          )
        ]

    step-caused :
        (c : Uuid)
        → member c (result ++ found id) ≡ true
        → (p : Uuid) × (par c ≡ some p)
          × ((p ≡ root) ⊎ (member p (result ++ found id) ≡ true))
          × (member p (queue ++ found id) ≡ false)
    step-caused c m = elim (member-append_cases c result (found id) m) [
      | inl old ↦
          let (p, e, s, gone) = v.caused c old in
          (
            p,
            e,
            seen_still p s,
            member-append_none p queue (found id) (ground (arith, gone))
                (unseen-member id queue result v p s),
          )
      | inr new ↦ (
        id,
        (kids id c).0 new,
        seen_still id head_seen,
        member-append_none id queue (found id) (ground (arith, v.distinct))
            (unseen-member id queue result v id head_seen),
      )
    ]

    step-below :
        (c : Uuid) → member c (result ++ found id) ≡ true → (n : ℕ) × (up par (suc n) c ≡ some root)
    step-below c m = elim (member-append_cases c result (found id) m) [
      | inl old ↦ v.below c old
      | inr new ↦
          let e = (kids id c).0 new in
          elim head_seen [
            | inl top ↦ (0, ground arith)
            | inr old ↦ let (n, r) = v.below id old in (suc n, ground arith)
          ]
    ]

    step-Inv : Inv par root (queue ++ found id) (result ++ found id)
    step-Inv = record {
      distinct =
          Distinct-append queue (found id) v.distinct.1 (apart id)
            (λ x m. unseen-member id queue result v x (queue_seen x m));
      seen = λ x m. ground (
        arith,
        member-append_cases x queue (found id) m,
        queue_seen x,
        member-append x result (found id),
      );
      closed = step-closed;
      caused = step-caused;
      below = step-below;
    }

  start-Inv : Inv par root (root ∷ []) []
  start-Inv = record {
    distinct = (refl, tt);
    seen = λ x m. inl (ground arith);
    closed = λ p c e s gone. ground arith;
    caused = λ c m. cc;
    below = λ c m. cc;
  }

  loop-Inv :
      (fuel : ℕ) (queue result : List Uuid) {r : List Uuid}
      → Inv par root queue result
      → collect_loop fuel found queue result ≡ ok r
      → Inv par root [] r
  unfolding collect_loop
  loop-Inv fuel [] result {r} v h = let e : result ≡ r = cc in rw (← e) v
  loop-Inv zero (id ∷ queue) result v h = cc
  loop-Inv (suc fuel) (id ∷ queue) result v h =
      loop-Inv fuel (queue ++ found id) (result ++ found id) (step-Inv id queue result v) h

  reached :
      (r : List Uuid)
      → Inv par root [] r
      → (n : ℕ) (c : Uuid) → up par (suc n) c ≡ some root
      → member c r ≡ true
  reached r v zero c e = elim (Option-cases (par c)) [
    | inl top ↦ ground arith
    | inr (p, at_p) ↦ v.closed p c at_p (inl (ground arith)) refl
  ]
  reached r v (suc n) c e = elim (Option-cases (par c)) [
    | inl top ↦ ground arith
    | inr (p, at_p) ↦ v.closed p c at_p (inr (reached r v n p (ground arith))) refl
  ]

  -- What the loop returns is exactly what lies below the root.
  pub loop-descendants :
      (fuel : ℕ) {r : List Uuid}
      → collect_loop fuel found (root ∷ []) [] ≡ ok r
      → (c : Uuid) → (member c r ≡ true) ↔ ((n : ℕ) × (up par (suc n) c ≡ some root))
  loop-descendants fuel {r} h c =
      let v = loop-Inv fuel (root ∷ []) [] start-Inv h in (v.below c, λ w. reached r v w.0 c w.1)

  -- The loop ends, where `left` counts rows that it has not yet returned.
  module _ (left : List Uuid → ℕ)
      (drops : (id : Uuid) (result : List Uuid)
        → ((c : Uuid) → member c (found id) ≡ true → member c result ≡ false)
        → left (result ++ found id) + length (found id) ≤ left result) where
    loop_ends :
        (fuel : ℕ) (queue result : List Uuid)
        → Inv par root queue result
        → length queue + left result ≤ fuel
        → (r : List Uuid) × (collect_loop fuel found queue result ≡ ok r)
    unfolding collect_loop
    loop_ends fuel [] result v h = (result, refl)
    loop_ends zero (id ∷ queue) result v h = absurd (omega arith)
    loop_ends (suc fuel) (id ∷ queue) result v h =
        loop_ends fuel (queue ++ found id) (result ++ found id) (step-Inv id queue result v) (
          omega
            (arith, length-append queue (found id), drops id result (kid_fresh id queue result v)))

    pub loop_total :
        (fuel : ℕ)
        → suc (left []) ≤ fuel
        → (r : List Uuid) × (collect_loop fuel found (root ∷ []) [] ≡ ok r)
    loop_total fuel h = loop_ends fuel (root ∷ []) [] start-Inv (omega arith)
