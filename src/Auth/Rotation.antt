-- ===== src/Auth/Rotation.antt =====
-- Refresh tokens are used once: what the rows of a token that was used look like.
use native.Mathlib.Decide.{ℕ_discrete}
use text.Mathlib.TextEquality.{eq_iff}
use text.Mathlib.Text.{◌==◌ as str_eq}
use aamenn_backend.Base.{
  Bool, Bool-cases, List, Option, Option-cases, String, ap, arith, false, inl, inr, none, refl,
  some, sym, true, update_where, ◌∙◌, ◌≡◌, ◌⊎◌,
}
use aamenn_backend.Table.{IsKeyed, get, get-save, get-update_where, save}
use aamenn_backend.Auth.Service.{Env, Tokens, find_token, has_hash, new_token, revoked}
use aamenn_backend.Entities.Accounts.{RefreshToken, refresh_token_entity}
use aamenn_backend.Entities.Scalars.{Uuid}
use aamenn_backend.Table.Keys.{IsKeyed-save, IsKeyed-update_where}

-- What is documented of `findOne`: it returns a row of the table that fits, where there is one.
pub record IsFindOne (find : (RefreshToken → Bool) → List RefreshToken → Option RefreshToken)
    : Type 0 where
  pub found :
      (q : RefreshToken → Bool) (t : List RefreshToken) (r : RefreshToken)
      → IsKeyed t
      → find q t ≡ some r
      → (get r.id t ≡ some r) × (q r ≡ true)
  pub missing :
      (q : RefreshToken → Bool) (t : List RefreshToken) (i : Uuid) (r : RefreshToken)
      → find q t ≡ none
      → get i t ≡ some r
      → q r ≡ false

-- There are rows of the user with this hash, and all are revoked; ids are unique.
pub record IsSpent (hash : String) (u : Uuid) (t : List RefreshToken) : Type 0 where
  pub keyed : IsKeyed t
  pub all_revoked :
      (i : Uuid) (r : RefreshToken)
      → get i t ≡ some r
      → has_hash hash u r ≡ true
      → r.is_revoked ≡ true
  pub some_row : (i : Uuid) × (r : RefreshToken) × (get i t ≡ some r) × (has_hash hash u r ≡ true)

-- The next row is new: no row has its id, and no row has the hash of the token that is signed next.
pub record IsFresh (c : Tokens) (env : Env) (t : List RefreshToken) : Type 0 where
  pub id : get env.fresh_token t ≡ none
  pub hash :
      (i : Uuid) (r : RefreshToken)
      → get i t ≡ some r
      → str_eq r.token_hash (c.hash_token env.refresh_token) ≡ false

-- No two rows of the user have the hash.
abbrev pub IsOnly : String → Uuid → List RefreshToken → Type 0
IsOnly hash u t =
    (i j : Uuid) (r r' : RefreshToken)
    → get i t ≡ some r
    → get j t ≡ some r'
    → has_hash hash u r ≡ true
    → has_hash hash u r' ≡ true
    → i ≡ j

-- Revoking rows keeps spent tokens spent.
pub IsSpent-update_where :
    (q : RefreshToken → Bool) (hash : String) (u : Uuid) (t : List RefreshToken)
    → IsSpent hash u t
    → IsSpent hash u (update_where q revoked t)
IsSpent-update_where q hash u t v = record {
  keyed = IsKeyed-update_where q revoked (λ x. refl) t v.keyed;
  all_revoked = λ i r at has. elim (Option-cases (get i t)) [
    | inl e ↦ ground (arith, get-update_where i q revoked (λ x. refl) t, e, at)
    | inr (x, e) ↦ elim (Bool-cases (q x)) [
      | inl chosen ↦
          let this : revoked x ≡ r =
            ground (arith, get-update_where i q revoked (λ x. refl) t, e, at, chosen) in
          ap (λ (y : RefreshToken). y.is_revoked) (sym this)
      | inr free ↦
          let this : x ≡ r =
            ground (arith, get-update_where i q revoked (λ x. refl) t, e, at, free) in
          v.all_revoked i r (e ∙ ap some this) has
    ]
  ];
  some_row =
      let (i, x, e, has) = v.some_row in
      elim (Bool-cases (q x)) [
        | inl chosen ↦ (
          i,
          revoked x,
          ground (arith, get-update_where i q revoked (λ x. refl) t, e, chosen),
          has,
        )
        | inr free ↦
            (i, x, ground (arith, get-update_where i q revoked (λ x. refl) t, e, free), has)
      ];
}

-- A row after the row `x` was saved as revoked: that row, or as before.
revoked_or_old :
    (t : List RefreshToken) (x : RefreshToken) (i : Uuid) (r : RefreshToken)
    → get i (save (revoked x) t) ≡ some r
    → (x.id ≡ i × (revoked x ≡ r)) ⊎ (get i t ≡ some r)
revoked_or_old t x i r at = elim (ℕ_discrete x.id i) [
  | yes e ↦ inl (e, ground (arith, get-save i (revoked x) t, e, at))
  | no ne ↦ inr (ground (arith, get-save i (revoked x) t, ne, at))
]

-- A row with the hash is still there.
row_after :
    (hash : String) (u : Uuid) (t : List RefreshToken) (x : RefreshToken)
    → get x.id t ≡ some x
    → (i : Uuid) (r : RefreshToken) → get i t ≡ some r
    → has_hash hash u r ≡ true
    → (i' : Uuid) × (r' : RefreshToken) × (get i' (save (revoked x) t) ≡ some r')
      × (has_hash hash u r' ≡ true)
row_after hash u t x at_x i r at has = elim (ℕ_discrete x.id i) [
  | yes e ↦
      let this : r ≡ x = ground (arith, at_x, at, e) in
      (
        i,
        revoked x,
        ground (arith, get-save i (revoked x) t, e),
        ap (has_hash hash u) (sym this) ∙ has,
      )
  | no ne ↦ (i, r, ground (arith, get-save i (revoked x) t, ne, at), has)
]

pub IsSpent-save-revoked :
    (hash : String) (u : Uuid) (t : List RefreshToken) (x : RefreshToken)
    → get x.id t ≡ some x
    → IsSpent hash u t
    → IsSpent hash u (save (revoked x) t)
IsSpent-save-revoked hash u t x at_x v = record {
  keyed = IsKeyed-save (revoked x) t v.keyed;
  all_revoked = λ i r at has. elim (revoked_or_old t x i r at) [
    | inl (_, this) ↦ ap (λ (y : RefreshToken). y.is_revoked) (sym this)
    | inr old ↦ v.all_revoked i r old has
  ];
  some_row = let (i, r, at, has) = v.some_row in row_after hash u t x at_x i r at has;
}

-- Saving the only row with the hash as revoked spends the token.
pub IsSpent-only :
    (hash : String) (u : Uuid) (t : List RefreshToken) (x : RefreshToken)
    → IsKeyed t
    → get x.id t ≡ some x
    → has_hash hash u x ≡ true
    → IsOnly hash u t
    → IsSpent hash u (save (revoked x) t)
IsSpent-only hash u t x k at_x has_x only = record {
  keyed = IsKeyed-save (revoked x) t k;
  all_revoked = λ i r at has. elim (revoked_or_old t x i r at) [
    | inl (_, this) ↦ ap (λ (y : RefreshToken). y.is_revoked) (sym this)
    | inr old ↦
        let e : x.id ≡ i = only x.id i x r at_x old has_x has in
        let this : revoked x ≡ r = ground (arith, get-save i (revoked x) t, e, at) in
        ap (λ (y : RefreshToken). y.is_revoked) (sym this)
  ];
  some_row = row_after hash u t x at_x x.id x at_x has_x;
}

-- A new token has another hash than a spent one.
other_hash :
    (c : Tokens) (env : Env) (w : Uuid) (hash : String) (u : Uuid) (t : List RefreshToken)
    → IsFresh c env t
    → IsSpent hash u t
    → has_hash hash u (new_token c env w) ≡ false
other_hash c env w hash u t fresh v = elim (Bool-cases (has_hash hash u (new_token c env w))) [
  | inr e ↦ e
  | inl e ↦
      let (i, r, at, has) = v.some_row in
      let new : c.hash_token env.refresh_token ≡ hash =
        (eq_iff (c.hash_token env.refresh_token) hash).0 (ground arith) in
      let old : r.token_hash ≡ hash = (eq_iff r.token_hash hash).0 (ground arith) in
      let same = (eq_iff r.token_hash (c.hash_token env.refresh_token)).1 (old ∙ sym new) in
      let differ = fresh.hash i r at in cc
]

pub IsSpent-save :
    (c : Tokens) (env : Env) (w : Uuid) (hash : String) (u : Uuid) (t : List RefreshToken)
    → IsFresh c env t
    → IsSpent hash u t
    → IsSpent hash u (save (new_token c env w) t)
IsSpent-save c env w hash u t fresh v =
    let x = new_token c env w in
    let other : has_hash hash u x ≡ false = other_hash c env w hash u t fresh v in
    let id_new : get x.id t ≡ none = fresh.id in
    record {
      keyed = IsKeyed-save x t v.keyed;
      all_revoked = λ i r at has. elim (ℕ_discrete x.id i) [
        | yes e ↦
            let this : x ≡ r = ground (arith, get-save i x t, e, at) in
            let absent : has_hash hash u r ≡ false = ap (has_hash hash u) (sym this) ∙ other in cc
        | no ne ↦ v.all_revoked i r (ground (arith, get-save i x t, ne, at)) has
      ];
      some_row =
          let (i, r, at, has) = v.some_row in
          elim (ℕ_discrete x.id i) [
            | yes e ↦ let absent : get i t ≡ none = ap (λ j. get j t) (sym e) ∙ id_new in cc
            | no ne ↦ (i, r, ground (arith, get-save i x t, ne, at), has)
          ];
    }

-- Revoking a row leaves what is new new.
pub IsFresh-save-revoked :
    (c : Tokens) (env : Env) (t : List RefreshToken) (x : RefreshToken)
    → get x.id t ≡ some x
    → IsFresh c env t
    → IsFresh c env (save (revoked x) t)
IsFresh-save-revoked c env t x at_x fresh = record {
  id = elim (ℕ_discrete x.id env.fresh_token) [
    | yes e ↦ let absent : get x.id t ≡ none = ap (λ j. get j t) e ∙ fresh.id in cc
    | no ne ↦ ground (arith, get-save env.fresh_token (revoked x) t, ne, fresh.id)
  ];
  hash = λ i r at. elim (revoked_or_old t x i r at) [
    | inl (_, this) ↦
        ap (λ (y : RefreshToken). str_eq y.token_hash (c.hash_token env.refresh_token)) (sym this)
        ∙ fresh.hash x.id x at_x
    | inr old ↦ fresh.hash i r old
  ];
}

-- The rows that a look-up of a spent token finds.
pub find_token-IsSpent :
    (env : Env) (hash : String) (u : Uuid) (t : List RefreshToken)
    → IsFindOne env.find_row
    → IsSpent hash u t
    → (r : RefreshToken) × (find_token env hash u t ≡ some r) × (r.is_revoked ≡ true)
find_token-IsSpent env hash u t one v = elim (Option-cases (find_token env hash u t)) [
  | inl absent ↦
      let (i, r, at, has) = v.some_row in
      let no_row : has_hash hash u r ≡ false = one.missing (has_hash hash u) t i r absent at in cc
  | inr (r, e) ↦
      let (at, has) = one.found (has_hash hash u) t r v.keyed e in
      (r, e, v.all_revoked r.id r at has)
]
