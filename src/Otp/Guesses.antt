-- ===== src/Otp/Guesses.antt =====
-- How often a one-time password can be guessed.
use aamenn_backend.Base.{
  Bool, Bool-cases, List, String, [], any, arith, drop, false, inl, inr, leb, length, none, refl,
  select, some, suc, true, zero, ℕ, ◌+◌, ◌∷◌, ◌≡◌, ◌≤◌, ◌⊎◌,
}
use aamenn_backend.Entities.Scalars.{Time}
use aamenn_backend.Otp.Service.{
  Slot, StoredOtp, generate_otp, is_match, max_attempts, verify_otp, verify_present,
}

-- A request to verify: when it comes, and the guess.
pub record Guess : Type 0 where
  pub time : Time
  pub otp : String

-- The answers to guesses, one after the other, with no new password in between.
abbrev pub verify_all : List Guess → Slot → List Bool
verify_all [] s = []
verify_all (g ∷ gs) s = (verify_otp g.time g.otp s).0 ∷ verify_all gs (verify_otp g.time g.otp s).1

abbrev pub is_accepted : Bool → Bool
is_accepted b = b

any-drop :
    (n : ℕ) (bs : List Bool) → any is_accepted bs ≡ false → any is_accepted (drop n bs) ≡ false
any-drop zero bs h = h
any-drop (suc n) [] h = refl
any-drop (suc n) (b ∷ bs) h = any-drop n bs (ground arith)

select-none : (bs : List Bool) → any is_accepted bs ≡ false → length (select is_accepted bs) ≡ 0
select-none [] h = refl
select-none (b ∷ bs) h = ground (arith, select-none bs)

-- Without a password on record every guess fails.
verify_all-none :
    (gs : List Guess) (s : Slot) → s.otp ≡ none → any is_accepted (verify_all gs s) ≡ false
unfolding verify_otp verify_present
verify_all-none [] s h = refl
verify_all-none (g ∷ gs) s h =
    let after = (verify_otp g.time g.otp s).1 in
    let gone_otp : after.otp ≡ none = ground (arith, h) in
    ground (arith, h, verify_all-none gs after gone_otp)

verify_otp_accepts :
    (now : Time) (otp : String) (s : Slot)
    → (verify_otp now otp s).0 ≡ true
    → (verify_otp now otp s).1.otp ≡ none
unfolding verify_otp verify_present
verify_otp_accepts now otp s h = ground arith

-- A password is accepted at most once, whatever is guessed and when.
pub verify_all_once :
    (gs : List Guess) (s : Slot) → length (select is_accepted (verify_all gs s)) ≤ 1
verify_all_once [] s = omega arith
verify_all_once (g ∷ gs) s =
    let after = (verify_otp g.time g.otp s).1 in
    elim (Bool-cases (verify_otp g.time g.otp s).0) [
      | inl yes_now ↦
          let rest = verify_all-none gs after (verify_otp_accepts g.time g.otp s yes_now) in
          ground (arith, yes_now, select-none (verify_all gs after) rest)
      | inr no_yet ↦ ground (arith, no_yet, verify_all_once gs after)
    ]

-- At least `n` guesses were made at the password on record, if there is one; the counter expires
-- with the password.
abbrev Tried : ℕ → Slot → Type 0
Tried n s =
    (s.otp ≡ none)
    ⊎ ((o : StoredOtp) × (k : ℕ) × (s.otp ≡ some o)
        × (s.attempts ≡ some (record { count = k; expires_at = some o.expires_at }))
        × (n ≤ k))

Tried-more :
    (n : ℕ) (s : Slot) (g : Guess) → Tried n s → Tried (suc n) (verify_otp g.time g.otp s).1
unfolding verify_otp verify_present
Tried-more n s g (inl e) = inl (ground (arith, e))
Tried-more n s g (inr (o, k, e, e', le)) = elim (Bool-cases (leb o.expires_at g.time)) [
  | inl over ↦ inl (ground (arith, e, over))
  | inr live ↦ elim (Bool-cases (leb max_attempts k)) [
    | inl many ↦ inl (ground (arith, e, e', live, many))
    | inr few ↦ elim (Bool-cases (is_match g.otp (some o))) [
      | inl hit ↦ inl (ground (arith, e, e', live, few, hit))
      | inr miss ↦ inr (
        o,
        suc k,
        ground (arith, e, e', live, few, miss),
        ground (arith, e, e', live, few, miss),
        omega (arith, le),
      )
    ]
  ]
]

Tried-refused :
    (n : ℕ) (s : Slot) (g : Guess)
    → Tried n s
    → max_attempts ≤ n
    → (verify_otp g.time g.otp s).0 ≡ false
unfolding verify_otp verify_present
Tried-refused n s g (inl e) many = ground (arith, e)
Tried-refused n s g (inr (o, k, e, e', le)) many = elim (Bool-cases (leb o.expires_at g.time)) [
  | inl over ↦ ground (arith, e, e', over)
  | inr live ↦
      let enough : leb max_attempts k ≡ true = ground (arith, le, many) in
      ground (arith, e, e', live, enough)
]

all_refused :
    (n : ℕ) (gs : List Guess) (s : Slot)
    → Tried n s
    → max_attempts ≤ n
    → any is_accepted (verify_all gs s) ≡ false
all_refused n [] s t many = refl
all_refused n (g ∷ gs) s t many = ground (
  arith,
  Tried-refused n s g t many,
  all_refused (suc n) gs (verify_otp g.time g.otp s).1 (Tried-more n s g t) (omega (arith, many)),
)

refused_after :
    (m n : ℕ) (gs : List Guess) (s : Slot)
    → Tried n s
    → max_attempts ≤ n + m
    → any is_accepted (drop m (verify_all gs s)) ≡ false
refused_after zero n gs s t h = all_refused n gs s t (omega (arith, h))
refused_after (suc m) n [] s t h = refl
refused_after (suc m) n (g ∷ gs) s t h =
    refused_after m (suc n) gs (verify_otp g.time g.otp s).1 (Tried-more n s g t) (omega (arith, h))

-- After a password is generated, only the first five guesses can be accepted, whenever they come,
-- until a new one is generated.
pub generate_otp-first_five :
    (now : Time) (ttl : ℕ) (code : String) (s : Slot) (gs : List Guess)
    → any is_accepted (drop max_attempts (verify_all gs (generate_otp now ttl code s).1)) ≡ false
unfolding generate_otp
generate_otp-first_five now ttl code s gs =
    let fresh = (generate_otp now ttl code s).1 in
    refused_after max_attempts 0 gs fresh
      (inr (record { text = code; expires_at = now + ttl }, 0, refl, refl, omega arith))
      (omega arith)
