-- ===== src/Otp/Acceptance.antt =====
-- The right password is accepted.
use text.Mathlib.Text.{◌==◌ as str_eq}
use text.Mathlib.TextPositions.{eq_refl}
use aamenn_backend.Base.{
  All, List, String, [], ap, arith, false, leb, length, some, true, ℕ, ◌+◌, ◌<◌, ◌∙◌, ◌∷◌, ◌≡◌, ◌≤◌,
}
use aamenn_backend.Entities.Scalars.{Time}
use aamenn_backend.Otp.Guesses.{Guess}
use aamenn_backend.Otp.Service.{Slot, generate_otp, max_attempts, verify_otp, verify_present}

-- What is left after some guesses.
abbrev pub after_all : List Guess → Slot → Slot
after_all [] s = s
after_all (g ∷ gs) s = after_all gs (verify_otp g.time g.otp s).1

-- Guesses that come before the expiry and are not the password.
abbrev pub AreWrong : Time → String → List Guess → Type 0
AreWrong end code = All (λ (g : Guess). (g.time < end) × (str_eq code g.otp ≡ false))

-- The password is on record, with `k` guesses counted.
abbrev pub counted : Time → String → ℕ → Slot
counted end code k = record {
  otp = some (record { text = code; expires_at = end });
  attempts = some (record { count = k; expires_at = some end });
}

verify_otp_wrong :
    (g : Guess) (end : Time) (code : String) (k : ℕ)
    → g.time < end
    → str_eq code g.otp ≡ false
    → k < max_attempts
    → verify_otp g.time g.otp (counted end code k) ≡ (false, counted end code (k + 1))
unfolding verify_otp verify_present
verify_otp_wrong g end code k soon wrong few =
    let live : leb end g.time ≡ false = ground (arith, soon) in
    let open_yet : leb max_attempts k ≡ false = ground (arith, few) in
    ground (arith, live, open_yet, wrong)

after_all-counted :
    (gs : List Guess) (end : Time) (code : String) (k : ℕ)
    → AreWrong end code gs
    → length gs + k ≤ max_attempts
    → after_all gs (counted end code k) ≡ counted end code (length gs + k)
after_all-counted [] end code k w h = ap (counted end code) (omega arith)
after_all-counted (g ∷ gs) end code k w h =
    rw (verify_otp_wrong g end code k w.0.0 w.0.1 (omega (arith, h))) (
      after_all-counted gs end code (k + 1) w.1 (omega (arith, h))
      ∙ ap (counted end code) (omega arith))

-- After at most four wrong guesses the generated password, which is not the empty text, is
-- accepted, where the guesses and the password come before the time to live is over.
pub generate_otp-accepted :
    (now time : Time) (ttl : ℕ) (code : String) (s : Slot) (gs : List Guess)
    → AreWrong (now + ttl) code gs
    → length gs < max_attempts
    → str_eq code "" ≡ false
    → time < now + ttl
    → (verify_otp time code (after_all gs (generate_otp now ttl code s).1)).0 ≡ true
unfolding verify_otp verify_present generate_otp
generate_otp-accepted now time ttl code s gs wrong few full soon =
    let left = after_all-counted gs (now + ttl) code 0 wrong (omega (arith, few)) in
    let live : leb (now + ttl) time ≡ false = ground (arith, soon) in
    let open_yet : leb max_attempts (length gs + 0) ≡ false = ground (arith, few) in
    rw left (ground (arith, live, open_yet, full, eq_refl code))
