-- ===== src/Otp/Tests.antt =====
-- The theorems on one-time passwords at sample guesses.
use aamenn_backend.Base.{[], any, arith, drop, false, length, refl, select, true, ◌∷◌, ◌≡◌, ◌≤◌}
use aamenn_backend.Otp.Acceptance.{after_all, generate_otp-accepted}
use aamenn_backend.Otp.Guesses.{
  Guess, generate_otp-first_five, is_accepted, verify_all, verify_all_once,
}
use aamenn_backend.Otp.Service.{empty_slot, generate_otp, max_attempts, verify_otp}

abbrev wrong : Guess
wrong = record { time = 20; otp = "000000" }

abbrev right : Guess
right = record { time = 30; otp = "123456" }

verify_all_once_example :
    length (
      select is_accepted
        (verify_all (wrong ∷ right ∷ right ∷ []) (generate_otp 10 600 "123456" empty_slot).1))
    ≤ 1
verify_all_once_example =
    verify_all_once (wrong ∷ right ∷ right ∷ []) (generate_otp 10 600 "123456" empty_slot).1

generate_otp-first_five_example :
    any is_accepted (
      drop max_attempts (
        verify_all
          (wrong ∷ wrong ∷ wrong ∷ wrong ∷ wrong ∷ right ∷ [])
          (generate_otp 10 600 "123456" empty_slot).1))
    ≡ false
generate_otp-first_five_example =
    generate_otp-first_five 10 600 "123456" empty_slot
      (wrong ∷ wrong ∷ wrong ∷ wrong ∷ wrong ∷ right ∷ [])

generate_otp-accepted_example :
    (verify_otp 30 "123456"
      (after_all (wrong ∷ wrong ∷ []) (generate_otp 10 600 "123456" empty_slot).1)).0
    ≡ true
generate_otp-accepted_example =
    generate_otp-accepted 10 30 600 "123456" empty_slot (wrong ∷ wrong ∷ [])
      ((omega arith, refl), ((omega arith, refl), tt)) (omega arith) refl (omega arith)
