-- ===== src/Otp/Service.antt =====
-- `OtpService` (src/modules/otp/otp.service.ts): the two keys that it keeps in Redis for one
-- purpose and one address in lower case. The keys of another purpose or address differ, so a call
-- for those does not touch these. Of Redis it uses SETEX, GET, DEL, and INCR, which keeps the
-- expiry of a key and creates a missing one at 1, without expiry; an expired key is gone.
use text.Mathlib.Text.{◌==◌ as str_eq}
use aamenn_backend.Base.{
  Bool, Option, String, false, if◌then◌else◌, leb, none, not, some, true, ℕ, ◌&&◌, ◌+◌,
}
use aamenn_backend.Table.{option_filter}
use aamenn_backend.Entities.Scalars.{Time}

-- `{purpose}:otp:{email}`
pub record StoredOtp : Type 0 where
  pub text : String
  pub expires_at : Time

-- `{purpose}:otp-attempts:{email}`
pub record Attempts : Type 0 where
  pub count : ℕ
  pub expires_at : Option Time

pub record Slot : Type 0 where
  pub otp : Option StoredOtp
  pub attempts : Option Attempts

abbrev pub empty_slot : Slot
empty_slot = record { otp = none; attempts = none }

abbrev pub is_past : Time → Option Time → Bool
is_past now none = false
is_past now (some t) = leb t now

-- Redis drops a key when its time is over.
abbrev pub purge : Time → Slot → Slot
purge now s = record {
  otp = option_filter (λ (o : StoredOtp). not (leb o.expires_at now)) s.otp;
  attempts = option_filter (λ (a : Attempts). not (is_past now a.expires_at)) s.attempts;
}

-- `code` is the random number as a text, and `ttl` is `otpTtl` in milliseconds.
unfoldable pub generate_otp : Time → ℕ → String → Slot → String × Slot
generate_otp now ttl code s = (
  code,
  record {
    otp = some (record { text = code; expires_at = now + ttl });
    attempts = some (record { count = 0; expires_at = some (now + ttl) });
  },
)

abbrev pub max_attempts : ℕ
max_attempts = 5

abbrev pub attempts_of : Option Attempts → ℕ
attempts_of none = 0
attempts_of (some a) = a.count

abbrev pub incr : Option Attempts → Option Attempts
incr none = some (record { count = 1; expires_at = none })
incr (some a) = some (record a { count = a.count + 1 })

-- `storedOtp && storedOtp === otp`; the empty text counts as missing.
abbrev pub is_match : String → Option StoredOtp → Bool
is_match otp none = false
is_match otp (some o) = not (str_eq o.text "") && str_eq o.text otp

unfoldable pub verify_present : String → Slot → Bool × Slot
verify_present otp s =
    if leb max_attempts (attempts_of s.attempts)
    then (false, empty_slot)
    else (if is_match otp s.otp
        then (true, empty_slot)
        else (false, record s { attempts = incr s.attempts }))

unfoldable pub verify_otp : Time → String → Slot → Bool × Slot
unfolding verify_present
verify_otp now otp s = verify_present otp (purge now s)
