-- ===== src/Auth/Addresses.antt =====
-- What is known of the address of a signup: `IpLookupService`
-- (src/modules/auth/ip-lookup.service.ts) and `SignupIpLimitGuard`
-- (src/common/guards/signup-ip-limit.guard.ts). A key in Redis is an option, gone when its time is
-- over.
use text.Mathlib.Text.{◌==◌ as str_eq}
use aamenn_backend.Base.{
  Bool, Option, Result, String, false, if◌then◌else◌, internal, leb, none, not, or_old, some,
  throw_if, ℕ, ◌+◌, ◌||◌,
}
use aamenn_backend.Entities.Scalars.{Time}

pub data IpType : Type 0 where
  residential datacenter vpn unknown : IpType

pub record IpLookupResult : Type 0 where
  pub ip_type : IpType
  pub isp : String
  pub org : String

pub record IpApiResponse : Type 0 where
  pub proxy : Option Bool
  pub hosting : Option Bool
  pub isp : Option String
  pub org : Option String

abbrev pub unknown_result : IpLookupResult
unknown_result = record { ip_type = unknown; isp = ""; org = "" }

abbrev pub ip_type_of : IpApiResponse → IpType
ip_type_of r =
    if or_old r.hosting false
    then datacenter
    else (if or_old r.proxy false then vpn else residential)

abbrev pub result_of : IpApiResponse → IpLookupResult
result_of r = record { ip_type = ip_type_of r; isp = or_old r.isp ""; org = or_old r.org "" }

-- `cached` is what Redis answers under the key of the address, `fetched` the answer of the service,
-- where it came; the second result is what the key has then.
unfoldable pub lookup_ip :
    Bool
    → String
    → Option IpLookupResult
    → Option IpApiResponse
    → IpLookupResult × Option IpLookupResult
lookup_ip enabled ip cached fetched =
    if not enabled || str_eq ip "" || str_eq ip "unknown"
    then (unknown_result, cached)
    else (elim cached [
      | some r ↦ (r, some r)
      | none ↦ elim fetched [
        | none ↦ (unknown_result, none)
        | some r ↦ (result_of r, some (result_of r))
      ]
    ])

-- The counter of signups of an address, with the end of its time.
pub record SignupCount : Type 0 where
  pub count : ℕ
  pub expires_at : Time

abbrev pub count_of : Time → Option SignupCount → ℕ
count_of now none = 0
count_of now (some c) = if leb c.expires_at now then 0 else c.count

-- `canActivate`, where Redis answers; where it does not, every request passes. The exception
-- "too many requests" is none of those that the services throw, and counts as `internal`.
unfoldable pub can_activate : ℕ → Time → Option SignupCount → Result (Unit {0})
can_activate max_signups_per_ip now c = throw_if (leb max_signups_per_ip (count_of now c)) internal

-- 24 hours in milliseconds
abbrev pub signup_count_time : ℕ
signup_count_time = 86400000

abbrev pub first_signup : Time → SignupCount
first_signup now = record { count = 1; expires_at = now + signup_count_time }

unfoldable pub increment_signup_count : Time → Option SignupCount → SignupCount
increment_signup_count now none = first_signup now
increment_signup_count now (some c) =
    if leb c.expires_at now then first_signup now else record c { count = c.count + 1 }
