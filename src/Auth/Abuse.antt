-- ===== src/Auth/Abuse.antt =====
-- `SignupAbuseService` (src/modules/auth/signup-abuse.service.ts). A failed query is caught and
-- changes nothing; it is left out.
use text.Mathlib.Text.{◌==◌ as str_eq}
use aamenn_backend.Base.{
  Bool, List, Option, String, [], any, codes, false, if◌then◌else◌, join_first, leb, length, ltb,
  member, none, not, same_codes, select, some, sort_with, split, take, true, update_where, ℕ, ◌&&◌,
  ◌-◌, ◌==◌, ◌∷◌,
}
use aamenn_backend.Entities.Accounts.{User, user_entity}
use aamenn_backend.Entities.Scalars.{Time, Uuid, days}

-- `getIpSubnet`: three of four parts between dots, or the first three between colons.
unfoldable pub get_ip_subnet : List ℕ → List ℕ
get_ip_subnet ip =
    if length (split b'.' ip) == 4
    then join_first b'.' 3 (split b'.' ip)
    else (if leb 3 (length (split b':' ip)) then join_first b':' 3 (split b':' ip) else ip)

abbrev pub has_fingerprint : String → Option String → Bool
has_fingerprint fingerprint none = false
has_fingerprint fingerprint (some f) = str_eq f fingerprint

-- The other accounts with the fingerprint, made in the last 30 days.
abbrev pub is_other_match : Time → Uuid → String → User → Bool
is_other_match now id fingerprint u =
    has_fingerprint fingerprint u.signup_fingerprint
    && ltb (now - days 30) u.created_at
    && not (u.id == id)

abbrev pub user_ids : List User → List Uuid
user_ids [] = []
user_ids (u ∷ us) = u.id ∷ user_ids us

abbrev pub flag : Time → User → User
flag now u = record u { signup_flagged = true; updated_at = now }

abbrev pub deactivate : Time → User → User
deactivate now u = record u { is_active = false; updated_at = now }

abbrev pub text_or_empty : Option String → String
text_or_empty none = ""
text_or_empty (some s) = s

-- One hour in milliseconds.
abbrev pub hour : ℕ
hour = 3600000

abbrev pub is_recent_neighbour : Time → String → User → Bool
unfolding get_ip_subnet
is_recent_neighbour now ip u =
    same_codes (get_ip_subnet (codes (text_or_empty u.signup_ip))) (get_ip_subnet (codes ip))
    && ltb (now - hour) u.created_at

-- Returns `flagged` and `blocked`.
unfoldable pub check_matches :
    Time → Uuid → String → List User → List User → (Bool × Bool) × List User
unfolding is_recent_neighbour
check_matches now id ip [] t = ((false, false), t)
check_matches now id ip (m ∷ ms) t =
    let flagged = update_where (λ u. member u.id (id ∷ user_ids (m ∷ ms))) (flag now) t in
    if any (is_recent_neighbour now ip) (m ∷ ms)
    then ((true, true), update_where (λ u. u.id == id) (deactivate now) flagged)
    else ((true, false), flagged)

unfoldable pub check_signup_anomaly :
    Time → Uuid → String → Option String → List User → (Bool × Bool) × List User
unfolding check_matches
check_signup_anomaly now id ip none t = ((false, false), t)
check_signup_anomaly now id ip (some fingerprint) t =
    if str_eq fingerprint ""
    then ((false, false), t)
    else check_matches now id ip (select (is_other_match now id fingerprint) t) t

unfoldable pub get_flagged_signups : List User → List User
get_flagged_signups t = take 100 (
    sort_with (λ (u v : User). leb v.created_at u.created_at)
      (select (λ (u : User). u.signup_flagged) t))
