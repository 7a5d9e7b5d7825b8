-- ===== src/Payments/Screenshots.antt =====
-- The texts and files of `submitPayment` (src/modules/payments/instapay.service.ts): `trim`, and
-- the checks of a screenshot.
use Prim.Native.Char.{Char, code}
use aamenn_backend.Base.{
  Bool, Option, String, false, if◌then◌else◌, leb, none, some, true, ℕ, ◌&&◌, ◌*◌, ◌+◌, ◌==◌, ◌||◌,
}

-- The white space that `trim` of JavaScript removes.
abbrev pub is_space : Char → Bool
is_space c =
    let n = code c in
    (leb 9 n && leb n 13)
    || n == 32
    || n == 160
    || n == 5760
    || (leb 8192 n && leb n 8202)
    || n == 8232
    || n == 8233
    || n == 8239
    || n == 8287
    || n == 12288
    || n == 65279

abbrev pub trim_start : String → String
trim_start String.[] = ""
trim_start (String.◌∷◌ c s) = if is_space c then trim_start s else String.◌∷◌ c s

abbrev pub push_unless_space : Char → String → String
push_unless_space c String.[] = if is_space c then "" else String.◌∷◌ c ""
push_unless_space c (String.◌∷◌ d s) = String.◌∷◌ c (String.◌∷◌ d s)

abbrev pub trim_end : String → String
trim_end String.[] = ""
trim_end (String.◌∷◌ c s) = push_unless_space c (trim_end s)

abbrev pub trim : String → String
trim s = trim_end (trim_start s)

-- `x?.trim() || null`
abbrev pub trim_or_null : Option String → Option String
trim_or_null none = none
trim_or_null (some s) = elim (trim s) [ String.[] ↦ none | String.◌∷◌ c t ↦ some (String.◌∷◌ c t) ]

-- Letters without their case, and the types that `ALLOWED_SCREENSHOT_MIME` matches.
abbrev pub fold_case : ℕ → ℕ
fold_case n = if leb 65 n && leb n 90 then n + 32 else n

abbrev pub same_letters : String → String → Bool
same_letters String.[] String.[] = true
same_letters String.[] (String.◌∷◌ d t) = false
same_letters (String.◌∷◌ c s) String.[] = false
same_letters (String.◌∷◌ c s) (String.◌∷◌ d t) =
    fold_case (code c) == fold_case (code d) && same_letters s t

abbrev pub is_screenshot_type : String → Bool
is_screenshot_type m =
    same_letters m "image/png" || same_letters m "image/jpg" || same_letters m "image/jpeg"

abbrev pub max_screenshot_bytes : ℕ
max_screenshot_bytes = 5 * 1024 * 1024

-- The size and the type of the uploaded file.
pub record Screenshot : Type 0 where
  pub size : ℕ
  pub mime_type : String
