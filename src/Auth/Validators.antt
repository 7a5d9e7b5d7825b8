-- ===== src/Auth/Validators.antt =====
-- `CryptoValidator` (src/common/validators/crypto.validator.ts). `decoded_length` is the number of
-- bytes that `Buffer.from(text, 'base64')` has; that call does not throw on texts.
use text.Mathlib.Text.{◌==◌ as str_eq}
use aamenn_backend.Base.{
  Bool, List, Option, Result, String, [], bad_request, codes, false, if◌then◌else◌, includes, leb,
  length, lower_all, ltb, none, not, ok, or_zero, same_codes, some, throw_if, true, ℕ, ◌&&◌, ◌==◌,
  ◌>>◌, ◌||◌, ◌∷◌,
}
use aamenn_backend.Entities.Accounts.{KdfParams}

abbrev pub is_base64_code : ℕ → Bool
is_base64_code c =
    (leb b'A' c && leb c b'Z')
    || (leb b'a' c && leb c b'z')
    || (leb b'0' c && leb c b'9')
    || c == b'+'
    || c == b'/'

-- `/^[A-Za-z0-9+/]*={0,2}$/`
abbrev pub is_padding : List ℕ → Bool
is_padding [] = true
is_padding (c ∷ []) = c == b'='
is_padding (c ∷ (d ∷ [])) = c == b'=' && d == b'='
is_padding (c ∷ (d ∷ (e ∷ cs))) = false

abbrev pub is_base64 : List ℕ → Bool
is_base64 [] = true
is_base64 (c ∷ cs) = if is_base64_code c then is_base64 cs else is_padding (c ∷ cs)

abbrev pub is_hex_code : ℕ → Bool
is_hex_code c =
    (leb b'a' c && leb c b'f') || (leb b'A' c && leb c b'F') || (leb b'0' c && leb c b'9')

-- `/^[a-fA-F0-9]+$/`
abbrev pub is_hex : List ℕ → Bool
is_hex [] = false
is_hex (c ∷ []) = is_hex_code c
is_hex (c ∷ (d ∷ cs)) = is_hex_code c && is_hex (d ∷ cs)

unfoldable pub validate_aes_gcm_iv : (String → ℕ) → String → Result (Unit {0})
validate_aes_gcm_iv decoded_length iv = do
  throw_if (str_eq iv "") bad_request
  throw_if (not (decoded_length iv == 12)) bad_request
  ok tt

unfoldable pub validate_encrypted_data_format : (String → ℕ) → String → ℕ → Result (Unit {0})
validate_encrypted_data_format decoded_length text min_size = do
  throw_if (str_eq text "") bad_request
  throw_if (ltb (decoded_length text) min_size) bad_request
  ok tt

unfoldable pub validate_encrypted_field_size : (String → ℕ) → String → ℕ → Result (Unit {0})
validate_encrypted_field_size decoded_length text max_size_bytes =
    if str_eq text ""
    then ok tt
    else throw_if (ltb max_size_bytes (decoded_length text)) bad_request

unfoldable pub validate_base64_format : String → Result (Unit {0})
validate_base64_format text = do
  throw_if (str_eq text "") bad_request
  throw_if (not (is_base64 (codes text))) bad_request
  ok tt

-- An expected length of zero counts as absent.
abbrev pub is_expected : Option ℕ → ℕ → Bool
is_expected none n = true
is_expected (some expected) n = expected == 0 || n == expected

unfoldable pub validate_hex_format : String → Option ℕ → Result (Unit {0})
validate_hex_format text expected_length = do
  throw_if (str_eq text "") bad_request
  throw_if (not (is_hex (codes text))) bad_request
  throw_if (not (is_expected expected_length (length (codes text)))) bad_request
  ok tt

abbrev pub is_pbkdf2 : KdfParams → Bool
is_pbkdf2 p = same_codes (lower_all (codes p.algorithm)) (codes "pbkdf2")

abbrev pub is_argon2 : KdfParams → Bool
is_argon2 p = includes (codes "argon2") (lower_all (codes p.algorithm))

unfoldable pub validate_kdf_params : KdfParams → Result (Unit {0})
validate_kdf_params p = do
  throw_if (str_eq p.algorithm "") bad_request
  throw_if (is_pbkdf2 p && ltb (or_zero p.iterations) 100000) bad_request
  throw_if (is_argon2 p && ltb (or_zero p.memory) 65536) bad_request
  throw_if (is_argon2 p && ltb (or_zero p.parallelism) 1) bad_request
  ok tt
