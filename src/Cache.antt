-- ===== src/Cache.antt =====
-- src/modules/cache/cache.service.ts: the version counters in Redis and the health of the
-- connection. `answers` says whether a Redis command succeeds now; `versions` are the counters
-- under `buildVersionKey`, which never expire (an absent key reads as 0).
use text.Mathlib.Text.{◌==◌ as str_eq}
use aamenn_backend.Base.{
  Bool, List, Option, String, [], false, if◌then◌else◌, leb, ltb, none, not, select, some, ℕ, ◌&&◌,
  ◌*◌, ◌+◌, ◌==◌, ◌||◌, ◌∷◌,
}
use aamenn_backend.Entities.Library.{file_entity}
use aamenn_backend.Entities.Scalars.{Time, Uuid}

-- the `type` of a version key; the services use only this one
pub data Kind : Type 0 where
  files : Kind

pub record Cache : Type 0 where
  pub is_healthy : Bool
  pub failure_count : ℕ
  pub answers : Bool
  pub versions : Uuid → Kind → ℕ

abbrev pub max_failures : ℕ
max_failures = 5

unfoldable pub handle_failure : Cache → Cache
handle_failure c =
    let n = c.failure_count + 1 in
    if leb max_failures n
    then record c { failure_count = n; is_healthy = false }
    else record c { failure_count = n }

abbrev bump : Uuid → (Uuid → Kind → ℕ) → Uuid → Kind → ℕ
bump u v w files = if u == w then v w files + 1 else v w files

unfoldable pub increment_version : Uuid → Kind → Cache → Cache
unfolding handle_failure
increment_version u files c =
    if c.is_healthy
    then (if c.answers then record c { versions = bump u c.versions } else handle_failure c)
    else c

-- Returns the version, or 0 where Redis does not answer.
unfoldable pub get_version : Uuid → Kind → Cache → ℕ × Cache
unfolding handle_failure
get_version u k c =
    if c.is_healthy
    then (if c.answers then (c.versions u k, c) else (0, handle_failure c))
    else (0, c)

-- A value under `buildKey`, as its text in JSON, until its time is over.
pub record Entry : Type 0 where
  pub user_id : Uuid
  pub kind : Kind
  pub suffix : String
  pub text : String
  pub expires_at : Time

pub record Cached : Type 0 where
  pub cache : Cache
  pub entries : List Entry

abbrev pub has_key_of : Uuid → Kind → String → Entry → Bool
has_key_of u files suffix e = e.user_id == u && str_eq e.suffix suffix

abbrev pub find_entry : Time → Uuid → Kind → String → List Entry → Option String
find_entry now u k suffix [] = none
find_entry now u k suffix (e ∷ es) =
    if has_key_of u k suffix e && ltb now e.expires_at
    then some e.text
    else find_entry now u k suffix es

unfoldable pub get_value : Time → Uuid → Kind → String → Cached → Option String × Cached
unfolding handle_failure
get_value now u k suffix c =
    if not c.cache.is_healthy
    then (none, c)
    else (if c.cache.answers
        then (find_entry now u k suffix c.entries, c)
        else (none, record c { cache = handle_failure c.cache }))

abbrev pub without_key : Uuid → Kind → String → List Entry → List Entry
without_key u k suffix = select (λ (e : Entry). not (has_key_of u k suffix e))

abbrev pub max_text_length : ℕ
max_text_length = 64 * 1024

-- `ttl` is the time of the type in milliseconds, and `size` the length of the text.
unfoldable pub set_value : Time → ℕ → Uuid → Kind → String → String → ℕ → Cached → Cached
unfolding handle_failure
set_value now ttl u k suffix text size c =
    if not c.cache.is_healthy || ltb max_text_length size
    then c
    else (if c.cache.answers
        then record c {
          entries =
              record { user_id = u; kind = k; suffix = suffix; text = text; expires_at = now + ttl }
              ∷ without_key u k suffix c.entries;
        }
        else record c { cache = handle_failure c.cache })

unfoldable pub del_value : Uuid → Kind → String → Cached → Cached
unfolding handle_failure
del_value u k suffix c =
    if not c.cache.is_healthy
    then c
    else (if c.cache.answers
        then record c { entries = without_key u k suffix c.entries }
        else record c { cache = handle_failure c.cache })
