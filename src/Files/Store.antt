-- ===== src/Files/Store.antt =====
-- The repositories that `FilesService` uses (src/modules/files/files.service.ts), and the tests in
-- its queries.
use text.Mathlib.Text.{◌==◌ as str_eq}
use aamenn_backend.Base.{
  Bool, List, Result, String, arith, forbidden, is_none, member, not, not_found, ok, or_throw, some,
  throw_if, true, ◌&&◌, ◌==◌, ◌>>=◌, ◌>>◌, ◌≡◌,
}
use aamenn_backend.Cache.{Cache, files, increment_version}
use aamenn_backend.Table.{find_one, get}
use aamenn_backend.Entities.Accounts.{User, user_entity}
use aamenn_backend.Entities.Library.{File, file_entity}
use aamenn_backend.Entities.Scalars.{Time, Uuid}

pub record Drive : Type 0 where
  pub files : List File
  pub users : List User
  pub cache : Cache
  -- the paths whose deletion was asked of the object store
  pub b2_deletions : List String

-- The clock, the id of a new file, and the paths that `generateFilePath` makes.
pub record Env : Type 0 where
  pub now : Time
  pub fresh_file : Uuid
  pub b2_file_path : String
  pub thumb_small_path : String
  pub thumb_medium_path : String
  pub thumb_large_path : String

abbrev pub is_kept_file : File → Bool
is_kept_file f = is_none f.deleted_at

abbrev pub is_own_file : Uuid → File → Bool
is_own_file u f = f.user_id == u

abbrev pub is_trashed_of : Uuid → File → Bool
is_trashed_of u f = is_own_file u f && not (is_kept_file f)

-- `id IN (ids) AND user_id = u`
abbrev pub is_own_listed : Uuid → List Uuid → File → Bool
is_own_listed u ids f = member f.id ids && is_own_file u f

abbrev pub has_path : String → File → Bool
has_path path f = str_eq f.b2_file_path path

abbrev pub touch_files : Uuid → Drive → Drive
touch_files u d = record d { cache = increment_version u files d.cache }

-- `verifyFileOwnership`
unfoldable pub verify_file_ownership : Uuid → Uuid → List File → Result File
verify_file_ownership id u t = do
  f ← or_throw (find_one id is_kept_file t) not_found
  throw_if (not (is_own_file u f)) forbidden
  ok f

pub verify_file_ownership-eq-ok :
    (id u : Uuid) (t : List File) {f : File}
    → verify_file_ownership id u t ≡ ok f
    → (get id t ≡ some f) × (is_kept_file f ≡ true) × (is_own_file u f ≡ true)
unfolding verify_file_ownership
verify_file_ownership-eq-ok id u t h = ground arith
