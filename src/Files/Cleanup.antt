-- ===== src/Files/Cleanup.antt =====
-- The daily job `TrashCleanupService` (src/modules/files/trash-cleanup.service.ts). A query by
-- `find` without `withDeleted` sees rows outside the trash only, whatever its condition on
-- `deletedAt` says.
use aamenn_backend.Base.{
  Bool, List, String, [], false, if◌then◌else◌, length, ltb, none, select, some, take, ℕ, ◌&&◌,
  ◌++◌, ◌+◌, ◌-◌, ◌∷◌,
}
use aamenn_backend.Storage.{b2_paths, file_ids}
use aamenn_backend.Table.{delete_keys}
use aamenn_backend.Entities.Accounts.{User, user_entity}
use aamenn_backend.Entities.Library.{File, file_entity}
use aamenn_backend.Entities.Scalars.{Time, Uuid, days}
use aamenn_backend.Files.Store.{Drive, Env, has_path, is_kept_file, is_own_file}

abbrev pub is_deleted_before : Time → File → Bool
is_deleted_before t f = elim f.deleted_at [ none ↦ false | some d ↦ ltb d t ]

abbrev pub max_batch : ℕ
max_batch = 500

abbrev pub is_expired_of : Env → Uuid → ℕ → File → Bool
is_expired_of env u retention_days f =
    is_own_file u f && is_deleted_before (env.now - days retention_days) f && is_kept_file f

-- The rows that refer to the same object, the row itself if it is not in the trash.
abbrev pub reference_count : List File → File → ℕ
reference_count t f = length (select (λ g. has_path f.b2_file_path g && is_kept_file g) t)

abbrev pub cleanup_paths : List File → List File → List String
cleanup_paths t [] = []
cleanup_paths t (f ∷ fs) =
    (if ltb 1 (reference_count t f) then [] else b2_paths f) ++ cleanup_paths t fs

-- Returns the number of purged files.
unfoldable pub purge_user_expired_trash : Env → Uuid → ℕ → Drive → ℕ × Drive
unfolding days
purge_user_expired_trash env u retention_days d =
    let found = take max_batch (select (is_expired_of env u retention_days) d.files) in
    (
      length found,
      record d {
        files = delete_keys (file_ids found) d.files;
        b2_deletions = d.b2_deletions ++ cleanup_paths d.files found;
      },
    )

unfoldable pub purge_loop : Env → List User → ℕ × Drive → ℕ × Drive
unfolding purge_user_expired_trash
purge_loop env [] r = r
purge_loop env (u ∷ us) (n, d) =
    let (k, d') = purge_user_expired_trash env u.id u.trash_retention_days d in
    purge_loop env us (n + k, d')

unfoldable pub purge_expired_trash : Env → Drive → ℕ × Drive
unfolding purge_loop
purge_expired_trash env d = purge_loop env d.users (0, d)
