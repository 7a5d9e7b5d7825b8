-- ===== src/Uploads/Usage.antt =====
-- The storage that `getStorageUsage` shows (src/modules/files/files.service.ts), against the check
-- in `startUpload`, which computes it on its own.
use aamenn_backend.Base.{
  List, Option, String, [], ap, arith, err, inl, inr, none, ok, payload_too_large, refl, select,
  some, sym, ◌*◌, ◌+◌, ◌<◌, ◌∙◌, ◌∷◌, ◌≡◌, ◌≤◌, ◌⊎◌,
}
use aamenn_backend.Table.{get}
use aamenn_backend.Entities.Accounts.{User, user_entity}
use aamenn_backend.Entities.Library.{File, file_entity}
use aamenn_backend.Entities.Scalars.{Uuid}
use aamenn_backend.Entities.Uploads.{UploadSession, session_entity}
use aamenn_backend.Files.Reads.{get_storage_usage, limit_of, sum_of_sizes}
use aamenn_backend.Files.Store.{Drive, is_own_file}
use aamenn_backend.Uploads.Quota.{start_upload-cases}
use aamenn_backend.Uploads.Service.{StartUpload, start_upload}
use aamenn_backend.Uploads.Store.{Env, Uploads, bytes_per_gb, limit_bytes, limit_gb_of, used_bytes}

sum_of_sizes-select :
    (u : Uuid) (t : List File) → sum_of_sizes (select (is_own_file u) t) ≡ used_bytes u t
sum_of_sizes-select u [] = refl
sum_of_sizes-select u (f ∷ t) = ground (arith, sum_of_sizes-select u t)

limit_of-limit_gb_of : (o : Option User) → limit_of o ≡ limit_gb_of o
limit_of-limit_gb_of none = refl
limit_of-limit_gb_of (some u) = refl

same_limit : (u : Uuid) (d : Drive) → (get_storage_usage u d).limit_bytes ≡ limit_bytes u d.users
unfolding get_storage_usage limit_bytes
same_limit u d =
    ap (λ n. n * 1024 * 1024 * 1024) (limit_of-limit_gb_of (get u d.users))
    ∙ (let e : limit_gb_of (get u d.users) * 1024 * 1024 * 1024
            ≡ limit_gb_of (get u d.users) * bytes_per_gb =
          omega arith in
        e)

same_use : (u : Uuid) (d : Drive) → (get_storage_usage u d).used_bytes ≡ used_bytes u d.files
unfolding get_storage_usage
same_use u d = sum_of_sizes-select u d.files

-- Over the same files and users, an upload for which the object store answers starts exactly where
-- the storage that is shown to the user leaves room for it: where the used bytes, with the trash,
-- and the bytes of the new file are together at most the limit. Otherwise the request fails with
-- 413.
pub start_upload-get_storage_usage :
    (env : Env) (u : Uuid) (dto : StartUpload) (b2_file_id : String) (b : Uploads) (d : Drive)
    → b.files ≡ d.files
    → b.users ≡ d.users
    → let usage = get_storage_usage u d in
      ((usage.used_bytes + dto.total_bytes ≤ usage.limit_bytes)
        × ((s : UploadSession) × (b' : Uploads) × (start_upload env u dto (ok b2_file_id) b
              ≡ ok (s, b'))))
      ⊎ ((usage.limit_bytes < usage.used_bytes + dto.total_bytes)
          × (start_upload env u dto (ok b2_file_id) b ≡ err payload_too_large))
start_upload-get_storage_usage env u dto b2_file_id b d same_files same_users =
    let use_eq : (get_storage_usage u d).used_bytes ≡ used_bytes u b.files =
      same_use u d ∙ ap (used_bytes u) (sym same_files) in
    let limit_eq : (get_storage_usage u d).limit_bytes ≡ limit_bytes u b.users =
      same_limit u d ∙ ap (limit_bytes u) (sym same_users) in
    elim (start_upload-cases env u dto (ok b2_file_id) b) [
      | inl (e, over) ↦ inr (omega (arith, use_eq, limit_eq, over), e)
      | inr (fits, e) ↦ inl (omega (arith, use_eq, limit_eq, fits), (_, _, e))
    ]
