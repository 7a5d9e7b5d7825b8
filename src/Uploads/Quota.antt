-- ===== src/Uploads/Quota.antt =====
-- The storage limit: what `startUpload` checks, and what it does not.
use aamenn_backend.Base.{
  ==_refl, Bool-cases, List, Result, String, [], arith, err, inl, inr, ltb, none, ok, or_zero,
  payload_too_large, refl, some, true, ◌*◌, ◌+◌, ◌<◌, ◌>>=◌, ◌∷◌, ◌≡◌, ◌≢◌, ◌≤◌, ◌⊎◌,
}
use aamenn_backend.Cache.{files, increment_version}
use aamenn_backend.Table.{get, get-save, save}
use aamenn_backend.Entities.Accounts.{user_entity}
use aamenn_backend.Entities.Library.{File, file_entity}
use aamenn_backend.Entities.Scalars.{Uuid}
use aamenn_backend.Entities.Uploads.{UploadSession, UploadSessionStatus, session_entity}
use aamenn_backend.Uploads.Service.{
  StartUpload, complete_upload, file_of, new_session, save_session, start_upload, with_status,
}
use aamenn_backend.Uploads.Store.{Env, Uploads, is_own_open, limit_bytes, used_bytes}

-- The two ways past the check.
pub start_upload-cases :
    (env : Env) (u : Uuid) (dto : StartUpload) (started : Result String) (b : Uploads)
    → (start_upload env u dto started b ≡ err payload_too_large
        × limit_bytes u b.users < used_bytes u b.files + dto.total_bytes)
      ⊎ ((used_bytes u b.files + dto.total_bytes ≤ limit_bytes u b.users)
          × (start_upload env u dto started b ≡ (
              started >>= λ b2_file_id.
              let s = new_session env u dto b2_file_id in
              ok (s, record b { sessions = save s b.sessions }))))
unfolding start_upload
start_upload-cases env u dto started b =
    elim (Bool-cases (ltb (limit_bytes u b.users) (used_bytes u b.files + dto.total_bytes))) [
      | inl e ↦ inl (rw e refl, ground arith)
      | inr e ↦ inr (ground arith, rw e refl)
    ]

used_bytes-save :
    (u : Uuid) (f : File) (t : List File)
    → get f.id t ≡ none
    → f.user_id ≡ u
    → used_bytes u (save f t) ≡ used_bytes u t + or_zero f.size_bytes
used_bytes-save u f [] h own = ground arith
used_bytes-save u f (x ∷ t) h own = ground (arith, used_bytes-save u f t)

start_upload_fits :
    (env : Env) (u : Uuid) (dto : StartUpload) (b2_file_id : String) (b : Uploads)
    → used_bytes u b.files + dto.total_bytes ≤ limit_bytes u b.users
    → start_upload env u dto (ok b2_file_id) b
      ≡ ok (new_session env u dto b2_file_id, save_session (new_session env u dto b2_file_id) b)
start_upload_fits env u dto b2_file_id b fits =
    elim (start_upload-cases env u dto (ok b2_file_id) b) [
      | inl (_, over) ↦ absurd (omega arith)
      | inr (_, e) ↦ e
    ]

-- The store after `completeUpload` without thumbnails.
abbrev completed : Env → Uuid → UploadSession → Uploads → Uploads
completed env u s b = record b {
  files = save (file_of env u none s) b.files;
  sessions = save (with_status env UploadSessionStatus.completed s) b.sessions;
  cache = increment_version u files b.cache;
}

complete_upload_open :
    (env : Env) (u : Uuid) (s : UploadSession) (b : Uploads)
    → get s.id b.sessions ≡ some s
    → is_own_open u s ≡ true
    → complete_upload env u s.id s.total_parts (ok tt) (ok none) b
      ≡ ok (file_of env u none s, completed env u s b)
unfolding complete_upload
complete_upload_open env u s b at own = rw (at, own, ==_refl s.total_parts) refl

-- One user starts two uploads of the same size, and then completes both.
abbrev pub two_uploads :
    (env1 env2 env3 env4 : Env) (u : Uuid) (dto : StartUpload) (b : Uploads) → Result Uploads
two_uploads env1 env2 env3 env4 u dto b = do
  (s1, b1) ← start_upload env1 u dto (ok "large_1") b
  (s2, b2) ← start_upload env2 u dto (ok "large_2") b1
  (_, b3) ← complete_upload env3 u s1.id dto.total_parts (ok tt) (ok none) b2
  (_, b4) ← complete_upload env4 u s2.id dto.total_parts (ok tt) (ok none) b3
  ok b4

-- The limit is not kept: sessions in progress do not count, and `completeUpload` does not check.
-- Whenever one more file of a size fits but two do not, a user who starts both uploads before
-- completing either gets both files, and the used bytes exceed the limit. The ids of the two
-- sessions and of the two files are new and distinct.
pub two_uploads_exceed_limit :
    (env1 env2 env3 env4 : Env) (u : Uuid) (dto : StartUpload) (b : Uploads)
    → env1.fresh_session ≢ env2.fresh_session
    → env3.fresh_file ≢ env4.fresh_file
    → get env3.fresh_file b.files ≡ none
    → get env4.fresh_file b.files ≡ none
    → used_bytes u b.files + dto.total_bytes ≤ limit_bytes u b.users
    → limit_bytes u b.users < used_bytes u b.files + 2 * dto.total_bytes
    → (b' : Uploads) × (two_uploads env1 env2 env3 env4 u dto b ≡ ok b')
      × (limit_bytes u b'.users < used_bytes u b'.files)
two_uploads_exceed_limit env1 env2 env3 env4 u dto b ne_s ne_f f3 f4 fits over =
    let s1 = new_session env1 u dto "large_1" in
    let s2 = new_session env2 u dto "large_2" in
    let b1 = save_session s1 b in
    let b2 = save_session s2 b1 in
    let b3 = completed env3 u s1 b2 in
    let own1 : is_own_open u s1 ≡ true = ground arith in
    let own2 : is_own_open u s2 ≡ true = ground arith in
    let at1 : get s1.id b2.sessions ≡ some s1 =
      ground (arith, get-save s1.id s1 b.sessions, get-save s1.id s2 b1.sessions) in
    let at2 : get s2.id b3.sessions ≡ some s2 = ground (
      arith,
      get-save s2.id s2 b1.sessions,
      get-save s2.id (with_status env3 UploadSessionStatus.completed s1) b2.sessions,
    ) in
    let f1 = file_of env3 u none s1 in
    let f2 = file_of env4 u none s2 in
    let fresh2 : get f2.id b3.files ≡ none = ground (arith, get-save f2.id f1 b.files) in
    (
      completed env4 u s2 b3,
      rw
          (
            start_upload_fits env1 u dto "large_1" b fits,
            start_upload_fits env2 u dto "large_2" b1 fits,
            complete_upload_open env3 u s1 b2 at1 own1,
            complete_upload_open env4 u s2 b3 at2 own2,
          )
          refl,
      omega
          (arith, used_bytes-save u f1 b.files f3 refl, used_bytes-save u f2 b3.files fresh2 refl),
    )
