-- ===== src/Uploads/Changes.antt =====
-- What the handlers of `UploadsService` do to the table of sessions.
use aamenn_backend.Base.{
  >>=-eq-ok, Bool, Bool-cases, List, Option, Option-cases, Result, String, [], any, ap, arith,
  bad_request, false, if◌then◌else◌, inl, inr, length, ltb, none, not, not_found, ok, or_throw,
  payload_too_large, refl, select, some, throw_if, true, update_where, ℕ, ◌&&◌, ◌+◌, ◌==◌, ◌∙◌, ◌∷◌,
  ◌≡◌,
}
use aamenn_backend.Table.{IsKeyed, find_one, get, key-get, save}
use aamenn_backend.Entities.Accounts.{user_entity}
use aamenn_backend.Entities.Library.{File, file_entity}
use aamenn_backend.Entities.Scalars.{Uuid}
use aamenn_backend.Entities.Uploads.{PartNumber, UploadSession, UploadSessionStatus, session_entity}
use aamenn_backend.Table.Loops.{save_loop, save_loop-update_where}
use aamenn_backend.Uploads.Parts.{AreParts, AreParts-add}
use aamenn_backend.Uploads.Service.{
  PartList, StartUpload, Thumbs, add_part, cancel_upload, complete_upload, expire_loop,
  expire_stale_sessions, failed, get_session_status, gone, is_out_of_range, is_own_session, is_part,
  is_stale, listed, new_session, reconcile, record_part, save_session, start_upload, with_parts,
  with_status,
}
use aamenn_backend.Uploads.Sessions.{
  Change, IsAnswer, Later, UploadStep, cancel, complete, each, expire, insert, read_status,
  record_one, replace, start_one, stay,
}
use aamenn_backend.Uploads.Store.{
  Env, Uploads, get_active_session, is_open, is_own_open, limit_bytes, used_bytes,
}

expire_loop-save_loop :
    (env : Env) (rows : List UploadSession) (n : ℕ) (t : List UploadSession)
    → expire_loop env rows (n, t) ≡ (
      n + length rows,
      save_loop (λ s. true) (with_status env UploadSessionStatus.expired) rows t,
    )
unfolding expire_loop save_loop
expire_loop-save_loop env [] n t = ground arith
expire_loop-save_loop env (s ∷ rows) n t = ground (
  arith,
  expire_loop-save_loop env rows (n + 1) (save (with_status env UploadSessionStatus.expired s) t),
)

start-Change :
    (env : Env) (u : Uuid) (dto : StartUpload) (started : Result String) (b b' : Uploads)
    (s : UploadSession)
    → get env.fresh_session b.sessions ≡ none
    → start_upload env u dto started b ≡ ok (s, b')
    → Change b.sessions b'.sessions
unfolding start_upload
start-Change env u dto started b b' s fresh h =
    let (_, _, h') =
      >>=-eq-ok
        (throw_if (ltb (limit_bytes u b.users) (used_bytes u b.files + dto.total_bytes))
          payload_too_large)
        _ h in
    let (b2_file_id, _, h'') = >>=-eq-ok started _ h' in
    let e : b'.sessions ≡ save (new_session env u dto b2_file_id) b.sessions = ground arith in
    rw e (insert (new_session env u dto b2_file_id) fresh refl)

find_session :
    (p : UploadSession → Bool) (id : Uuid) (t : List UploadSession) (s : UploadSession)
    → or_throw (find_one id p t) not_found ≡ ok s
    → (get s.id t ≡ some s) × (p s ≡ true)
find_session p id t s h = elim (Option-cases (get id t)) [
  | inl e ↦ ground (arith, e, h)
  | inr (r, e) ↦
      let key : r.id ≡ id = key-get id t e in
      let this : r ≡ s = ground (arith, e, h) in
      (ground (arith, this, key, e), ground (arith, e, h, this))
]

get_active_session-eq-ok :
    (u id : Uuid) (b : Uploads) (s : UploadSession)
    → get_active_session u id b ≡ ok s
    → (get s.id b.sessions ≡ some s) × (is_open s.status ≡ true)
get_active_session-eq-ok u id b s h =
    let (at, own) = find_session (is_own_open u) id b.sessions s h in (at, ground arith)

-- An active session that keeps its parts and changes its status.
to_status :
    (env : Env) (status : UploadSessionStatus) (s : UploadSession)
    → is_open s.status ≡ true
    → Later s (with_status env status s)
to_status env status s waiting = record {
  id = refl;
  user = refl;
  waiting = λ h. waiting;
  ended = λ h. ground arith;
  parts = λ a. a;
}

to_parts :
    (s s' : UploadSession)
    → s'.id ≡ s.id
    → s'.user_id ≡ s.user_id
    → is_open s.status ≡ true
    → (AreParts s.completed_parts → AreParts s'.completed_parts)
    → Later s s'
to_parts s s' key owner waiting parts = record {
  id = key;
  user = owner;
  waiting = λ h. waiting;
  ended = λ h. ground arith;
  parts = parts;
}

recorded-Change :
    (env : Env) (n : PartNumber) (sha1 : String) (s : UploadSession) (b b' : Uploads) (d : Bool)
    → throw_if (is_out_of_range n) bad_request ≡ ok tt
    → get s.id b.sessions ≡ some s
    → is_open s.status ≡ true
    → ◌≡◌ {A = Bool × Uploads}
        (if any (is_part n) s.completed_parts
          then (true, b)
          else (false, save_session (add_part env n sha1 s) b))
        (d, b')
    → Change b.sessions b'.sessions
recorded-Change env n sha1 s b b' d range at waiting h =
    elim (Bool-cases (any (is_part n) s.completed_parts)) [
      | inl old ↦ let e : b'.sessions ≡ b.sessions = ground (arith, old, h) in rw e stay
      | inr new ↦
          let e : b'.sessions ≡ save (add_part env n sha1 s) b.sessions = ground (arith, new, h) in
          rw e (
            replace s (add_part env n sha1 s) at (
              to_parts s (add_part env n sha1 s) refl refl waiting
                (AreParts-add n sha1 s.completed_parts (ground arith) new)))
    ]

record_part-Change :
    (env : Env) (u id : Uuid) (n : PartNumber) (sha1 : String) (b b' : Uploads) (d : Bool)
    → record_part env u id n sha1 b ≡ ok (d, b')
    → Change b.sessions b'.sessions
unfolding record_part
record_part-Change env u id n sha1 b b' d h =
    let (_, range, h') = >>=-eq-ok (throw_if (is_out_of_range n) bad_request) _ h in
    let (s, found, h'') = >>=-eq-ok (get_active_session u id b) _ h' in
    let (at, waiting) = get_active_session-eq-ok u id b s found in
    recorded-Change env n sha1 s b b' d range at waiting (ground arith)

complete_upload-Change :
    (env : Env) (u id : Uuid) (n : ℕ) (finished : Result (Unit {0}))
    (thumbs : Result (Option Thumbs)) (b b' : Uploads) (f : File)
    → complete_upload env u id n finished thumbs b ≡ ok (f, b')
    → Change b.sessions b'.sessions
unfolding complete_upload
complete_upload-Change env u id n finished thumbs b b' f h =
    let (s, found, h1) = >>=-eq-ok (get_active_session u id b) _ h in
    let (_, _, h2) = >>=-eq-ok (throw_if (not (n == s.total_parts)) bad_request) _ h1 in
    let (_, _, h3) = >>=-eq-ok finished _ h2 in
    let (t, _, h4) = >>=-eq-ok thumbs _ h3 in
    let (at, waiting) = get_active_session-eq-ok u id b s found in
    let e : b'.sessions ≡ save (with_status env UploadSessionStatus.completed s) b.sessions =
      ground arith in
    rw e (
      replace s (with_status env UploadSessionStatus.completed s) at
        (to_status env UploadSessionStatus.completed s waiting))

cancel_upload-Change :
    (env : Env) (u id : Uuid) (b b' : Uploads)
    → cancel_upload env u id b ≡ ok b'
    → Change b.sessions b'.sessions
unfolding cancel_upload
cancel_upload-Change env u id b b' h =
    let (s, found, h1) =
      >>=-eq-ok (or_throw (find_one id (is_own_session u) b.sessions) not_found) _ h in
    let (at, _) = find_session (is_own_session u) id b.sessions s found in
    elim (Bool-cases (is_open s.status)) [
      | inr closed ↦ let e : b'.sessions ≡ b.sessions = ground (arith, closed, h1) in rw e stay
      | inl waiting ↦
          let e : b'.sessions ≡ save (with_status env UploadSessionStatus.cancelled s) b.sessions =
            ground (arith, waiting, h1) in
          rw e (
            replace s (with_status env UploadSessionStatus.cancelled s) at
              (to_status env UploadSessionStatus.cancelled s waiting))
    ]

reconcile-Change :
    (env : Env) (answer : PartList) (s : UploadSession) (b : Uploads)
    → IsAnswer answer
    → get s.id b.sessions ≡ some s
    → is_open s.status ≡ true
    → Change b.sessions (reconcile env answer s b).1.sessions
unfolding reconcile
reconcile-Change env (listed ps) s b a at waiting =
    replace s (with_parts env ps s) at (to_parts s (with_parts env ps s) refl refl waiting (λ _. a))
reconcile-Change env gone s b a at waiting =
    replace s (with_status env UploadSessionStatus.expired s) at
      (to_status env UploadSessionStatus.expired s waiting)
reconcile-Change env failed s b a at waiting = stay

get_session_status-Change :
    (env : Env) (u id : Uuid) (answer : PartList) (b b' : Uploads) (s : UploadSession)
    → IsAnswer answer
    → get_session_status env u id answer b ≡ ok (s, b')
    → Change b.sessions b'.sessions
unfolding get_session_status
get_session_status-Change env u id answer b b' s a h =
    let (r, found, h1) =
      >>=-eq-ok (or_throw (find_one id (is_own_session u) b.sessions) not_found) _ h in
    let (at, _) = find_session (is_own_session u) id b.sessions r found in
    elim (Bool-cases (is_open r.status)) [
      | inr closed ↦ let e : b'.sessions ≡ b.sessions = ground (arith, closed, h1) in rw e stay
      | inl waiting ↦
          let e : b'.sessions ≡ (reconcile env answer r b).1.sessions =
            ground (arith, waiting, h1) in
          rw e (reconcile-Change env answer r b a at waiting)
    ]

expire-Change :
    (env : Env) (max_age_ms : ℕ) (b : Uploads)
    → IsKeyed b.sessions
    → Change b.sessions (expire_stale_sessions env max_age_ms b).1.sessions
unfolding expire_stale_sessions
expire-Change env max_age_ms b keyed =
    let g = with_status env UploadSessionStatus.expired in
    let q = is_stale env max_age_ms in
    let e : (expire_stale_sessions env max_age_ms b).1.sessions
        ≡ update_where (λ s. q s && true) g b.sessions =
      ap (λ x. x.1) (expire_loop-save_loop env (select q b.sessions) 0 b.sessions)
      ∙ save_loop-update_where (λ s. true) g (λ r. refl) q b.sessions keyed in
    rw e (
      each (λ s. q s && true) g (λ r. refl)
        (λ r h. to_status env UploadSessionStatus.expired r (ground arith)))

-- The ids of sessions are unique.
pub UploadStep-Change :
    {b c : Uploads} → UploadStep b c → IsKeyed b.sessions → Change b.sessions c.sessions
UploadStep-Change (start_one env u dto started b b' s fresh h) keyed =
    start-Change env u dto started b b' s fresh h
UploadStep-Change (record_one env u id n sha1 b b' d h) keyed =
    record_part-Change env u id n sha1 b b' d h
UploadStep-Change (complete env u id n finished thumbs b b' f h) keyed =
    complete_upload-Change env u id n finished thumbs b b' f h
UploadStep-Change (cancel env u id b b' h) keyed = cancel_upload-Change env u id b b' h
UploadStep-Change (read_status env u id answer b b' s a h) keyed =
    get_session_status-Change env u id answer b b' s a h
UploadStep-Change (expire env max_age_ms b) keyed = expire-Change env max_age_ms b keyed
