-- ===== src/Uploads/Sessions.antt =====
-- The life of an upload session: active, and then completed, cancelled or expired for good.
use aamenn_backend.Base.{
  Bool, List, Option, Result, String, [], false, none, ok, some, true, update_where, ℕ, ◌≡◌,
}
use aamenn_backend.Table.{get, save}
use aamenn_backend.Entities.Accounts.{user_entity}
use aamenn_backend.Entities.Library.{File, file_entity}
use aamenn_backend.Entities.Scalars.{Uuid}
use aamenn_backend.Entities.Uploads.{PartNumber, UploadSession, session_entity}
use aamenn_backend.Uploads.Parts.{AreParts}
use aamenn_backend.Uploads.Service.{
  PartList, StartUpload, Thumbs, cancel_upload, complete_upload, expire_stale_sessions, failed,
  get_session_status, gone, listed, record_part, start_upload,
}
use aamenn_backend.Uploads.Store.{Env, Uploads, is_open}

abbrev pub IsAnswer : PartList → Type 0
IsAnswer (listed ps) = AreParts ps
IsAnswer gone = Unit {0}
IsAnswer failed = Unit {0}

-- A request or a job that succeeded. A new session gets an id that the table does not have.
pub data UploadStep : Uploads → Uploads → Type 0 where
  start_one :
      (env : Env) (u : Uuid) (dto : StartUpload) (started : Result String) (b b' : Uploads)
      (s : UploadSession)
      → get env.fresh_session b.sessions ≡ none
      → start_upload env u dto started b ≡ ok (s, b')
      → UploadStep b b'
  record_one :
      (env : Env) (u id : Uuid) (n : PartNumber) (sha1 : String) (b b' : Uploads) (d : Bool)
      → record_part env u id n sha1 b ≡ ok (d, b')
      → UploadStep b b'
  complete :
      (env : Env) (u id : Uuid) (n : ℕ) (finished : Result (Unit {0}))
      (thumbs : Result (Option Thumbs)) (b b' : Uploads) (f : File)
      → complete_upload env u id n finished thumbs b ≡ ok (f, b')
      → UploadStep b b'
  cancel :
      (env : Env) (u id : Uuid) (b b' : Uploads)
      → cancel_upload env u id b ≡ ok b'
      → UploadStep b b'
  read_status :
      (env : Env) (u id : Uuid) (answer : PartList) (b b' : Uploads) (s : UploadSession)
      → IsAnswer answer
      → get_session_status env u id answer b ≡ ok (s, b')
      → UploadStep b b'
  expire :
      (env : Env) (max_age_ms : ℕ) (b : Uploads)
      → UploadStep b (expire_stale_sessions env max_age_ms b).1

pub data UploadReach (a : Uploads) : Uploads → Type 0 where
  here : UploadReach a a
  next : {b c : Uploads} → UploadReach a b → UploadStep b c → UploadReach a c

-- What may become of a session: it does not return to active, once it has ended its status and
-- its parts stay, and its parts stay in order.
pub record Later (s s' : UploadSession) : Type 0 where
  pub id : s'.id ≡ s.id
  pub user : s'.user_id ≡ s.user_id
  pub waiting : is_open s'.status ≡ true → is_open s.status ≡ true
  pub ended :
      is_open s.status ≡ false → (s'.status ≡ s.status) × (s'.completed_parts ≡ s.completed_parts)
  pub parts : AreParts s.completed_parts → AreParts s'.completed_parts

-- What each step does to the table: it saves an active session or a new one, expires stale ones,
-- or leaves the table.
pub data Change (t : List UploadSession) : List UploadSession → Type 0 where
  stay : Change t t
  insert : (s : UploadSession) → get s.id t ≡ none → s.completed_parts ≡ [] → Change t (save s t)
  replace : (s s' : UploadSession) → get s.id t ≡ some s → Later s s' → Change t (save s' t)
  each :
      (q : UploadSession → Bool) (g : UploadSession → UploadSession)
      → ((r : UploadSession) → (g r).id ≡ r.id)
      → ((r : UploadSession) → q r ≡ true → Later r (g r))
      → Change t (update_where q g t)
