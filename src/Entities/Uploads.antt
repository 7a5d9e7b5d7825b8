-- ===== src/Entities/Uploads.antt =====
-- The rows of `upload_sessions` (src/database/entities/upload-session.entity.ts).
use aamenn_backend.Base.{Bool, List, Option, String, ℕ}
use aamenn_backend.Table.{Entity}
use aamenn_backend.Entities.Scalars.{Time, Uuid}

pub data UploadSessionStatus : Type 0 where
  active completed cancelled expired : UploadSessionStatus

-- The `partNumber` that a request brings is not checked for its type. A natural number, or
-- another value: whether JavaScript finds it below 1 or above 10,000, and its text in JSON.
pub data PartNumber : Type 0 where
  whole : ℕ → PartNumber
  -- a text, a fraction, a negative number, a Boolean, null, or no value
  scalar : Bool → String → PartNumber
  -- an array or an object
  object : Bool → String → PartNumber

pub record CompletedPart : Type 0 where
  pub part_number : PartNumber
  pub sha1 : String

pub record UploadSession : Type 0 where
  pub id : Uuid
  pub user_id : Uuid
  pub b2_file_id : String
  pub b2_file_path : String
  pub file_name_encrypted : String
  pub cipher_file_key : String
  pub mime_type : Option String
  pub total_bytes : ℕ
  pub total_parts : ℕ
  pub chunk_size_bytes : ℕ
  pub completed_parts : List CompletedPart
  pub status : UploadSessionStatus
  pub content_hash : Option String
  pub folder_id : Option Uuid
  pub width : Option ℕ
  pub height : Option ℕ
  pub duration : Option ℕ
  pub created_at : Time
  pub updated_at : Time

instance abbrev pub session_entity : Entity UploadSession
session_entity = record { key = λ s. s.id }
