-- ===== src/Entities/Shares.antt =====
-- src/database/entities: links to shared files and folders.
use aamenn_backend.Base.{List, Option, String, ℕ}
use aamenn_backend.Table.{Entity}
use aamenn_backend.Entities.Library.{file_entity, folder_entity}
use aamenn_backend.Entities.Scalars.{Time, Uuid}

pub data ShareItemType : Type 0 where
  file folder : ShareItemType

pub record ShareItem : Type 0 where
  pub type : ShareItemType
  pub id : Uuid

-- What `createShare` writes to the column `metadata`: texts under ids of files.
pub record ShareMetadata : Type 0 where
  pub file_keys : Option (List (Uuid × String))
  pub file_names : Option (List (Uuid × String))

-- A slug is the list of its code points.
pub record ShareLink : Type 0 where
  pub id : Uuid
  pub slug : List ℕ
  pub owner_user_id : Uuid
  pub items : List ShareItem
  pub share_key : String
  pub metadata : Option ShareMetadata
  pub expires_at : Option Time
  pub revoked_at : Option Time
  pub created_at : Time
  pub updated_at : Time

instance abbrev pub share_entity : Entity ShareLink
share_entity = record { key = λ s. s.id }
