-- ===== src/Entities/Library.antt =====
-- The rows of the tables `folders` and `files` (src/database/entities/folder.entity.ts and
-- file.entity.ts), and of `share_links`. Relations are the ids that they join on.
use aamenn_backend.Base.{ℕ, Bool, Option, String}
use aamenn_backend.Table.{Entity}
use aamenn_backend.Entities.Scalars.{Uuid, Time}

pub record Folder : Type 0 where
  pub id : Uuid
  pub user_id : Uuid
  -- none: root level
  pub parent_folder_id : Option Uuid
  pub name_encrypted : String
  pub created_at : Time
  pub updated_at : Time
  pub deleted_at : Option Time

instance abbrev pub folder_entity : Entity Folder
folder_entity = record { key = λ f. f.id }

pub record File : Type 0 where
  pub id : Uuid
  pub user_id : Uuid
  pub b2_file_path : String
  pub b2_thumb_small_path : Option String
  pub b2_thumb_medium_path : Option String
  pub b2_thumb_large_path : Option String
  pub cipher_file_key : String
  pub file_name_encrypted : String
  pub mime_type : Option String
  pub size_bytes : Option ℕ
  pub width : Option ℕ
  pub height : Option ℕ
  pub duration : Option ℕ
  pub folder_id : Option Uuid
  pub is_favorite : Bool
  pub is_avatar : Bool
  pub content_hash : Option String
  pub created_at : Time
  pub updated_at : Time
  pub deleted_at : Option Time

instance abbrev pub file_entity : Entity File
file_entity = record { key = λ f. f.id }
