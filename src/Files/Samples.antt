-- ===== src/Files/Samples.antt =====
-- A sample drive: rows of files that two users have.
use aamenn_backend.Base.{Option, String, [], false, none, some, true, ◌∷◌}
use aamenn_backend.Cache.{Cache}
use aamenn_backend.Entities.Accounts.{user_entity}
use aamenn_backend.Entities.Library.{File, file_entity}
use aamenn_backend.Entities.Scalars.{Time, Uuid}
use aamenn_backend.Files.Store.{Drive, Env}

abbrev pub sample_cache : Cache
sample_cache = record { is_healthy = true; failure_count = 0; answers = true; versions = λ u k. 0 }

abbrev pub sample_env : Env
sample_env = record {
  now = 1000;
  fresh_file = 99;
  b2_file_path = "users/7/files/99";
  thumb_small_path = "users/7/thumbs/99/small";
  thumb_medium_path = "users/7/thumbs/99/medium";
  thumb_large_path = "users/7/thumbs/99/large";
}

-- File `id` of user `u`, with the objects under a path.
abbrev pub photo : Uuid → Uuid → String → Option Time → File
photo id u path deleted_at = record {
  id = id;
  user_id = u;
  b2_file_path = path;
  b2_thumb_small_path = some "small";
  b2_thumb_medium_path = some "medium";
  b2_thumb_large_path = some "large";
  cipher_file_key = "key";
  file_name_encrypted = "name";
  mime_type = none;
  size_bytes = some 10;
  width = none;
  height = none;
  duration = none;
  folder_id = none;
  is_favorite = false;
  is_avatar = false;
  content_hash = none;
  created_at = id;
  updated_at = id;
  deleted_at = deleted_at;
}

-- Two rows of users 7 and 8 for one object, the first one in the trash, and a file of user 7.
abbrev pub my_copy : File
my_copy = photo 1 7 "users/8/files/2" (some 500)

abbrev pub their_file : File
their_file = photo 2 8 "users/8/files/2" none

abbrev pub other_file : File
other_file = photo 3 7 "users/7/files/3" none

abbrev pub sample_drive : Drive
sample_drive = record {
  files = my_copy ∷ their_file ∷ other_file ∷ [];
  users = [];
  cache = sample_cache;
  b2_deletions = [];
}
