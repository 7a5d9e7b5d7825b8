-- ===== src/Shares/Service.antt =====
-- The handlers of `SharesService` (src/modules/shares/shares.service.ts). Signed URLs of the object
-- store and the URL of a link are left out of the answers.
use text.Mathlib.Text.{◌==◌ as str_eq}
use aamenn_backend.Base.{
  Bool, List, Option, Result, String, [], any, drop, false, forbidden, if◌then◌else◌, is_id,
  is_none, leb, length, none, not, not_found, ok, or_throw, select, some, sort_with, suc, take,
  throw_if, ℕ, ◌&&◌, ◌*◌, ◌++◌, ◌+◌, ◌-◌, ◌==◌, ◌>>=◌, ◌>>◌, ◌∷◌,
}
use aamenn_backend.Table.{find_one, get, save}
use aamenn_backend.Entities.Library.{File, Folder, file_entity, folder_entity}
use aamenn_backend.Entities.Scalars.{Time, Uuid}
use aamenn_backend.Entities.Shares.{
  ShareItem, ShareItemType, ShareLink, ShareMetadata, share_entity,
}
use aamenn_backend.Files.Store.{has_path, is_kept_file, is_own_file}
use aamenn_backend.Shares.Slugs.{generate_unique_slug}
use aamenn_backend.Shares.Store.{
  Env, Links, find_active_share, is_active_folder, is_folder_accessible, is_over, is_owner,
  verify_ownership,
}

-- `CreateShareDto`
pub record CreateShare : Type 0 where
  pub items : List ShareItem
  pub slug_base : String
  pub share_key : String
  pub file_keys : Option (List (Uuid × String))
  pub file_names : Option (List (Uuid × String))
  pub expires_in_seconds : Option ℕ

unfoldable pub verify_items : Uuid → List ShareItem → Links → Result (Unit {0})
unfolding verify_ownership
verify_items u [] l = ok tt
verify_items u (item ∷ items) l = do verify_ownership u item l; verify_items u items l

-- An expiry of zero counts as absent.
abbrev pub expiry_of : Env → Option ℕ → Option Time
expiry_of env none = none
expiry_of env (some n) = if n == 0 then none else some (env.now + n * 1000)

abbrev pub metadata_of : CreateShare → Option ShareMetadata
metadata_of dto =
    if is_none dto.file_keys && is_none dto.file_names
    then none
    else some (record { file_keys = dto.file_keys; file_names = dto.file_names })

abbrev pub slugs_of : List ShareLink → List (List ℕ)
slugs_of [] = []
slugs_of (s ∷ t) = s.slug ∷ slugs_of t

abbrev pub new_share : Env → Uuid → List ℕ → CreateShare → ShareLink
new_share env u slug dto = record {
  id = env.fresh_share;
  slug = slug;
  owner_user_id = u;
  items = dto.items;
  share_key = dto.share_key;
  metadata = metadata_of dto;
  expires_at = expiry_of env dto.expires_in_seconds;
  revoked_at = none;
  created_at = env.now;
  updated_at = env.now;
}

unfoldable pub create_share : Env → Uuid → CreateShare → Links → Result (ShareLink × Links)
unfolding verify_items
create_share env u dto l = do
  verify_items u dto.items l
  slug ← generate_unique_slug dto.slug_base (slugs_of l.shares)
  let s = new_share env u slug dto
  ok (s, record l { shares = save s l.shares })

-- `listShares`: a page of the user's links, the newest first, and their number.
unfoldable pub list_shares : Uuid → ℕ → ℕ → List ShareLink → List ShareLink × ℕ
list_shares u page limit t =
    let own =
      sort_with (λ (a b : ShareLink). leb b.created_at a.created_at)
        (select (λ (s : ShareLink). is_owner u s.owner_user_id) t) in
    (take limit (drop ((page - 1) * limit) own), length own)

unfoldable pub revoke_share : Env → Uuid → Uuid → Links → Result Links
revoke_share env id u l = do
  s ← or_throw (get id l.shares) not_found
  throw_if (not (is_owner u s.owner_user_id)) forbidden
  ok (record l {
    shares = save (record s { revoked_at = some env.now; updated_at = env.now }) l.shares;
  })

pub data RootItem : Type 0 where
  file_item : File → RootItem
  folder_item : Uuid → String → RootItem

-- `resolveRootItem`; `null` is the empty list.
unfoldable pub resolve_root_item : ShareItem → Links → List RootItem
resolve_root_item item l = elim item.type [
  | ShareItemType.file ↦ elim (find_one item.id is_kept_file l.drive.files) [
    | none ↦ []
    | some f ↦ file_item f ∷ []
  ]
  | ShareItemType.folder ↦ elim (find_one item.id is_active_folder l.folders) [
    | none ↦ []
    | some f ↦ folder_item f.id f.name_encrypted ∷ []
  ]
]

unfoldable pub resolve_items : List ShareItem → Links → List RootItem
unfolding resolve_root_item
resolve_items [] l = []
resolve_items (item ∷ items) l = resolve_root_item item l ++ resolve_items items l

unfoldable pub resolve_share : Env → List ℕ → Links → Result (ShareLink × List RootItem)
unfolding find_active_share resolve_items
resolve_share env slug l = do
  s ← find_active_share env slug l.shares
  ok (s, resolve_items s.items l)

-- The listing of a folder: its name, its folders by age and its files, the newest first.
pub record FolderView : Type 0 where
  pub name_encrypted : String
  pub folders : List Folder
  pub files : List File

abbrev pub is_active_child : Uuid → Folder → Bool
is_active_child id f = is_id f.parent_folder_id id && is_active_folder f

abbrev pub is_active_file_in : Uuid → File → Bool
is_active_file_in id f = is_id f.folder_id id && is_kept_file f

abbrev pub view_of : Uuid → Folder → Links → FolderView
view_of id f l = record {
  name_encrypted = f.name_encrypted;
  folders =
      sort_with (λ (a b : Folder). leb a.created_at b.created_at)
        (select (is_active_child id) l.folders);
  files =
      sort_with (λ (a b : File). leb b.created_at a.created_at)
        (select (is_active_file_in id) l.drive.files);
}

unfoldable pub browse_share_folder : Env → List ℕ → Uuid → Links → Result FolderView
unfolding find_active_share is_folder_accessible
browse_share_folder env slug id l = do
  s ← find_active_share env slug l.shares
  accessible ← is_folder_accessible s.items id l.folders
  throw_if (not accessible) forbidden
  f ← or_throw (find_one id is_active_folder l.folders) not_found
  ok (view_of id f l)

-- `share.metadata?.fileKeys ?? {}`
abbrev pub file_keys_of : ShareLink → List (Uuid × String)
file_keys_of s = elim s.metadata [
  | none ↦ []
  | some m ↦ elim m.file_keys [ none ↦ [] | some keys ↦ keys ]
]

-- An entry with an empty text counts as absent.
abbrev pub has_key : List (Uuid × String) → Uuid → Bool
has_key [] id = false
has_key ((k, v) ∷ keys) id = if k == id then not (str_eq v "") else has_key keys id

-- One entry of the request.
pub record SavedFile : Type 0 where
  pub original_file_id : Uuid
  pub cipher_file_key : String
  pub file_name_encrypted : String

-- The row that refers to the objects of the original.
abbrev pub copy_of : Time → Uuid → Uuid → SavedFile → File → File
copy_of now id u item f = record f {
  id = id;
  user_id = u;
  cipher_file_key = item.cipher_file_key;
  file_name_encrypted = item.file_name_encrypted;
  folder_id = none;
  is_favorite = false;
  is_avatar = false;
  created_at = now;
  updated_at = now;
  deleted_at = none;
}

abbrev pub has_copy : Uuid → File → List File → Bool
has_copy u f t = any (λ g. is_own_file u g && has_path f.b2_file_path g && is_kept_file g) t

-- One round: whether the entry counts as saved, and the files.
unfoldable pub save_one :
    Time → Uuid → Uuid → List (Uuid × String) → SavedFile → List File → ℕ × List File
save_one now fresh u keys item t =
    if not (has_key keys item.original_file_id)
    then (0, t)
    else (elim (find_one item.original_file_id is_kept_file t) [
      | none ↦ (0, t)
      | some f ↦ if has_copy u f t then (1, t) else (1, save (copy_of now fresh u item f) t)
    ])

-- The loop; `fresh` are the ids that new rows get, round by round.
unfoldable pub save_files :
    Time → (ℕ → Uuid) → Uuid → List (Uuid × String) → List SavedFile → List File → ℕ × List File
unfolding save_one
save_files now fresh u keys [] t = (0, t)
save_files now fresh u keys (item ∷ items) t =
    let (n, t') = save_one now (fresh 0) u keys item t in
    let (m, t'') = save_files now (λ k. fresh (suc k)) u keys items t' in (n + m, t'')

-- Returns `savedCount`.
unfoldable pub save_to_account :
    Env → (ℕ → Uuid) → List ℕ → Uuid → List SavedFile → Links → Result (ℕ × Links)
unfolding find_active_share save_files
save_to_account env fresh slug u items l = do
  s ← find_active_share env slug l.shares
  let (n, t) = save_files env.now fresh u (file_keys_of s) items l.drive.files
  ok (n, record l { drive = record l.drive { files = t } })

pub data ShareStatus : Type 0 where
  active expired revoked : ShareStatus

unfoldable pub get_share_status : Env → ShareLink → ShareStatus
get_share_status env s =
    if not (is_none s.revoked_at)
    then ShareStatus.revoked
    else (if is_over env s.expires_at then ShareStatus.expired else ShareStatus.active)
