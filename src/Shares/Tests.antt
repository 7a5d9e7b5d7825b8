-- ===== src/Shares/Tests.antt =====
-- The theorems on shares at sample links.
use aamenn_backend.Base.{
  All, List, Option, [], codes, err, false, forbidden, inr, length, none, not_found, ok, refl,
  same_codes, some, true, ℕ, ◌+◌, ◌∷◌, ◌≡◌, ◌≤◌, ◌⊎◌,
}
use aamenn_backend.Cache.{files, increment_version}
use aamenn_backend.Table.{find_one, get}
use aamenn_backend.Entities.Accounts.{user_entity}
use aamenn_backend.Entities.Library.{File, Folder, file_entity, folder_entity}
use aamenn_backend.Entities.Scalars.{Uuid}
use aamenn_backend.Entities.Shares.{ShareItem, ShareItemType, ShareLink, share_entity}
use aamenn_backend.Files.Objects.{save-IsSafe}
use aamenn_backend.Files.Safety.{IsSafeDrive}
use aamenn_backend.Files.Samples.{photo, sample_cache}
use aamenn_backend.Files.Store.{Drive}
use aamenn_backend.Files.Trash.{delete_file_permanently, doomed_paths, has_other_active_references}
use aamenn_backend.Shares.Ancestors.{Decides, LiesAbove, is_folder_descendant_of-decides}
use aamenn_backend.Shares.Browsing.{IsShared, browse_share_folder-decides}
use aamenn_backend.Shares.Copies.{Reach-IsSafe, and_then, deleted, none_yet, saved}
use aamenn_backend.Shares.Creating.{IsOwnItem, create_share-allowed, create_share-find_active_share}
use aamenn_backend.Shares.Foreign.{entry_of, save_to_account-foreign}
use aamenn_backend.Shares.Normal.{IsSlug, normalize_slug-IsSlug}
use aamenn_backend.Shares.Service.{
  CreateShare, FolderView, SavedFile, browse_share_folder, copy_of, create_share, is_active_file_in,
  new_share, save_to_account,
}
use aamenn_backend.Shares.Slugs.{candidate, decimal, generate_unique_slug, normalize_slug}
use aamenn_backend.Shares.Store.{
  Links, find_active_share, is_active_folder, is_folder_descendant_of, is_over, verify_ownership,
}
use aamenn_backend.Shares.Unused.{IsFirstUnused, generate_unique_slug-total}
use aamenn_backend.Shares.Store.{Env as ShareEnv}

abbrev share_env : ShareEnv
share_env = record { now = 1000; fresh_share = 5 }

-- Folders 1, 2 and 3 of user 7: each lies in the one before it; folders 4 and 5 lie in each other.
abbrev dir : Uuid → Option Uuid → Folder
dir id parent = record {
  id = id;
  user_id = 7;
  parent_folder_id = parent;
  name_encrypted = "name";
  created_at = id;
  updated_at = id;
  deleted_at = none;
}

abbrev dirs : List Folder
dirs = dir 1 none ∷ dir 2 (some 1) ∷ dir 3 (some 2) ∷ dir 4 (some 5) ∷ dir 5 (some 4) ∷ []

abbrev shared_dir : ShareItem
shared_dir = record { type = ShareItemType.folder; id = 1 }

abbrev request : CreateShare
request = record {
  items = shared_dir ∷ [];
  slug_base = "My  Trip!";
  share_key = "key";
  file_keys = some ((10, "file_key") ∷ []);
  file_names = none;
  expires_in_seconds = some 60;
}

abbrev one_file : File
one_file = record (photo 10 7 "users/7/files/10" none) { folder_id = some 3 }

abbrev links : Links
links = record {
  shares = [];
  folders = dirs;
  drive = record { files = one_file ∷ []; users = []; cache = sample_cache; b2_deletions = [] };
}

-- `my-trip`
abbrev slug : List ℕ
slug = codes "my-trip"

abbrev link : ShareLink
link = new_share share_env 7 slug request

abbrev linked : Links
linked = record links { shares = link ∷ [] }

normalize_slug-IsSlug_example :
    IsSlug (normalize_slug "My  Trip!") × (1 ≤ length (normalize_slug "My  Trip!"))
normalize_slug-IsSlug_example = normalize_slug-IsSlug "My  Trip!"

normalized : normalize_slug "My  Trip!" ≡ slug
unfolding normalize_slug
normalized = refl

generate_unique_slug-total_example :
    (k : ℕ) × (generate_unique_slug "My  Trip!" (slug ∷ codes "my-trip-2" ∷ [])
      ≡ ok (candidate (normalize_slug "My  Trip!") k))
    × IsFirstUnused (normalize_slug "My  Trip!") 1 (slug ∷ codes "my-trip-2" ∷ []) k
generate_unique_slug-total_example =
    generate_unique_slug-total "My  Trip!" (slug ∷ codes "my-trip-2" ∷ [])

third : generate_unique_slug "My  Trip!" (slug ∷ codes "my-trip-2" ∷ []) ≡ ok (codes "my-trip-3")
unfolding generate_unique_slug decimal
third = refl

is_folder_descendant_of-decides_example :
    Decides (is_folder_descendant_of 4 1 dirs) (LiesAbove dirs 1 4)
is_folder_descendant_of-decides_example = is_folder_descendant_of-decides 4 1 dirs

cycle : (is_folder_descendant_of 4 1 dirs ≡ ok false) × (is_folder_descendant_of 3 1 dirs ≡ ok true)
unfolding is_folder_descendant_of
cycle = (refl, refl)

create_share-allowed_example :
    (All (IsOwnItem 7 links) request.items
      → (r : ShareLink × Links) × (create_share share_env 7 request links ≡ ok r))
    × ((r : ShareLink × Links)
        → create_share share_env 7 request links ≡ ok r
        → All (IsOwnItem 7 links) request.items)
create_share-allowed_example = create_share-allowed share_env 7 request links

created : create_share share_env 7 request links ≡ ok (link, linked)
unfolding create_share generate_unique_slug verify_ownership decimal
created = refl

create_share-find_active_share_example :
    (is_over share_env link.expires_at ≡ false
      → find_active_share share_env slug linked.shares ≡ ok link)
    × (link.owner_user_id ≡ 7)
    × (link.items ≡ request.items)
    × ((other : List ℕ)
        → get 5 links.shares ≡ none
        → same_codes slug other ≡ false
        → find_active_share share_env other linked.shares
          ≡ find_active_share share_env other links.shares)
create_share-find_active_share_example =
    create_share-find_active_share share_env share_env 7 request links linked link created

found : find_active_share share_env slug linked.shares ≡ ok link
unfolding find_active_share
found = refl

browse_share_folder-decides_example :
    (IsShared dirs 3 link.items
      × ((f : Folder)
          → find_one 3 is_active_folder dirs ≡ some f
          → (view : FolderView) × (browse_share_folder share_env slug 3 linked ≡ ok view)
            × (view.name_encrypted ≡ f.name_encrypted)
            × All (λ (g : File). is_active_file_in 3 g ≡ true) view.files)
      × (find_one 3 is_active_folder dirs ≡ none
          → browse_share_folder share_env slug 3 linked ≡ err not_found))
    ⊎ ((¬ IsShared dirs 3 link.items)
        × (browse_share_folder share_env slug 3 linked ≡ err forbidden))
browse_share_folder-decides_example = browse_share_folder-decides share_env slug 3 linked link found

-- User 8 saves the file, and user 7 deletes it for good.
abbrev entry : SavedFile
entry = record { original_file_id = 10; cipher_file_key = "key8"; file_name_encrypted = "name8" }

abbrev copied : Drive
copied = record linked.drive { files = one_file ∷ copy_of 1000 20 8 entry one_file ∷ [] }

save_step :
    save_to_account share_env (λ k. 20 + k) slug 8 (entry ∷ []) linked
    ≡ ok (1, record linked { drive = copied })
unfolding save_to_account find_active_share
save_step = refl

abbrev left_over : Drive
left_over = record copied {
  files = copy_of 1000 20 8 entry one_file ∷ [];
  cache = increment_version 7 files sample_cache;
}

delete_step : delete_file_permanently 10 7 copied ≡ ok left_over
unfolding delete_file_permanently doomed_paths has_other_active_references
delete_step = refl

drive_IsSafe : IsSafeDrive linked.drive
drive_IsSafe =
    save-IsSafe [] [] one_file (λ p _. (refl, λ i g at. cc))
      (record { keyed = tt; copies = λ i j f g at. cc; kept = λ i f at. cc })

Reach-IsSafe_example : IsSafeDrive left_over
Reach-IsSafe_example = Reach-IsSafe drive_IsSafe (
    and_then
      (and_then none_yet (
        saved share_env (λ k. 20 + k) slug 8 (entry ∷ []) 1 linked
          (record linked { drive = copied }) save_step))
      (deleted 10 7 copied left_over delete_step))

-- User 8 shares a folder of their own and gets the file of user 7.
abbrev own_dir : Folder
own_dir = record (dir 6 none) { user_id = 8 }

abbrev strangers : Links
strangers = record links { folders = own_dir ∷ [] }

abbrev claim : CreateShare
claim = record request {
  items = record { type = ShareItemType.folder; id = 6 } ∷ [];
  expires_in_seconds = none;
}

save_to_account-foreign_example :
    (s : ShareLink) × (l1 : Links) × (l2 : Links) × (create_share share_env 8 claim strangers
      ≡ ok (s, l1))
    × (save_to_account share_env
          (λ k. 20 + k)
          s.slug
          8
          (entry_of one_file "file_key" "name8" ∷ [])
          l1
        ≡ ok (1, l2))
    × (get 20 l2.drive.files
        ≡ some (copy_of 1000 20 8 (entry_of one_file "file_key" "name8") one_file))
save_to_account-foreign_example =
    save_to_account-foreign share_env (λ k. 20 + k) 8 claim "name8" "file_key" one_file strangers
      (inr (refl, own_dir, refl, refl, refl), tt) refl refl refl refl refl refl
