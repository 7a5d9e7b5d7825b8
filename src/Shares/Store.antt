-- ===== src/Shares/Store.antt =====
-- The repositories that `SharesService` uses (src/modules/shares/shares.service.ts), and its
-- private helpers.
use aamenn_backend.Base.{
  Bool, List, Option, Result, [], err, false, forbidden, if◌then◌else◌, inl, inr, is_none, length,
  ltb, member, none, not, not_found, ok, or_throw, refl, same_codes, some, stuck, suc, throw_if,
  true, zero, ℕ, ◌+◌, ◌==◌, ◌>>=◌, ◌>>◌, ◌∷◌, ◌≡◌, ◌⊎◌,
}
use aamenn_backend.Table.{find_one}
use aamenn_backend.Entities.Library.{Folder, file_entity, folder_entity}
use aamenn_backend.Entities.Scalars.{Time, Uuid}
use aamenn_backend.Entities.Shares.{ShareItem, ShareItemType, ShareLink, share_entity}
use aamenn_backend.Files.Store.{Drive, is_kept_file}
use aamenn_backend.Folders.Store.{parent_of_found}

pub record Links : Type 0 where
  pub shares : List ShareLink
  pub folders : List Folder
  pub drive : Drive

-- The clock, and the id of a new share.
pub record Env : Type 0 where
  pub now : Time
  pub fresh_share : Uuid

-- `{ id, deletedAt: IsNull() }`; a query without `withDeleted` adds the second part by itself.
abbrev pub is_active_folder : Folder → Bool
is_active_folder f = is_none f.deleted_at

abbrev pub is_owner : Uuid → Uuid → Bool
is_owner user_id owner = owner == user_id

pub kind-cases : (k : ShareItemType) → (k ≡ ShareItemType.file) ⊎ (k ≡ ShareItemType.folder)
kind-cases ShareItemType.file = inl refl
kind-cases ShareItemType.folder = inr refl

unfoldable pub verify_ownership : Uuid → ShareItem → Links → Result (Unit {0})
verify_ownership u item l = elim item.type [
  | ShareItemType.file ↦ do
    f ← or_throw (find_one item.id is_kept_file l.drive.files) not_found
    throw_if (not (is_owner u f.user_id)) forbidden
  | ShareItemType.folder ↦ do
    f ← or_throw (find_one item.id is_active_folder l.folders) not_found
    throw_if (not (is_owner u f.user_id)) forbidden
]

abbrev pub is_over : Env → Option Time → Bool
is_over env none = false
is_over env (some t) = ltb t env.now

abbrev pub find_slug : List ℕ → List ShareLink → Option ShareLink
find_slug slug [] = none
find_slug slug (s ∷ t) = if same_codes s.slug slug then some s else find_slug slug t

unfoldable pub find_active_share : Env → List ℕ → List ShareLink → Result ShareLink
find_active_share env slug t = do
  s ← or_throw (find_slug slug t) not_found
  throw_if (not (is_none s.revoked_at)) not_found
  throw_if (is_over env s.expires_at) not_found
  ok s

-- One round of `isFolderDescendantOf`: the parent of a folder outside the trash.
abbrev pub active_parent : List Folder → Uuid → Option Uuid
active_parent t id = parent_of_found (find_one id is_active_folder t)

-- The loop, over the visited ids and the current one.
unfoldable pub ancestor_loop : ℕ → List Folder → Uuid → List Uuid → Uuid → Result Bool
ancestor_loop zero t ancestor visited current = err stuck
ancestor_loop (suc n) t ancestor visited current =
    if member current visited
    then ok false
    else (if current == ancestor then ok true else (elim (active_parent t current) [
      | none ↦ ok false
      | some p ↦ ancestor_loop n t ancestor (current ∷ visited) p
    ]))

-- Each round but the last visits another row.
unfoldable pub is_folder_descendant_of : Uuid → Uuid → List Folder → Result Bool
unfolding ancestor_loop
is_folder_descendant_of id ancestor t = ancestor_loop (length t + 2) t ancestor [] id

unfoldable pub is_folder_accessible : List ShareItem → Uuid → List Folder → Result Bool
unfolding is_folder_descendant_of
is_folder_accessible [] id t = ok false
is_folder_accessible (item ∷ items) id t =
    let rest = is_folder_accessible items id t in
    elim item.type [
      | ShareItemType.file ↦ rest
      | ShareItemType.folder ↦
          if item.id == id
          then ok true
          else (is_folder_descendant_of id item.id t >>= λ below. if below then ok true else rest)
    ]
