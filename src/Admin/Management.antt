-- ===== src/Admin/Management.antt =====
-- The operations of `AdminService` (src/modules/admin/admin.service.ts) on accounts and plans.
use aamenn_backend.Base.{
  Bool, List, Option, Result, String, [], ceil_div, drop, false, if◌then◌else◌, internal, is_some,
  leb, length, none, not, ok, or_old, or_throw, select, some, sort_with, take, throw_if, true, ℕ,
  ◌&&◌, ◌*◌, ◌++◌, ◌-◌, ◌==◌, ◌>>=◌, ◌>>◌, ◌||◌, ◌∷◌,
}
use aamenn_backend.Storage.{b2_paths_all}
use aamenn_backend.Table.{delete_keys, get, save}
use aamenn_backend.Entities.Accounts.{User, UserRole, user_entity}
use aamenn_backend.Entities.Billing.{Plan, plan_entity}
use aamenn_backend.Entities.Library.{File, file_entity}
use aamenn_backend.Entities.Scalars.{Time, Uuid}

pub record Site : Type 0 where
  pub users : List User
  pub files : List File
  pub plans : List Plan
  -- the paths whose deletion was asked of the object store
  pub b2_deletions : List String

abbrev pub is_admin : UserRole → Bool
is_admin UserRole.user = false
is_admin UserRole.admin = true

abbrev pub is_plain_user : User → Bool
is_plain_user u = not (is_admin u.role)

-- A user that an administrator may change; otherwise a plain `Error`.
unfoldable pub find_plain_user : Uuid → List User → Result User
find_plain_user id t = do
  u ← or_throw (get id t) internal
  throw_if (is_admin u.role) internal
  ok u

unfoldable pub set_user_storage_limit : Time → Uuid → ℕ → Site → Result (User × Site)
unfolding find_plain_user
set_user_storage_limit now id storage_limit_gb s = do
  u ← find_plain_user id s.users
  let u' = record u { storage_limit_gb = storage_limit_gb; updated_at = now }
  ok (u', record s { users = save u' s.users })

unfoldable pub update_user_status : Time → Uuid → Option Bool → Site → Result (User × Site)
unfolding find_plain_user
update_user_status now id is_active s = do
  u ← find_plain_user id s.users
  let u' = record u { is_active = or_old is_active u.is_active; updated_at = now }
  ok (u', record s { users = save u' s.users })

abbrev pub is_file_of : Uuid → File → Bool
is_file_of u f = f.user_id == u

-- Returns `deletedFiles`. The database deletes the files along with their user, and rows of tables
-- that are left out here.
unfoldable pub delete_user : Uuid → Site → Result (ℕ × Site)
unfolding find_plain_user
delete_user id s = do
  u ← find_plain_user id s.users
  let doomed = select (is_file_of id) s.files
  ok (
    length doomed,
    record s {
      users = delete_keys (u.id ∷ []) s.users;
      files = select (λ f. not (is_file_of id f)) s.files;
      b2_deletions = s.b2_deletions ++ b2_paths_all doomed;
    },
  )

-- Prices are whole pounds.
pub record UpdatePlan : Type 0 where
  pub display_name : Option String
  pub storage_gb : Option ℕ
  pub price_egp : Option ℕ
  pub duration_days : Option ℕ
  pub is_active : Option Bool

abbrev pub priced : Option ℕ → Plan → Plan
priced none p = p
priced (some n) p = record p { price_egp = n; price_piasters = n * 100 }

unfoldable pub update_plan : Time → Uuid → UpdatePlan → Site → Result (Plan × Site)
update_plan now id up s = do
  p ← or_throw (get id s.plans) internal
  let p' = priced up.price_egp (record p {
    display_name = or_old up.display_name p.display_name;
    storage_gb = or_old up.storage_gb p.storage_gb;
    duration_days = or_old up.duration_days p.duration_days;
    is_active = or_old up.is_active p.is_active;
    updated_at = now;
  })
  ok (p', record s { plans = save p' s.plans })

unfoldable pub get_all_plans : List Plan → List Plan
get_all_plans = sort_with (λ (p q : Plan). leb p.storage_gb q.storage_gb)

unfoldable pub resolve_flagged_user : Time → Uuid → Site → Result Site
resolve_flagged_user now id s = do
  u ← or_throw (get id s.users) internal
  ok (record s { users = save (record u { signup_flagged = false; updated_at = now }) s.users })

-- The pages of users. `email_le` is the order of texts of the database.
pub data FlaggedSortBy : Type 0 where
  by_creation by_address : FlaggedSortBy

abbrev pub order_by {ℓ} : {A : Type ℓ} → Bool → (A → A → Bool) → A → A → Bool
order_by ascending le x y = if ascending then le x y else le y x

abbrev pub has_metadata : User → Bool
has_metadata u = u.signup_flagged || is_some u.signup_fingerprint || is_some u.signup_ip

abbrev pub is_in_review : Bool → User → Bool
is_in_review include_resolved u =
    is_plain_user u && (if include_resolved then has_metadata u else u.signup_flagged)

abbrev pub flagged_le : (String → String → Bool) → FlaggedSortBy → User → User → Bool
flagged_le email_le by_creation u v = leb u.created_at v.created_at
flagged_le email_le by_address u v = email_le u.email v.email

pub record UserPage {ℓ} (A : Type ℓ) : Type ℓ where
  pub users : List A
  pub total : ℕ
  pub page : ℕ
  pub limit : ℕ
  pub total_pages : ℕ

abbrev pub page_of_users {ℓ} : {A : Type ℓ} → ℕ → ℕ → List A → UserPage A
page_of_users page limit xs = record {
  users = take limit (drop ((page - 1) * limit) xs);
  total = length xs;
  page = page;
  limit = limit;
  total_pages = ceil_div (length xs) limit;
}

unfoldable pub get_flagged_users :
    (String → String → Bool) → ℕ → ℕ → FlaggedSortBy → Bool → Bool → List User → UserPage User
get_flagged_users email_le page limit sort_by ascending include_resolved t =
    page_of_users page limit (
      sort_with (order_by ascending (flagged_le email_le sort_by))
        (select (is_in_review include_resolved) t))
