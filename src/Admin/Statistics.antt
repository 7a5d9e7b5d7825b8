-- ===== src/Admin/Statistics.antt =====
-- The statistics of `AdminService` (src/modules/admin/admin.service.ts). Averages and rates are left
-- out, since they are no whole numbers; a percentage is compared without dividing.
use aamenn_backend.Base.{
  Bool, List, Option, String, [], false, if◌then◌else◌, leb, length, map, none, not, select, some,
  sort_with, true, ℕ, ◌%◌, ◌&&◌, ◌*◌, ◌++◌, ◌+◌, ◌-◌, ◌/◌, ◌||◌, ◌∷◌,
}
use aamenn_backend.Admin.Management.{UserPage, is_file_of, is_plain_user, order_by, page_of_users}
use aamenn_backend.Entities.Accounts.{User, user_entity}
use aamenn_backend.Entities.Library.{File, file_entity}
use aamenn_backend.Entities.Scalars.{Time, Uuid, days}
use aamenn_backend.Files.Reads.{sum_of_sizes}
use aamenn_backend.Files.Store.{is_kept_file}

-- `download_logs`
pub record DownloadLog : Type 0 where
  pub id : Uuid
  pub user_id : Uuid
  pub file_id : Uuid
  pub size_bytes : ℕ
  pub created_at : Time

-- The clock, and the first moment of the month in UTC.
pub record Clock : Type 0 where
  pub now : Time
  pub start_of_month : Time

abbrev pub start_of_today : Time → Time
unfolding days
start_of_today now = now / days 1 * days 1

-- `getUTCDay`: the first day of 1970 was a Thursday.
abbrev pub utc_day : Time → ℕ
unfolding days
utc_day now = (now / days 1 + 4) % 7

abbrev pub start_of_week : Time → Time
unfolding days start_of_today utc_day
start_of_week now = start_of_today now - days (utc_day now)

abbrev pub since : Time → Option Time → Bool
since t none = false
since t (some x) = leb t x

abbrev pub count_where {ℓ} : {A : Type ℓ} → (A → Bool) → List A → ℕ
count_where test xs = length (select test xs)

abbrev pub sum_of_logs : List DownloadLog → ℕ
sum_of_logs [] = 0
sum_of_logs (d ∷ ds) = d.size_bytes + sum_of_logs ds

-- Returns the bytes and the number.
unfoldable pub get_bandwidth_stats : Time → List DownloadLog → ℕ × ℕ
get_bandwidth_stats start_date t =
    let logs = select (λ (d : DownloadLog). leb start_date d.created_at) t in
    (sum_of_logs logs, length logs)

-- Files that are no avatars, in the trash or not; uploads count outside the trash only.
abbrev pub is_stored : File → Bool
is_stored f = not f.is_avatar

abbrev pub is_upload_since : Time → File → Bool
is_upload_since t f = leb t f.created_at && is_kept_file f && is_stored f

unfoldable pub total_storage_bytes : List File → ℕ
total_storage_bytes t = sum_of_sizes (select is_stored t)

pub record DashboardStats : Type 0 where
  pub total_users : ℕ
  pub active_users24h : ℕ
  pub active_users7d : ℕ
  pub new_users_today : ℕ
  pub new_users_week : ℕ
  pub total_files : ℕ
  pub total_storage : ℕ
  pub uploads_today : ℕ
  pub uploads_week : ℕ
  pub bandwidth_today : ℕ × ℕ
  pub bandwidth_month : ℕ × ℕ

abbrev pub is_active_since : Time → User → Bool
is_active_since t u = is_plain_user u && since t u.last_login_at

abbrev pub is_new_since : Time → User → Bool
is_new_since t u = is_plain_user u && leb t u.created_at

unfoldable pub get_dashboard_stats :
    Clock → List User → List File → List DownloadLog → DashboardStats
unfolding days total_storage_bytes get_bandwidth_stats
get_dashboard_stats clock users stored logs = record {
  total_users = count_where is_plain_user users;
  active_users24h = count_where (is_active_since (clock.now - days 1)) users;
  active_users7d = count_where (is_active_since (clock.now - days 7)) users;
  new_users_today = count_where (is_new_since (start_of_today clock.now)) users;
  new_users_week = count_where (is_new_since (start_of_week clock.now)) users;
  total_files = count_where (λ f. is_kept_file f && is_stored f) stored;
  total_storage = total_storage_bytes stored;
  uploads_today = count_where (is_upload_since (start_of_today clock.now)) stored;
  uploads_week = count_where (is_upload_since (start_of_week clock.now)) stored;
  bandwidth_today = get_bandwidth_stats (start_of_today clock.now) logs;
  bandwidth_month = get_bandwidth_stats clock.start_of_month logs;
}

pub data HealthStatus : Type 0 where
  healthy degraded in_error : HealthStatus

pub record SystemHealth : Type 0 where
  pub storage_warning : Bool
  pub storage_critical : Bool
  pub storage_limit : ℕ
  pub storage_used : ℕ
  pub is_database_healthy : Bool
  pub b2_storage_status : HealthStatus
  pub active_users_last24h : ℕ

-- `threshold` is in per cent; `is_answering` says whether the database answers a query, and `b2` what
-- the object store says of itself.
unfoldable pub get_system_health :
    Time → ℕ → ℕ → Bool → HealthStatus → List User → List File → SystemHealth
unfolding days total_storage_bytes
get_system_health now limit_gb threshold is_answering b2 users stored =
    let used = total_storage_bytes stored in
    let bytes = limit_gb * 1024 * 1024 * 1024 in
    record {
      storage_warning = leb (threshold * bytes) (used * 100);
      storage_critical = leb (95 * bytes) (used * 100);
      storage_limit = bytes;
      storage_used = used;
      is_database_healthy = is_answering;
      b2_storage_status = b2;
      active_users_last24h = count_where (is_active_since (now - days 1)) users;
    }

-- The alerts, without their texts.
pub data Alert : Type 0 where
  storage_high storage_nearly_full database_error b2_error b2_degraded : Alert

abbrev pub alert_if : Bool → Alert → List Alert
alert_if b a = if b then a ∷ [] else []

abbrev pub b2_alerts : HealthStatus → List Alert
b2_alerts healthy = []
b2_alerts degraded = b2_degraded ∷ []
b2_alerts in_error = b2_error ∷ []

unfoldable pub get_alerts : SystemHealth → List Alert
get_alerts h =
    alert_if h.storage_warning storage_high
    ++ (alert_if h.storage_critical storage_nearly_full
        ++ (alert_if (not h.is_database_healthy) database_error ++ b2_alerts h.b2_storage_status))

-- The list of users with what they store.
pub record UserWithStats : Type 0 where
  pub account : User
  pub file_count : ℕ
  pub storage_bytes : ℕ

abbrev pub with_stats : List File → User → UserWithStats
with_stats stored u = record {
  account = u;
  file_count = count_where (λ f. is_file_of u.id f && is_kept_file f && is_stored f) stored;
  storage_bytes = sum_of_sizes (select (λ f. is_file_of u.id f && is_stored f) stored);
}

pub data UserSortBy : Type 0 where
  by_created by_storage by_files by_last_login : UserSortBy

-- `NULLS LAST` in both directions
abbrev pub login_le : Bool → Option Time → Option Time → Bool
login_le ascending none none = true
login_le ascending none (some y) = false
login_le ascending (some x) none = true
login_le ascending (some x) (some y) = order_by ascending leb x y

abbrev pub user_le : UserSortBy → Bool → UserWithStats → UserWithStats → Bool
user_le by_created ascending x y = order_by ascending leb x.account.created_at y.account.created_at
user_le by_storage ascending x y = order_by ascending leb x.storage_bytes y.storage_bytes
user_le by_files ascending x y = order_by ascending leb x.file_count y.file_count
user_le by_last_login ascending x y =
    login_le ascending x.account.last_login_at y.account.last_login_at

-- `ILIKE '%search%'` of the database on a text is an argument.
abbrev pub is_found : (String → Bool) → User → Bool
is_found ilike u = ilike u.email || (elim u.display_name [ none ↦ false | some s ↦ ilike s ])

unfoldable pub get_users :
    Option (String → Bool)
    → ℕ
    → ℕ
    → UserSortBy
    → Bool
    → List User
    → List File
    → UserPage UserWithStats
get_users search page limit sort_by ascending users stored =
    let found =
      select (λ u. is_plain_user u && (elim search [ none ↦ true | some ilike ↦ is_found ilike u ]))
        users in
    page_of_users page limit (sort_with (user_le sort_by ascending) (map (with_stats stored) found))
