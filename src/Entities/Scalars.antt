-- ===== src/Entities/Scalars.antt =====
-- Ids and times. UUIDs are only compared, so they are numbers; a `Date` is its milliseconds
-- since the epoch, on a server clock in UTC, where a day has 24 hours.
use aamenn_backend.Base.{ℕ, ◌*◌}

abbrev pub Uuid : Type 0
Uuid = ℕ

abbrev pub Time : Type 0
Time = ℕ

abbrev pub ms_per_hour : ℕ
ms_per_hour = 3_600_000

abbrev pub ms_per_day : ℕ
ms_per_day = 86_400_000

-- The length of `n` days, as `setDate(getDate() + n)` adds it.
unfoldable pub days : ℕ → ℕ
days n = n * ms_per_day

unfoldable pub hours : ℕ → ℕ
hours n = n * ms_per_hour
