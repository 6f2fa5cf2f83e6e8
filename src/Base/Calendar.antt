-- ===== src/Base/Calendar.antt =====
-- Calendar dates as JavaScript's `Date` constructor makes them, for the months 1 to 12.
use igreen_backend.Base.{ℕ, ◌%◌, Bool, ◌==◌, ◌||◌, ◌&&◌, not, if◌then◌else◌}

pub record LocalDate : Type 0 where
  pub year : ℕ
  pub month : ℕ
  pub day : ℕ

abbrev pub is_leap : ℕ → Bool
is_leap y = y % 4 == 0 && not (y % 100 == 0) || y % 400 == 0

-- `new Date(year, month, 0).getDate()`
unfoldable pub days_in_month : ℕ → ℕ → ℕ
days_in_month month year =
    if month == 2
    then (if is_leap year then 29 else 28)
    else (if month == 4 || month == 6 || month == 9 || month == 11 then 30 else 31)

-- What a handler takes from its surroundings: the instant of the call in milliseconds, and the
-- year and the month (0 to 11) of an instant in the server's time zone.
pub record Clock : Type 0 where
  pub now : ℕ
  pub get_full_year : ℕ → ℕ
  pub get_month : ℕ → ℕ

-- The server's time zone: the instants `new Date(year, month, 1)` and
-- `new Date(year, month + 1, 0, 23, 59, 59, 999)`, for a month from 0; months past 11 run into the
-- years that follow.
pub record Zone : Type 0 where
  pub start_of_month : ℕ → ℕ → ℕ
  pub end_of_month : ℕ → ℕ → ℕ
