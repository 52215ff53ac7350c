-- ===== src/Calendar.antt =====
-- What backend/internal/monitoring/maintenance.go uses of Go's time package: the proleptic
-- Gregorian calendar and fixed time zones. Day 0 is 1 January of the year 1, a Monday.
use Prim.Native.Nat.{min}
use healthops.Prelude.{
  ℕ, zero, suc, ◌+◌, ◌-◌, ◌*◌, ◌/◌, ◌%◌, Bool, ◌&&◌, ◌||◌, not, ltb, ◌==◌, if◌then◌else◌,
}

abbrev pub is_leap : ℕ → Bool
is_leap y = y % 4 == 0 && (not (y % 100 == 0) || y % 400 == 0)

-- month is 1 to 12.
abbrev pub days_in_month : ℕ → ℕ → ℕ
days_in_month y m =
    if m == 2
    then (if is_leap y then 29 else 28)
    else if m == 4 || m == 6 || m == 9 || m == 11
    then 30
    else 31

-- Days before the given year.
abbrev pub days_before_year : ℕ → ℕ
days_before_year y = (y - 1) * 365 + (y - 1) / 4 - (y - 1) / 100 + (y - 1) / 400

-- Days before the given month of the year.
unfoldable pub days_before_month : ℕ → ℕ → ℕ
days_before_month y zero = 0
days_before_month y (suc zero) = 0
days_before_month y (suc (suc m)) = days_before_month y (suc m) + days_in_month y (suc m)

-- The day number of a date.
unfoldable pub day_number : ℕ → ℕ → ℕ → ℕ
unfolding days_before_month
day_number y m d = days_before_year y + days_before_month y m + (d - 1)

-- The year of a day number, by cycles of 400, 100, 4 and 1 years.
unfoldable pub year_of : ℕ → ℕ
year_of n =
    let n400 = n / 146_097 in
    let r400 = n % 146_097 in
    let n100 = min (r400 / 36_524) 3 in
    let r100 = r400 - n100 * 36_524 in
    let n4 = r100 / 1_461 in
    let r4 = r100 % 1_461 in let n1 = min (r4 / 365) 3 in 400 * n400 + 100 * n100 + 4 * n4 + n1 + 1

-- The month and the day of a day of the year, from the given month on; `left` months remain.
month_from : ℕ → ℕ → ℕ → ℕ → ℕ × ℕ
month_from zero y m d = (m, d + 1)
month_from (suc left) y m d =
    let rest = month_from left y (m + 1) (d - days_in_month y m) in
    if ltb d (days_in_month y m) then (m, d + 1) else rest

unfoldable pub month_and_day : ℕ → ℕ × ℕ
unfolding year_of month_from
month_and_day n = let y = year_of n in month_from 11 y 1 (n - days_before_year y)

-- Sunday is 0.
abbrev pub weekday : ℕ → ℕ
weekday n = (n + 1) % 7

-- A fixed zone, in nanoseconds east or west of Greenwich.
pub data Zone : Type 0 where
  east west : ℕ → Zone

-- The wall clock's nanoseconds since the zero time's wall clock.
abbrev pub local : Zone → ℕ → ℕ
local (east n) t = t + n
local (west n) t = t - n
