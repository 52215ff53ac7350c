-- ===== src/Maintenance/Window.antt =====
-- MaintenanceWindow of backend/internal/monitoring/maintenance.go. `none` stands for the zero times
-- that currentOccurrence returns; occurrences are in the wall clock of the window's zone.
use healthops.Prelude.{
  ℕ, ◌+◌, ◌-◌, ◌*◌, ◌/◌, ◌%◌, String, Bool, true, false, not, ◌&&◌, ◌||◌, Option, none, some, List,
  ltb, leb, ◌==◌, any, is_nil, mem_str, if◌then◌else◌,
}
use healthops.Types.{Time, day, is_zero, before, CheckConfig}
use healthops.Calendar.{Zone, local, weekday, year_of, month_and_day, day_number, days_in_month}

-- strings.ToLower(RecurrenceRule): the three rules, and any other text.
pub data RecurrenceRule : Type 0 where
  daily weekly monthly : RecurrenceRule
  unknown : String → RecurrenceRule

pub record MaintenanceWindow : Type 0 where
  pub id : String
  pub name : String
  pub description : String
  pub start_time : Time
  pub end_time : Time
  pub zone : Zone  -- StartTime.Location()
  pub check_ids : List String
  pub tags : List String
  pub servers : List String
  pub recurring : Bool
  pub recurrence_rule : RecurrenceRule
  pub created_at : Time
  pub created_by : String
  pub enabled : Bool

abbrev pub week : ℕ
week = 604_800_000_000_000

-- The day of local time t and its time of day.
abbrev pub day_of : ℕ → ℕ
day_of t = t / day

abbrev pub time_of_day : ℕ → ℕ
time_of_day t = t % day

unfoldable pub daily_start : ℕ → ℕ → ℕ
daily_start now start =
    let occ = day_of now * day + time_of_day start in if ltb now occ then occ - day else occ

-- int(localNow.Weekday() - localStart.Weekday()), plus 7 if negative.
abbrev pub days_diff : ℕ → ℕ → ℕ
days_diff n s =
    if ltb (weekday n) (weekday s) then weekday n + 7 - weekday s else weekday n - weekday s

unfoldable pub weekly_start : ℕ → ℕ → ℕ
weekly_start now start =
    let occ = (day_of now - days_diff (day_of now) (day_of start)) * day + time_of_day start in
    if ltb now occ then occ - week else occ

unfoldable pub build_monthly_occurrence : ℕ → ℕ → ℕ → ℕ
unfolding day_number month_and_day
build_monthly_occurrence year month start =
    let d = (month_and_day (day_of start)).1 in
    let last = days_in_month year month in
    day_number year month (if ltb last d then last else d) * day + time_of_day start

unfoldable pub monthly_start : ℕ → ℕ → ℕ
unfolding build_monthly_occurrence year_of month_and_day
monthly_start now start =
    let y = year_of (day_of now) in
    let m = (month_and_day (day_of now)).0 in
    let occ = build_monthly_occurrence y m start in
    if ltb now occ
    then (if m - 1 == 0
        then build_monthly_occurrence (y - 1) 12 start
        else build_monthly_occurrence y (m - 1) start)
    else occ

abbrev occurrence_start : RecurrenceRule → ℕ → ℕ → Option ℕ
occurrence_start daily now start = some (daily_start now start)
occurrence_start weekly now start = some (weekly_start now start)
occurrence_start monthly now start = some (monthly_start now start)
occurrence_start (unknown s) now start = none

unfoldable pub current_occurrence : MaintenanceWindow → Time → Option (ℕ × ℕ)
unfolding daily_start weekly_start monthly_start
current_occurrence w now =
    if before now w.start_time
    then none
    else if leb w.end_time w.start_time
    then none
    else elim (occurrence_start w.recurrence_rule (local w.zone now) (local w.zone w.start_time)) [
      | none ↦ none
      | some occ ↦ some (occ, occ + (w.end_time - w.start_time))
    ]

abbrev pub within : ℕ → ℕ → ℕ → Bool
within start end now = not (before now start) && before now end

unfoldable pub is_active : MaintenanceWindow → Time → Bool
unfolding current_occurrence
is_active w now =
    if not w.enabled
    then false
    else if is_zero w.start_time || is_zero w.end_time
    then false
    else if not w.recurring
    then within w.start_time w.end_time now
    else elim (current_occurrence w now) [
      | none ↦ false
      | some (start, end) ↦ within start end (local w.zone now)
    ]

-- A set of the check's tags is made first, and then asked for each tag of the window.
abbrev covers_tags : List String → List String → Bool
covers_tags window_tags check_tags =
    if not (is_nil window_tags) && not (is_nil check_tags)
    then any (λ t. mem_str t check_tags) window_tags
    else false

unfoldable pub covers_check : MaintenanceWindow → CheckConfig → Bool
covers_check w c =
    if is_nil w.check_ids && is_nil w.tags && is_nil w.servers
    then true
    else if mem_str c.id w.check_ids
    then true
    else if covers_tags w.tags c.tags
    then true
    else mem_str c.server w.servers
