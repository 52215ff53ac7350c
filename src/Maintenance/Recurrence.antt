-- ===== src/Maintenance/Recurrence.antt =====
-- When the recurring windows of maintenance.go are active.
use healthops.Prelude.{ℕ, ◌+◌, ◌-◌, ◌%◌, ◌≤◌, ◌<◌, true, ◌≡◌, arith, ltb}
use healthops.Types.{Time, day}
use healthops.Calendar.{Zone, east, west, local}
use healthops.Maintenance.Window.{
  MaintenanceWindow, daily, weekly, week, daily_start, weekly_start, within, is_active,
}

daily_start-eq : (now start : ℕ) → start ≤ now → daily_start now start + (now - start) % day ≡ now
unfolding daily_start
daily_start-eq now start h = ground arith

weekly_start-eq :
    (now start : ℕ) → start ≤ now → weekly_start now start + (now - start) % week ≡ now
unfolding weekly_start
weekly_start-eq now start h = ground arith

-- The zone's wall clock has started by time t.
abbrev pub Started : Zone → Time → Type 0
Started (east n) t = Unit
Started (west n) t = n ≤ t

local-le : (z : Zone) (s t : Time) → Started z s → s ≤ t → local z s ≤ local z t
local-le (east n) s t h k = omega arith
local-le (west n) s t h k = omega arith

local-sub : (z : Zone) (s t : Time) → Started z s → s ≤ t → local z t - local z s ≡ t - s
local-sub (east n) s t h k = omega arith
local-sub (west n) s t h k = omega arith

within-eq :
    (occ now elapsed length : ℕ)
    → occ + elapsed ≡ now
    → within occ (occ + length) now ≡ ltb elapsed length
within-eq occ now elapsed length h = ground arith

-- A recurring window that is enabled and has a start and a later end.
pub record IsProper (w : MaintenanceWindow) : Type 0 where
  pub enabled : w.enabled ≡ true
  pub recurring : w.recurring ≡ true
  pub starts : 0 < w.start_time
  pub ends : w.start_time < w.end_time
  pub zoned : Started w.zone w.start_time

module _ (w : MaintenanceWindow) (now : Time) (p : IsProper w) (begun : w.start_time ≤ now) where
  abbrev start_local : ℕ
  start_local = local w.zone w.start_time

  abbrev now_local : ℕ
  now_local = local w.zone now

  elapsed_eq : now_local - start_local ≡ now - w.start_time
  elapsed_eq = local-sub w.zone w.start_time now p.zoned begun

  start-le : start_local ≤ now_local
  start-le = local-le w.zone w.start_time now p.zoned begun

  -- A daily window that is enabled, has a start and a later end and has begun is active exactly
  -- while less than its length has passed since its start, counted without whole days: it lasts
  -- that long from its time of day, every day.
  is_active-daily :
      w.recurrence_rule ≡ daily
      → is_active w now ≡ ltb ((now - w.start_time) % day) (w.end_time - w.start_time)
  unfolding is_active
  is_active-daily rule = ground (
    arith,
    rule,
    p.enabled,
    p.recurring,
    p.starts,
    p.ends,
    start-le,
    elapsed_eq,
    daily_start-eq now_local start_local,
    within-eq (daily_start now_local start_local) now_local ((now - w.start_time) % day)
        (w.end_time - w.start_time),
  )

  -- A weekly window that is enabled, has a start and a later end and has begun is active exactly
  -- while less than its length has passed since its start, counted without whole weeks.
  is_active-weekly :
      w.recurrence_rule ≡ weekly
      → is_active w now ≡ ltb ((now - w.start_time) % week) (w.end_time - w.start_time)
  unfolding is_active
  is_active-weekly rule = ground (
    arith,
    rule,
    p.enabled,
    p.recurring,
    p.starts,
    p.ends,
    start-le,
    elapsed_eq,
    weekly_start-eq now_local start_local,
    within-eq (weekly_start now_local start_local) now_local ((now - w.start_time) % week)
        (w.end_time - w.start_time),
  )
