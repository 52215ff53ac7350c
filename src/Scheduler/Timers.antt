-- ===== src/Scheduler/Timers.antt =====
-- CheckScheduler of backend/internal/monitoring/scheduler.go. A time.AfterFunc is a ticket: armed
-- until it fires or is stopped. When it fires its goroutine runs as a loop, which Stop of the timer
-- does not end. What the check repository's snapshot holds is an argument `checks`.
use healthops.Prelude.{
  ℕ, suc, String, Bool, true, false, not, Option, none, some, List, [], ◌∷◌, ◌++◌ as append, ℤ,
  ◌==◌, is_positive, select, str_eq, if◌then◌else◌,
}
use healthops.Prelude.Maps.{Map, lookup, insert, delete}
use healthops.Types.{Time, CheckConfig, is_enabled}

pub record Job : Type 0 where
  pub ticket : ℕ
  pub check : CheckConfig
  pub interval : ℤ

pub record CheckScheduler : Type 0 where
  pub timers : Map ℕ
  pub cooldowns : Map Time
  pub cancelled : Bool  -- ctx.Done()
  pub running : Bool
  pub check_interval_seconds : ℤ  -- of the configuration
  pub armed : List Job
  pub loops : List Job
  pub next_ticket : ℕ

unfoldable pub new_check_scheduler : ℤ → CheckScheduler
new_check_scheduler interval = record {
  timers = [];
  cooldowns = [];
  cancelled = false;
  running = false;
  check_interval_seconds = interval;
  armed = [];
  loops = [];
  next_ticket = 0;
}

abbrev pub get_check_interval : ℤ → CheckConfig → ℤ
get_check_interval default c =
    if is_positive c.interval_seconds then c.interval_seconds else default

-- timer.Stop() and delete(s.timers, id), where there is a timer
unfoldable pub stop_timer : String → CheckScheduler → CheckScheduler
stop_timer id s = elim (lookup id s.timers) [
  | none ↦ s
  | some ticket ↦ record s {
    timers = delete id s.timers;
    armed = select (λ j. not (j.ticket == ticket)) s.armed;
  }
]

-- The timer of schedule_check, with the interval of its ticker.
abbrev pub new_job : CheckConfig → CheckScheduler → Job
new_job c s =
    let interval = get_check_interval s.check_interval_seconds c in
    record {
      ticket = s.next_ticket;
      check = c;
      interval = if is_positive interval then interval else s.check_interval_seconds;
    }

unfoldable pub schedule_check : CheckConfig → CheckScheduler → CheckScheduler
unfolding stop_timer
schedule_check c s =
    let s' = stop_timer c.id s in
    if not (is_enabled c) then s' else record s' {
      timers = insert c.id s'.next_ticket s'.timers;
      armed = append s'.armed (new_job c s' ∷ []);
      next_ticket = suc s'.next_ticket;
    }

unfoldable pub get_enabled_checks : List CheckConfig → List CheckConfig
get_enabled_checks checks = select is_enabled checks

-- `for checkID, timer := range s.timers { timer.Stop(); delete(s.timers, checkID) }`
unfoldable pub stop_timers : Map ℕ → CheckScheduler → CheckScheduler
stop_timers [] s = record s { timers = [] }
stop_timers ((id, ticket) ∷ more) s =
    stop_timers more (record s { armed = select (λ j. not (j.ticket == ticket)) s.armed })

unfoldable pub schedule_checks : List CheckConfig → CheckScheduler → CheckScheduler
unfolding schedule_check
schedule_checks [] s = s
schedule_checks (c ∷ cs) s = schedule_checks cs (schedule_check c s)

unfoldable pub reschedule_all : List CheckConfig → CheckScheduler → CheckScheduler
unfolding stop_timers schedule_checks get_enabled_checks
reschedule_all checks s = schedule_checks (get_enabled_checks checks) (stop_timers s.timers s)

-- RescheduleAll, the exported one
unfoldable pub reschedule_if_running : List CheckConfig → CheckScheduler → CheckScheduler
unfolding reschedule_all
reschedule_if_running checks s = if not s.running then s else reschedule_all checks s

unfoldable pub start : List CheckConfig → CheckScheduler → CheckScheduler
unfolding reschedule_all
start checks s = if s.running then s else reschedule_all checks (record s { running = true })

-- Every loop ends on ctx.Done(), and Stop waits for the checks that run.
unfoldable pub stop : CheckScheduler → CheckScheduler
unfolding stop_timers
stop s = if not s.running then s else record (stop_timers s.timers (record s { running = false })) {
  cancelled = true;
  loops = [];
}

unfoldable pub upsert_schedule : CheckConfig → CheckScheduler → CheckScheduler
unfolding schedule_check
upsert_schedule c s = if not s.running then s else schedule_check c s

unfoldable pub remove_schedule : String → CheckScheduler → CheckScheduler
unfolding stop_timer
remove_schedule id s = let s' = stop_timer id s in record s' { cooldowns = delete id s'.cooldowns }

-- The armed timers fire: their goroutines begin, and end at once if the context is done.
unfoldable pub fire_armed : CheckScheduler → CheckScheduler
fire_armed s = record s {
  armed = [];
  loops = if s.cancelled then s.loops else append s.loops s.armed;
}

unfoldable pub find_check_by_id : List CheckConfig → String → Option CheckConfig
find_check_by_id [] id = none
find_check_by_id (c ∷ cs) id = if str_eq c.id id then some c else find_check_by_id cs id

-- A tick ends a loop whose check is gone or disabled.
abbrev pub keeps_on : Option CheckConfig → Bool
keeps_on none = false
keeps_on (some c) = is_enabled c

-- Every loop gets a tick.
unfoldable pub end_loops : List CheckConfig → CheckScheduler → CheckScheduler
end_loops checks s = record s {
  loops = select (λ j. keeps_on (find_check_by_id checks j.check.id)) s.loops;
}
