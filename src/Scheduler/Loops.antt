-- ===== src/Scheduler/Loops.antt =====
-- What restarting and rescheduling do to the loops of backend/internal/monitoring/scheduler.go.
use healthops.Prelude.{
  ℕ, zero, suc, ◌+◌, String, Bool, true, false, List, [], ◌∷◌, ◌≡◌, refl, arith, count,
  count-append, ◌∙◌, sym, subst, select, str_eq_iff, str_eq, str_eq_refl, Option,
}
use healthops.Prelude.Maps.{Map}
use healthops.Types.{Time, CheckConfig, CheckResult, is_enabled}
use healthops.Scheduler.Timers.{
  Job, new_job, CheckScheduler, schedule_check, stop_timer, upsert_schedule, fire_armed, keeps_on,
  find_check_by_id, end_loops, start, stop, stop_timers, schedule_checks, reschedule_all,
  get_enabled_checks,
}
use healthops.Scheduler.Retry.{run_check}

-- The running loops of a check.
abbrev pub loops_of : String → CheckScheduler → ℕ
loops_of id s = count (λ j. str_eq j.check.id id) s.loops

-- The check is saved some times. After each its timer fires, and every loop gets a tick, at which
-- the repository holds `checks`.
unfoldable pub save_times : ℕ → List CheckConfig → CheckConfig → CheckScheduler → CheckScheduler
save_times zero checks c s = s
save_times (suc k) checks c s =
    save_times k checks c (end_loops checks (fire_armed (upsert_schedule c s)))

count-select_same :
    (p q : Job → Bool)
    → ((j : Job) → p j ≡ true → q j ≡ true)
    → (js : List Job) → count p (select q js) ≡ count p js
count-select_same p q h [] = refl
count-select_same p q h (j ∷ js) = ground (arith, h j, count-select_same p q h js)

end_loops-same :
    (checks : List CheckConfig) (id : String) (s : CheckScheduler)
    → keeps_on (find_check_by_id checks id) ≡ true
    → loops_of id (end_loops checks s) ≡ loops_of id s
unfolding end_loops
end_loops-same checks id s known =
    count-select_same _ _
      (λ j e.
        subst (λ x. keeps_on (find_check_by_id checks x) ≡ true)
          (sym ((str_eq_iff j.check.id id).0 e)) known)
      s.loops

stop_timer-same :
    (id : String) (s : CheckScheduler)
    → s.armed ≡ []
    → ((stop_timer id s).armed ≡ [])
      × ((stop_timer id s).loops ≡ s.loops)
      × ((stop_timer id s).running ≡ s.running)
      × ((stop_timer id s).cancelled ≡ s.cancelled)
unfolding stop_timer
stop_timer-same id s idle = ground (arith, idle)

schedule_check-arms :
    (c : CheckConfig) (s : CheckScheduler)
    → is_enabled c ≡ true
    → s.armed ≡ []
    → let s' = schedule_check c s in
      (s'.armed ≡ new_job c (stop_timer c.id s) ∷ [])
      × (s'.loops ≡ s.loops)
      × (s'.running ≡ s.running)
      × (s'.cancelled ≡ s.cancelled)
unfolding schedule_check
schedule_check-arms c s enabled idle = ground (arith, enabled, stop_timer-same c.id s idle)

save-once :
    (c : CheckConfig) (s : CheckScheduler)
    → is_enabled c ≡ true
    → s.running ≡ true
    → s.cancelled ≡ false
    → s.armed ≡ []
    → let s' = fire_armed (upsert_schedule c s) in
      (s'.running ≡ true)
      × (s'.cancelled ≡ false)
      × (s'.armed ≡ [])
      × (loops_of c.id s' ≡ suc (loops_of c.id s))
unfolding fire_armed upsert_schedule
save-once c s enabled running live idle =
    let is_here : upsert_schedule c s ≡ schedule_check c s = ground (arith, running) in
    let (armed, loops, still, uncut) = schedule_check-arms c s enabled idle in
    (
      rw is_here (still ∙ running),
      rw is_here (uncut ∙ live),
      refl,
      rw (is_here, armed, loops, uncut, live)
          (ground (
            arith,
            str_eq_refl c.id,
            count-append (λ j. str_eq j.check.id c.id) s.loops (new_job c (stop_timer c.id s) ∷ []),
          )),
    )

-- On a running scheduler that was never stopped and has no timer armed, each time an enabled check is saved and its timer
-- fires one more loop of the check runs: as long as the repository holds the check enabled, the
-- loops from before go on.
pub save_times-loops :
    (k : ℕ) (checks : List CheckConfig) (c : CheckConfig) (s : CheckScheduler)
    → is_enabled c ≡ true
    → keeps_on (find_check_by_id checks c.id) ≡ true
    → s.running ≡ true
    → s.cancelled ≡ false
    → s.armed ≡ []
    → loops_of c.id (save_times k checks c s) ≡ k + loops_of c.id s
unfolding save_times end_loops
save_times-loops zero checks c s enabled known running live idle = omega arith
save_times-loops (suc k) checks c s enabled known running live idle =
    let (r, l, i, n) = save-once c s enabled running live idle in
    let s' = end_loops checks (fire_armed (upsert_schedule c s)) in
    omega (
      arith,
      n,
      end_loops-same checks c.id (fire_armed (upsert_schedule c s)) known,
      save_times-loops k checks c s' enabled known r l i,
    )

stop_timers-cancelled : (m : Map ℕ) (s : CheckScheduler) → (stop_timers m s).cancelled ≡ s.cancelled
unfolding stop_timers
stop_timers-cancelled [] s = refl
stop_timers-cancelled ((id, ticket) ∷ m) s = stop_timers-cancelled m _

schedule_checks-cancelled :
    (cs : List CheckConfig) (s : CheckScheduler) → (schedule_checks cs s).cancelled ≡ s.cancelled
unfolding schedule_checks schedule_check stop_timer
schedule_checks-cancelled [] s = refl
schedule_checks-cancelled (c ∷ cs) s =
    schedule_checks-cancelled cs (schedule_check c s) ∙ ground arith

start-cancelled :
    (checks : List CheckConfig) (s : CheckScheduler) → (start checks s).cancelled ≡ s.cancelled
unfolding start reschedule_all
start-cancelled checks s = ground (
  arith,
  stop_timers-cancelled s.timers (record s { running = true }),
  schedule_checks-cancelled (get_enabled_checks checks)
      (stop_timers s.timers (record s { running = true })),
)

-- A scheduler that was stopped runs no check, also after it is started again: the context that
-- Stop cancels is never replaced.
restart-runs_nothing :
    {F : Type 0} (run : ℕ → Option (CheckResult F)) (interrupted : ℕ → Bool) (has_callback : Bool)
    (now later : Time) (c : CheckConfig) (checks : List CheckConfig) (s : CheckScheduler)
    → s.running ≡ true
    → let s' = start checks (stop s) in
      run_check run interrupted has_callback now later c s' ≡ (s', [])
unfolding run_check stop
restart-runs_nothing run interrupted has_callback now later c checks s running =
    let cut : (stop s).cancelled ≡ true = ground (arith, running) in
    ground (arith, cut, start-cancelled checks (stop s))
