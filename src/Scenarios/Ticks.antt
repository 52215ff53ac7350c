-- ===== src/Scenarios/Ticks.antt =====
-- The web check on the scheduler: scheduler.go.
use healthops.Prelude.{ℕ, ◌*◌, Bool, true, false, Option, some, [], ◌∷◌, ◌≡◌, refl, ℤ, pos}
use healthops.Prelude.Maps.{lookup}
use healthops.Types.{second, CheckConfig, CheckResult}
use healthops.Scheduler.Timers.{CheckScheduler, new_check_scheduler, find_check_by_id}
use healthops.Scheduler.Retry.{attempts}
use healthops.Scheduler.Quiet.{Turn, take_turn, results_of, after_turns, run_check-cooldown}
use healthops.Scheduler.Loops.{loops_of, save_times, save_times-loops}
use healthops.Scenarios.Alerts.{failed_run}
use healthops.Scenarios.Windows.{web}

-- A runner that always fails, and that nobody interrupts.
abbrev failing : ℕ → Option (CheckResult ℤ)
failing n = some failed_run

abbrev calm : ℕ → Bool
calm n = false

abbrev cautious : CheckConfig
cautious = record web { cooldown_seconds = pos 30 }

abbrev started : CheckScheduler
started = record (new_check_scheduler (pos 60)) { running = true }

abbrev first_turn : Turn ℤ
first_turn = record {
  run = failing;
  interrupted = calm;
  has_callback = true;
  now = second;
  later = 2 * second;
  check = cautious;
}

-- It would pass.
abbrev second_turn : Turn ℤ
second_turn = record first_turn {
  run = λ n. some (record failed_run { healthy = true });
  now = 31 * second;
  later = 31 * second;
}

run_check-cooldown_example :
    let s' = (take_turn first_turn started).0 in
    (results_of "web" (second_turn ∷ second_turn ∷ []) s' ≡ [])
    × (after_turns (second_turn ∷ second_turn ∷ []) s' ≡ s')
unfolding new_check_scheduler lookup attempts after_turns
run_check-cooldown_example =
    run_check-cooldown first_turn (second_turn ∷ second_turn ∷ []) started refl refl refl refl
      (refl, (refl, tt))

save_times-loops_example : loops_of "web" (save_times 3 (web ∷ []) web started) ≡ 3
unfolding new_check_scheduler find_check_by_id
save_times-loops_example = save_times-loops 3 (web ∷ []) web started refl refl refl refl refl
