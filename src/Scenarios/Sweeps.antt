-- ===== src/Scenarios/Sweeps.antt =====
-- A run over one check: runner.go.
use healthops.Prelude.{
  true, false, none, some, [], ◌∷◌, ◌≡◌, refl, ◌+◌, arith, ℤ, pos, count, str_eq,
}
use healthops.Types.{second, CheckResult}
use healthops.FileStore.Operations.{FileStore, missing, empty_state}
use healthops.Runner.Once.{Execution, run_once}
use healthops.Runner.Appended.{IsFaithful, run_once-appends}
use healthops.Scenarios.Incidents.{epoch}
use healthops.Scenarios.Windows.{web}

abbrev execution : Execution ℤ
execution = record {
  execute = λ c r. some (record r { status = "warning" }, none);
  elapsed_ms = λ c. pos 12;
  quote = λ s. s;
  order = λ rs. rs;
}

execution-IsFaithful : IsFaithful execution
execution-IsFaithful = record {
  keeps_check = λ c r r' e h. ground (arith, h);
  keeps_results = λ p rs. refl;
}

abbrev store : FileStore ℤ
store = record { state = record empty_state { checks = web ∷ [] }; disk = missing }

run_once-appends_example :
    count
      (λ (r : CheckResult ℤ). str_eq r.check_id "web")
      (run_once execution false true false epoch (epoch + second) (pos 7) store).0.state.results
    ≡ 1
run_once-appends_example =
    run_once-appends execution epoch (epoch + second) true false 6 store "web" execution-IsFaithful
