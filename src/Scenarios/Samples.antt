-- ===== src/Scenarios/Samples.antt =====
-- Two rules of one MySQL check: runner.go.
use healthops.Prelude.{String, true, none, some, List, [], ◌∷◌, ◌≡◌, refl, ◌+◌}
use healthops.Prelude.Maps.{lookup, insert, find_value}
use healthops.Types.{second, Incident}
use healthops.Incidents.Repo.{find_open, new_repo, create}
use healthops.Incidents.Manager.{generate_incident_id, new_incident, process_alert, create_incident}
use healthops.Incidents.Traces.{run, start, run_start-Inv}
use healthops.MysqlRules.Engine.{
  status_open, AlertState, open_action, close_action, EvaluateResult, state_key, new_state,
  set_open_incident_id,
}
use healthops.Runner.Mysql.{Runner, process_result, record_incident}
use healthops.Runner.Shared.{process_result-opens_and_closes, process_result-resolves_shared}
use healthops.Scenarios.Numbers.{whole}
use healthops.Scenarios.Incidents.{epoch, empty, opened, opened-Inv, opened-find_open, incident}

abbrev threads : EvaluateResult
threads = record {
  rule_code = "THREADS_RUNNING_HIGH";
  check_id = "web";
  action = open_action;
  severity = "warning";
  message = "Rule THREADS_RUNNING_HIGH breached 2 consecutive times";
  incident_id = "";
}

abbrev locks : EvaluateResult
locks = record {
  rule_code = "ROW_LOCK_WAITS_HIGH";
  check_id = "web";
  action = close_action;
  severity = "warning";
  message = "Rule ROW_LOCK_WAITS_HIGH recovered after 3 consecutive OK samples";
  incident_id = incident.id;
}

abbrev threads_open : AlertState
threads_open = record (new_state "THREADS_RUNNING_HIGH" "web") { status = status_open }

abbrev keep : String → List String → List String
keep id ids = id ∷ ids

abbrev runner : Runner whole (List String)
runner = record {
  engine = record {
    rules = [];
    states = (state_key "THREADS_RUNNING_HIGH" "web", threads_open) ∷ [];
  };
  manager = opened;
  outbox = none;
  snapshots = [];
}

process_result-resolves_shared_example :
    let r =
      process_result whole keep true
        (epoch + second)
        "Web"
        locks
        (process_result whole keep true epoch "Web" threads runner) in
    (lookup (state_key "THREADS_RUNNING_HIGH" "web") r.engine.states
      ≡ some (record threads_open { open_incident_id = incident.id }))
    × (find_open "web" r.manager.repo ≡ none)
unfolding lookup state_key
process_result-resolves_shared_example =
    process_result-resolves_shared whole keep true epoch "Web" threads runner {s = threads_open}
      opened-Inv refl refl (epoch + second) locks refl {i = incident} opened-find_open refl

process_result-opens_and_closes_example :
    let r =
      process_result whole keep true epoch "Web" threads (record runner { manager = empty }) in
    (i : Incident) × (find_open "web" r.manager.repo ≡ some i)
    × (locks.incident_id ≡ i.id)
    × (find_open "web" (process_result whole keep true (epoch + second) "Web" locks r).manager.repo
        ≡ none)
unfolding lookup insert find_value run start new_repo create create_incident process_alert
    process_result record_incident set_open_incident_id find_open new_incident generate_incident_id
    state_key
process_result-opens_and_closes_example =
    process_result-opens_and_closes whole keep true epoch "Web" threads
      (record runner { manager = empty }) {s = threads_open} (run_start-Inv true true []) refl refl
      (epoch + second) locks refl refl refl
