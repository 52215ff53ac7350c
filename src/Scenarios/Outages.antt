-- ===== src/Scenarios/Outages.antt =====
-- A database that is away for two health checks: degraded_mode.go.
use healthops.Prelude.{String, true, some, none, [], ◌∷◌, ◌≡◌, refl, ◌+◌, ◌*◌}
use healthops.Prelude.Maps.{lookup, find_value}
use healthops.Types.{Time, second, Incident}
use healthops.Incidents.Repo.{find_open, new_repo}
use healthops.Incidents.Manager.{Manager}
use healthops.Incidents.Lifecycle.{process_alert_opens}
use healthops.Incidents.Traces.{run, start, run_start-Inv}
use healthops.Degraded.Mode.{
  DegradedMode, new_degraded_mode, database_alert, run_health_check, failing_checks,
  is_protected_endpoint, is_write_method, served, unavailable, middleware,
}
use healthops.Degraded.Outages.{failing_checks-outage}
use healthops.Scenarios.Incidents.{epoch, empty}

abbrev show_time : Time → String
show_time t = "1970-01-01T00:00:00Z"

abbrev mode : DegradedMode
mode = new_degraded_mode (some empty)

failing_checks-outage_example :
    let during =
      failing_checks show_time ((epoch, "timeout") ∷ (epoch + 30 * second, "refused") ∷ []) mode in
    let after = run_health_check show_time (epoch + 60 * second) none during in
    (i : Incident) × (m' : Manager) × (m'' : Manager) × (during.incident_mgr ≡ some m')
    × (find_open "database" m'.repo ≡ some i)
    × (middleware "/api/v1/checks" "POST" during ≡ unavailable)
    × (after.incident_mgr ≡ some m'')
    × (find_open "database" m''.repo ≡ none)
    × (middleware "/api/v1/checks" "POST" after ≡ served)
unfolding run start new_repo find_open find_value lookup new_degraded_mode database_alert
    is_protected_endpoint is_write_method
failing_checks-outage_example =
    failing_checks-outage show_time epoch (epoch + 60 * second) "timeout"
      ((epoch + 30 * second, "refused") ∷ []) empty mode "/api/v1/checks" "POST"
      (run_start-Inv true true []) refl refl
      (process_alert_opens epoch (database_alert show_time epoch "timeout") empty refl refl).0
