-- ===== src/Scenarios/Runs.antt =====
-- Runs of the web check through the service: service.go.
use healthops.Prelude.{◌*◌, ◌+◌, true, none, some, [], ◌∷◌, ◌≡◌, refl, arith, ℤ, pos}
use healthops.Prelude.Maps.{lookup, insert}
use healthops.Types.{minute, day, CheckResult}
use healthops.Alerts.Engine.{new_alert_rule_engine}
use healthops.Alerts.Defaults.{default_alert_rules}
use healthops.Incidents.Manager.{Manager}
use healthops.Incidents.Invariant.{Inv}
use healthops.Incidents.Repo.{find_open}
use healthops.Maintenance.Window.{is_active, covers_check}
use healthops.Maintenance.Store.{is_check_in_maintenance}
use healthops.Service.Handler.{tracked, check_map, Service, handle_alert_results}
use healthops.Service.Thresholds.{handle_alert_results-early, handle_alert_results-maintenance}
use healthops.Service.Recovery.{handle_alert_results-recovers}
use healthops.Scenarios.Numbers.{whole}
use healthops.Scenarios.Alerts.{failed_run}
use healthops.Scenarios.Windows.{web, nightly}
use healthops.Scenarios.Incidents.{epoch, opened, opened-Inv}

abbrev good_run : CheckResult ℤ
good_run = record failed_run { status = "ok"; healthy = true; duration_ms = pos 5000 }

abbrev service : Service whole
service = record {
  alert_engine = some (new_alert_rule_engine whole (default_alert_rules whole));
  incident_manager = some opened;
  maintenance_store = some (nightly ∷ []);
  consecutive_tracker = [];
  checks = web ∷ [];
}

handle_alert_results-early_example :
    (handle_alert_results whole epoch (failed_run ∷ []) service).incident_manager ≡ some opened
unfolding tracked lookup check_map insert
handle_alert_results-early_example =
    handle_alert_results-early whole epoch failed_run service web refl refl refl refl (omega arith)

handle_alert_results-maintenance_example :
    (handle_alert_results whole (103 * day + minute) (failed_run ∷ []) service).incident_manager
    ≡ some opened
unfolding lookup check_map insert is_check_in_maintenance is_active covers_check
handle_alert_results-maintenance_example =
    handle_alert_results-maintenance whole (103 * day + minute) failed_run service web refl refl
      refl refl {ws = nightly ∷ []} refl refl

handle_alert_results-recovers_example :
    (m' : Manager) × ((handle_alert_results whole
        (epoch + minute)
        (good_run ∷ [])
        service).incident_manager
      ≡ some m')
    × Inv m'.repo
    × (find_open "web" m'.repo ≡ none)
unfolding tracked lookup check_map insert
handle_alert_results-recovers_example =
    handle_alert_results-recovers whole (epoch + minute) good_run service {m = opened} refl refl
      refl opened-Inv (omega arith)
