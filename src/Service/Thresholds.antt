-- ===== src/Service/Thresholds.antt =====
-- When service.go opens no incident.
use mathlib.Core.List.{append-nil}
use healthops.Prelude.{
  suc, ◌<◌, String, true, false, ◌||◌, Option, some, List, [], ◌∷◌, ◌≡◌, refl, sym, ap, subst,
  arith, All, str_eq_refl, positive_or, Bool-cases, inl, inr,
}
use healthops.Prelude.Maps.{Map, lookup, lookup-insert}
use healthops.Types.{Time, CheckConfig, CheckResult}
use healthops.Floats.{Floats}
use healthops.Alerts.Rules.{AlertRule, Alert}
use healthops.Alerts.Conditions.{build_alert}
use healthops.Alerts.Engine.{AlertRuleEngine, evaluate}
use healthops.Alerts.ForIncidents.{triggers, alerts_of, evaluate_for_incidents-all_alerts}
use healthops.Incidents.Manager.{Manager}
use healthops.Maintenance.Window.{MaintenanceWindow}
use healthops.Maintenance.Store.{is_check_in_maintenance}
use healthops.Service.Handler.{
  ConsecutiveCount, tracked, update_consecutive_trackers, result_map, check_map, in_maintenance,
  is_early, process_incident_alert, process_incident_alerts, Service, handle_incidents,
  handle_alert_results,
}
use healthops.Service.Trackers.{tracked-update}

abbrev Of : String → Alert → Type 0
Of check_id a = a.check_id ≡ check_id

module _ {F : Type 0} (now : Time) (windows : Option (List MaintenanceWindow))
    (checks : Map CheckConfig) (results : Map (CheckResult F)) (t : Map ConsecutiveCount) where
  abbrev Quiet : String → Type 0
  Quiet check_id =
      (in_maintenance now windows (lookup check_id checks)
        || is_early (lookup check_id checks) (lookup check_id results) (tracked check_id t))
      ≡ true

  alert_silent :
      (a : Alert) (m : Manager)
      → Quiet a.check_id
      → process_incident_alert now windows checks results t a m ≡ m
  unfolding process_incident_alert
  alert_silent a m q = ground arith

  -- Alerts of a check that is in maintenance, or that has failed too few times, do nothing.
  alerts_silent :
      (check_id : String) (alerts : List Alert) (m : Manager)
      → Quiet check_id
      → All (Of check_id) alerts
      → process_incident_alerts now windows checks results t alerts m ≡ m
  unfolding process_incident_alerts
  alerts_silent check_id [] m q h = refl
  alerts_silent check_id (a ∷ rest) m q h =
      rw (alert_silent a m (subst Quiet (sym h.0) q)) (alerts_silent check_id rest m q h.1)

module _ (fl : Floats) where
  open fl use {F}

  alerts_of-Of :
      (now : Time) (rules : List (AlertRule F)) (r : CheckResult F)
      → All (Of r.check_id) (alerts_of fl now rules r)
  unfolding build_alert
  alerts_of-Of now [] r = tt
  alerts_of-Of now (rule ∷ rules) r = elim (Bool-cases (triggers fl r rule)) [
    | inl on ↦ rw on (refl, alerts_of-Of now rules r)
    | inr off ↦ rw off (alerts_of-Of now rules r)
  ]

  abbrev pub counts : CheckResult F → Service fl → Map ConsecutiveCount
  counts r s = update_consecutive_trackers (r ∷ []) s.consecutive_tracker

  abbrev pub known : Service fl → Map CheckConfig
  known s = check_map s.checks []

  module _ (now : Time) (r : CheckResult F) (s : Service fl) (e : AlertRuleEngine fl) (m : Manager)
      (unhealthy : r.healthy ≡ false) where
    handle_incidents_silent :
        Quiet now s.maintenance_store (known s) (result_map (r ∷ []) []) (counts r s) r.check_id
        → handle_incidents fl now (r ∷ []) e (counts r s) s m ≡ m
    unfolding handle_incidents
    handle_incidents_silent q = rw (evaluate_for_incidents-all_alerts fl now (r ∷ []) e) (
        simp (unhealthy, append-nil)
          (alerts_silent now s.maintenance_store (known s) (result_map (r ∷ []) []) (counts r s)
            r.check_id (alerts_of fl now e.rules r) m q (alerts_of-Of now e.rules r)))

  module _ (now : Time) (r : CheckResult F) (s : Service fl) {e : AlertRuleEngine fl} {m : Manager}
      (c : CheckConfig) (unhealthy : r.healthy ≡ false) (engine : s.alert_engine ≡ some e)
      (manager : s.incident_manager ≡ some m)
      (is_known : lookup r.check_id (check_map s.checks []) ≡ some c) where
    handle_silent :
        Quiet now s.maintenance_store (known s) (result_map (r ∷ []) []) (counts r s) r.check_id
        → (handle_alert_results fl now (r ∷ []) s).incident_manager ≡ some m
    unfolding handle_alert_results
    handle_silent q =
        rw (engine, handle_alert_results)
          (rw manager (
            ap some (handle_incidents_silent now r s (evaluate fl now (r ∷ []) e).0 m unhealthy q)))

    -- With an alert engine and an incident manager: a failed run of a known check that makes fewer
    -- failures in a row than its failuresToOpen (1 where that is not positive) leaves the incident
    -- manager as it was, whatever rules match.
    pub handle_alert_results-early :
        suc (tracked r.check_id s.consecutive_tracker).failures < positive_or 1 c.failures_to_open
        → (handle_alert_results fl now (r ∷ []) s).incident_manager ≡ some m
    unfolding result_map
    handle_alert_results-early few = handle_silent (
        ground (
          arith,
          is_known,
          unhealthy,
          tracked-update r.check_id (r ∷ []) s.consecutive_tracker,
          str_eq_refl r.check_id,
          lookup-insert r.check_id r.check_id r [],
        ))

    -- With an alert engine, an incident manager and a maintenance store: a failed run of a known
    -- check that is in a maintenance window leaves the incident manager as it was, however often
    -- the check has failed.
    pub handle_alert_results-maintenance :
        {ws : List MaintenanceWindow}
        → s.maintenance_store ≡ some ws
        → is_check_in_maintenance now c ws ≡ true
        → (handle_alert_results fl now (r ∷ []) s).incident_manager ≡ some m
    handle_alert_results-maintenance store inside =
        handle_silent (ground (arith, store, is_known, inside))
