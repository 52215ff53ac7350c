-- ===== src/Service/Recovery.antt =====
-- What service.go does with the incidents of a check that is healthy again.
use healthops.Prelude.{
  suc, ◌≤◌, String, true, Option, none, some, List, [], ◌∷◌, ◌≡◌, arith, ◌⊎◌, str_eq_refl, inl, inr,
  Option-cases,
}
use healthops.Prelude.Maps.{Map, lookup}
use healthops.Types.{Time, CheckConfig, CheckResult}
use healthops.Floats.{Floats}
use healthops.Alerts.Rules.{Alert}
use healthops.Alerts.Engine.{AlertRuleEngine, evaluate}
use healthops.Alerts.ForIncidents.{all_alerts, evaluate_for_incidents-all_alerts}
use healthops.Incidents.Repo.{find_open}
use healthops.Incidents.Manager.{Manager, process_alert, auto_resolve_on_recovery}
use healthops.Incidents.Invariant.{Inv}
use healthops.Incidents.Lifecycle.{auto_resolve_closes, find_open-none}
use healthops.Incidents.Traces.{process_alert-Inv, auto_resolve-Inv}
use healthops.Maintenance.Window.{MaintenanceWindow}
use healthops.Service.Handler.{
  ConsecutiveCount, tracked, track, auto_resolve, report, result_map, resolve_threshold,
  process_incident_alert, process_incident_alerts, Service, handle_incidents, handle_alert_results,
}
use healthops.Service.Trackers.{tracked-update}
use healthops.Service.Thresholds.{counts, known}

module _ {F : Type 0} (now : Time) (windows : Option (List MaintenanceWindow))
    (checks : Map CheckConfig) (results : Map (CheckResult F)) (t : Map ConsecutiveCount) where
  alert_cases :
      (a : Alert) (m : Manager)
      → (process_incident_alert now windows checks results t a m ≡ m)
        ⊎ (process_incident_alert now windows checks results t a m
            ≡ (process_alert now (report a (lookup a.check_id results)) m).0)
  unfolding process_incident_alert
  alert_cases a m = ground arith

  alert-Inv :
      (a : Alert) (m : Manager)
      → Inv m.repo
      → Inv (process_incident_alert now windows checks results t a m).repo
  alert-Inv a m v = elim (alert_cases a m) [
    | inl same ↦ rw same v
    | inr alerted ↦ rw alerted (process_alert-Inv m v now _)
  ]

  alerts-Inv :
      (alerts : List Alert) (m : Manager)
      → Inv m.repo
      → Inv (process_incident_alerts now windows checks results t alerts m).repo
  unfolding process_incident_alerts
  alerts-Inv [] m v = v
  alerts-Inv (a ∷ rest) m v = alerts-Inv rest _ (alert-Inv a m v)

auto_resolve_none :
    (now : Time) (check_id : String) (m : Manager)
    → Inv m.repo
    → find_open check_id (auto_resolve_on_recovery now check_id m).0.repo ≡ none
auto_resolve_none now check_id m v = elim (Option-cases (find_open check_id m.repo)) [
  | inl free ↦ rw (find_open-none now check_id m v free) free
  | inr (i, found) ↦ (auto_resolve_closes now check_id m v found).1
]

module _ (fl : Floats) (now : Time) (r : CheckResult (fl.F)) (s : Service fl)
    {e : AlertRuleEngine fl} {m : Manager} (healthy : r.healthy ≡ true)
    (engine : s.alert_engine ≡ some e) (manager : s.incident_manager ≡ some m) (v : Inv m.repo)
    (enough : resolve_threshold (lookup r.check_id (known fl s))
      ≤ suc (tracked r.check_id s.consecutive_tracker).successes) where
  counted :
      tracked r.check_id (counts fl r s) ≡ track true (tracked r.check_id s.consecutive_tracker)
  counted = ground (
    arith,
    healthy,
    str_eq_refl r.check_id,
    tracked-update r.check_id (r ∷ []) s.consecutive_tracker,
  )

  due :
      (m' : Manager)
      → auto_resolve now (known fl s) (counts fl r s) r m'
        ≡ (auto_resolve_on_recovery now r.check_id m').0
  unfolding auto_resolve
  due m' = ground (arith, healthy, counted, enough)

  handled :
      (e' : AlertRuleEngine fl)
      → let m' = handle_incidents fl now (r ∷ []) e' (counts fl r s) s m in
        Inv m'.repo × (find_open r.check_id m'.repo ≡ none)
  unfolding handle_incidents
  handled e' =
      let alerted =
        process_incident_alerts now s.maintenance_store (known fl s) (result_map (r ∷ []) [])
          (counts fl r s) (all_alerts fl now e'.rules (r ∷ [])) m in
      let kept =
        alerts-Inv now s.maintenance_store (known fl s) (result_map (r ∷ []) []) (counts fl r s)
          (all_alerts fl now e'.rules (r ∷ [])) m v in
      rw (evaluate_for_incidents-all_alerts fl now (r ∷ []) e') (
        rw (due alerted) (
          auto_resolve-Inv alerted kept now r.check_id,
          auto_resolve_none now r.check_id alerted kept,
        ))

  -- With an alert engine, and an incident manager whose repository's invariant holds: after a
  -- healthy run that completes the required number of successes in a row the check has no open
  -- incident, also if a rule matched that run and an incident was opened for it in the same call,
  -- and the invariant still holds.
  pub handle_alert_results-recovers :
      (m' : Manager) × ((handle_alert_results fl now (r ∷ []) s).incident_manager ≡ some m')
      × Inv m'.repo
      × (find_open r.check_id m'.repo ≡ none)
  unfolding handle_alert_results
  handle_alert_results-recovers =
      let e' = (evaluate fl now (r ∷ []) e).0 in
      (
        handle_incidents fl now (r ∷ []) e' (counts fl r s) s m,
        rw (engine, handle_alert_results) (rw manager),
        (handled e').0,
        (handled e').1,
      )
