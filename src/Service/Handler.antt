-- ===== src/Service/Handler.antt =====
-- handleAlertResults of backend/internal/monitoring/service.go and what it calls. One reading of
-- the clock, `now`, serves a whole call.
use healthops.Prelude.{
  ℕ, suc, String, Bool, false, not, Option, none, some, List, [], ◌∷◌, ltb, leb, is_nil, is_blank,
  positive_or, if◌then◌else◌,
}
use healthops.Prelude.Maps.{Map, lookup, insert}
use healthops.Types.{Time, CheckConfig, CheckResult}
use healthops.Floats.{Floats}
use healthops.Alerts.Rules.{Alert}
use healthops.Alerts.Engine.{AlertRuleEngine, evaluate, evaluate_for_incidents}
use healthops.Incidents.Manager.{Report, Manager, process_alert, auto_resolve_on_recovery}
use healthops.Maintenance.Window.{MaintenanceWindow}
use healthops.Maintenance.Store.{is_check_in_maintenance}

pub record ConsecutiveCount : Type 0 where
  pub failures : ℕ
  pub successes : ℕ

-- Missing entries count as zero.
abbrev pub count_or_zero : Option ConsecutiveCount → ConsecutiveCount
count_or_zero none = record { failures = 0; successes = 0 }
count_or_zero (some c) = c

abbrev pub track : Bool → ConsecutiveCount → ConsecutiveCount
track healthy c =
    if healthy
    then record { failures = 0; successes = suc c.successes }
    else record { failures = suc c.failures; successes = 0 }

unfoldable pub tracked : String → Map ConsecutiveCount → ConsecutiveCount
tracked check_id t = count_or_zero (lookup check_id t)

-- No store means no maintenance, and an unknown check is in none.
abbrev pub in_maintenance : Time → Option (List MaintenanceWindow) → Option CheckConfig → Bool
in_maintenance now none c = false
in_maintenance now (some ws) none = false
in_maintenance now (some ws) (some c) = is_check_in_maintenance now c ws

abbrev pub resolve_threshold : Option CheckConfig → ℕ
resolve_threshold none = 1
resolve_threshold (some c) = positive_or 1 c.successes_to_resolve

module _ {F : Type 0} where
  unfoldable pub update_consecutive_trackers :
      List (CheckResult F) → Map ConsecutiveCount → Map ConsecutiveCount
  unfolding tracked
  update_consecutive_trackers [] t = t
  update_consecutive_trackers (r ∷ rs) t =
      update_consecutive_trackers rs (insert r.check_id (track r.healthy (tracked r.check_id t)) t)

  unfoldable pub result_map : List (CheckResult F) → Map (CheckResult F) → Map (CheckResult F)
  result_map [] m = m
  result_map (r ∷ rs) m = result_map rs (insert r.check_id r m)

  abbrev server_entry : Option (CheckResult F) → Map String → Map String
  server_entry none m = m
  server_entry (some r) m = if is_blank r.server then m else insert "server" r.server m

  abbrev type_of : Option (CheckResult F) → String
  type_of none = ""
  type_of (some r) = r.type

  unfoldable pub report : Alert → Option (CheckResult F) → Report
  report a r = record {
    check_id = a.check_id;
    check_name = a.check_name;
    check_type = type_of r;
    severity = a.severity;
    message = a.message;
    metadata = some (
        server_entry r
          (("ruleId", a.rule_id) ∷ ("ruleName", a.rule_name) ∷ ("message", a.message) ∷ []));
  }

  -- An unhealthy result of a known check, with too few failures in a row.
  abbrev pub is_early : Option CheckConfig → Option (CheckResult F) → ConsecutiveCount → Bool
  is_early none r n = false
  is_early (some c) none n = false
  is_early (some c) (some r) n =
      if r.healthy then false else ltb n.failures (positive_or 1 c.failures_to_open)

  module _ (now : Time) (windows : Option (List MaintenanceWindow)) (checks : Map CheckConfig)
      (results : Map (CheckResult F)) (t : Map ConsecutiveCount) where
    unfoldable pub process_incident_alert : Alert → Manager → Manager
    unfolding report tracked
    process_incident_alert a m =
        let check = lookup a.check_id checks in
        let result = lookup a.check_id results in
        if in_maintenance now windows check
        then m
        else if is_early check result (tracked a.check_id t)
        then m
        else (process_alert now (report a result) m).0

    unfoldable pub process_incident_alerts : List Alert → Manager → Manager
    unfolding process_incident_alert
    process_incident_alerts [] m = m
    process_incident_alerts (a ∷ as') m = process_incident_alerts as' (process_incident_alert a m)

  module _ (now : Time) (checks : Map CheckConfig) (t : Map ConsecutiveCount) where
    unfoldable pub auto_resolve : CheckResult F → Manager → Manager
    unfolding tracked
    auto_resolve r m =
        if not r.healthy
        then m
        else if leb (resolve_threshold (lookup r.check_id checks)) (tracked r.check_id t).successes
        then (auto_resolve_on_recovery now r.check_id m).0
        else m

    unfoldable pub auto_resolve_recovered : List (CheckResult F) → Manager → Manager
    unfolding auto_resolve
    auto_resolve_recovered [] m = m
    auto_resolve_recovered (r ∷ rs) m = auto_resolve_recovered rs (auto_resolve r m)

unfoldable pub check_map : List CheckConfig → Map CheckConfig → Map CheckConfig
check_map [] m = m
check_map (c ∷ cs) m = check_map cs (insert c.id c m)

module _ (fl : Floats) where
  open fl use {F}

  -- A nil engine, manager or maintenance store is `none`; `checks` is the store's snapshot.
  pub record Service : Type 0 where
    pub alert_engine : Option (AlertRuleEngine fl)
    pub incident_manager : Option Manager
    pub maintenance_store : Option (List MaintenanceWindow)
    pub consecutive_tracker : Map ConsecutiveCount
    pub checks : List CheckConfig

  -- What is done with the incident manager once the counts are up to date.
  unfoldable pub handle_incidents :
      Time
      → List (CheckResult F)
      → AlertRuleEngine fl
      → Map ConsecutiveCount
      → Service
      → Manager
      → Manager
  unfolding process_incident_alerts auto_resolve_recovered result_map check_map
  handle_incidents now results e t s m =
      let checks = check_map s.checks [] in
      let (e', alerts, sent) = evaluate_for_incidents fl now results e in
      auto_resolve_recovered now checks t results
        (process_incident_alerts now s.maintenance_store checks (result_map results []) t alerts m)

  unfoldable pub handle_alert_results : Time → List (CheckResult F) → Service → Service
  unfolding update_consecutive_trackers handle_incidents
  handle_alert_results now results s = elim s.alert_engine [
    | none ↦ s
    | some e ↦
        if is_nil results
        then s
        else (let t = update_consecutive_trackers results s.consecutive_tracker in
            let (e', alerts, sent) = evaluate fl now results e in
            elim s.incident_manager [
              | none ↦ record s { alert_engine = some e'; consecutive_tracker = t }
              | some m ↦ record s {
                alert_engine = some e';
                consecutive_tracker = t;
                incident_manager = some (handle_incidents now results e' t s m);
              }
            ])
  ]
