-- ===== src/Runner/Mysql.antt =====
-- The incidents of runMySQL, backend/internal/monitoring/runner.go, once a sample is collected and
-- its delta computed, with a rule engine and an incident manager set. The clock's readings in a call
-- are one time. The collector of evidence and the repository of snapshots are the parameter
-- `save_evidence`; an error of theirs is only logged, as is one of the outbox.
use Prim.Native.String.{◌++◌}
use healthops.Prelude.{
  ◌*◌, String, Bool, Option, none, some, List, [], ◌∷◌, is_blank, print_ℤ, sub_ℕ, if◌then◌else◌,
}
use healthops.Types.{Time, second, Incident}
use healthops.Floats.{Floats}
use healthops.Incidents.Repo.{find_open}
use healthops.Incidents.Manager.{Report, Manager, process_alert, resolve_incident}
use healthops.MysqlRules.Samples.{MysqlSample, MysqlDelta}
use healthops.MysqlRules.Engine.{
  no_action, open_action, close_action, EvaluateResult, MysqlRuleEngine, evaluate,
  set_open_incident_id,
}
use healthops.Outbox.Operations.{pending, NotificationEvent, Outbox, enqueue}

-- The parts of a runner that the results of the rules change.
pub record Runner (fl : Floats) (S : Type 0) : Type 0 where
  pub engine : MysqlRuleEngine fl
  pub manager : Manager
  pub outbox : Option Outbox
  pub snapshots : S

abbrev pub alert_of : String → EvaluateResult → Report
alert_of check_name er = record {
  check_id = er.check_id;
  check_name = check_name;
  check_type = "mysql";
  severity = er.severity;
  message = er.message;
  metadata = some (("ruleCode", er.rule_code) ∷ ("checkId", er.check_id) ∷ []);
}

notification : Time → Incident → EvaluateResult → NotificationEvent
unfolding print_ℤ
notification now i er = record {
  notification_id = "notif-" ++ i.id ++ "-" ++ print_ℤ (sub_ℕ now (62_135_596_800 * second));
  incident_id = i.id;
  channel = "default";
  payload_json =
      "{\"severity\":\"" ++ er.severity ++ "\",\"rule\":\"" ++ er.rule_code ++ "\",\"message\":\""
      ++ er.message ++ "\",\"checkId\":\"" ++ er.check_id ++ "\"}";
  status = pending;
  retry_count = 0;
  last_error = "";
  created_at = now;
  sent_at = none;
}

abbrev enqueue_if : Bool → Time → NotificationEvent → Option Outbox → Option Outbox
enqueue_if ok now e none = none
enqueue_if ok now e (some o) = some (enqueue ok now e o).0

module _ (fl : Floats) {S : Type 0} (save_evidence : String → S → S) where
  -- The incident that is found is told to the engine, to the outbox and to the evidence.
  unfoldable pub record_incident :
      Bool → Time → EvaluateResult → Option Incident → Runner fl S → Runner fl S
  unfolding notification
  record_incident ok now er none r = r
  record_incident ok now er (some i) r = if is_blank i.id then r else record {
    engine = set_open_incident_id fl er.rule_code er.check_id i.id r.engine;
    manager = r.manager;
    outbox = enqueue_if ok now (notification now i er) r.outbox;
    snapshots = save_evidence i.id r.snapshots;
  }

  -- A result of a rule. `ok` says whether the outbox could write.
  unfoldable pub process_result : Bool → Time → String → EvaluateResult → Runner fl S → Runner fl S
  process_result ok now check_name er r = elim er.action [
    | no_action ↦ r
    | open_action ↦
        let (m, e) = process_alert now (alert_of check_name er) r.manager in
        let r' : Runner fl S = record r { manager = m } in
        elim e [ some _ ↦ r' | none ↦ record_incident ok now er (find_open er.check_id m.repo) r' ]
    | close_action ↦ if is_blank er.incident_id then r else record r {
      manager = (resolve_incident now er.incident_id "system-auto-recovery" r.manager).0;
    }
  ]

  unfoldable pub process_results :
      Bool → Time → String → List EvaluateResult → Runner fl S → Runner fl S
  process_results ok now check_name [] r = r
  process_results ok now check_name (er ∷ ers) r =
      process_results ok now check_name ers (process_result ok now check_name er r)

  unfoldable pub process_sample :
      Bool
      → Time
      → String
      → String
      → MysqlSample
      → Option (MysqlDelta (fl.F))
      → Runner fl S
      → Runner fl S
  process_sample ok now check_id check_name sample delta r =
      let (engine, results) = evaluate fl check_id sample delta r.engine in
      process_results ok now check_name results (record r { engine = engine })
