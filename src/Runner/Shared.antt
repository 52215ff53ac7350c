-- ===== src/Runner/Shared.antt =====
-- Two rules of one check that share its incident, backend/internal/monitoring/runner.go.
use healthops.Prelude.{String, Bool, Option, none, some, ◌≡◌, refl, arith, str_eq_refl}
use healthops.Prelude.Maps.{lookup, lookup-insert}
use healthops.Types.{Time, Incident}
use healthops.Floats.{Floats}
use healthops.Incidents.Repo.{find_open}
use healthops.Incidents.Manager.{alert_mutator, process_alert}
use healthops.Incidents.Invariant.{Inv, find_open-stored}
use healthops.Incidents.Opened.{process_alert-found, process_alert-open, resolve_incident-closes}
use healthops.Incidents.Traces.{process_alert-Inv}
use healthops.MysqlRules.Engine.{
  open_action, close_action, AlertState, EvaluateResult, MysqlRuleEngine, state_key,
  set_open_incident_id,
}
use healthops.Runner.Mysql.{Runner, process_result, record_incident, alert_of}

set_open_incident_id-state :
    (fl : Floats) (rule_code check_id id : String) (e : MysqlRuleEngine fl) {s : AlertState}
    → lookup (state_key rule_code check_id) e.states ≡ some s
    → lookup (state_key rule_code check_id) (set_open_incident_id fl rule_code check_id id e).states
      ≡ some (record s { open_incident_id = id })
unfolding set_open_incident_id
set_open_incident_id-state fl rule_code check_id id e {s} known =
    let k = state_key rule_code check_id in
    ground
      (arith, known, lookup-insert k k (record s { open_incident_id = id }) e.states, str_eq_refl k)

module _ (fl : Floats) {S : Type 0} (save_evidence : String → S → S) (ok : Bool) (now : Time)
    (check_name : String) (b : EvaluateResult) (r : Runner fl S) {s : AlertState}
    (v : Inv r.manager.repo) (opens : b.action ≡ open_action)
    (known : lookup (state_key b.rule_code b.check_id) r.engine.states ≡ some s) where
  opened-recorded :
      {i : Incident}
      → (process_alert now (alert_of check_name b) r.manager).1 ≡ none
      → find_open b.check_id (process_alert now (alert_of check_name b) r.manager).0.repo ≡ some i
      → let r' = process_result fl save_evidence ok now check_name b r in
        (r'.manager ≡ (process_alert now (alert_of check_name b) r.manager).0)
        × (lookup (state_key b.rule_code b.check_id) r'.engine.states
            ≡ some (record s { open_incident_id = i.id }))
  unfolding process_result record_incident
  opened-recorded {i} fine found =
      let m = (process_alert now (alert_of check_name b) r.manager).0 in
      let (at, named) =
        find_open-stored b.check_id m.repo
          (process_alert-Inv r.manager v now (alert_of check_name b)) found in
      rw (opens, process_result)
        (rw fine (
          rw found (
            rw named
              (refl, set_open_incident_id-state fl b.rule_code b.check_id i.id r.engine known))))

  -- The incident that the engine's state of the rule names.
  abbrev pub recorded_incident : Runner fl S → Option String
  recorded_incident r' = elim (lookup (state_key b.rule_code b.check_id) r'.engine.states) [
    | none ↦ none
    | some s' ↦ some s'.open_incident_id
  ]

  module _ (later : Time) (a : EvaluateResult) (closes : a.action ≡ close_action) where
    closed-none :
        {i : Incident} (r' : Runner fl S)
        → Inv r'.manager.repo
        → find_open b.check_id r'.manager.repo ≡ some i
        → a.incident_id ≡ i.id
        → let r'' = process_result fl save_evidence ok later check_name a r' in
          (r''.engine ≡ r'.engine) × (find_open b.check_id r''.manager.repo ≡ none)
    unfolding process_result
    closed-none {i} r' v' found same =
        let (at, named) = find_open-stored b.check_id r'.manager.repo v' found in
        rw (closes, process_result)
          (rw same (
            rw named (
              refl,
              resolve_incident-closes later b.check_id "system-auto-recovery" r'.manager v' found,
            )))

    -- Where the repository's invariant holds and the engine has a state for the rule, an opening
    -- whose alert is no error leaves the check with an open incident that this state names. A later
    -- closing result with the name that the state has leaves the check without an open incident.
    pub process_result-opens_and_closes :
        (process_alert now (alert_of check_name b) r.manager).1 ≡ none
        → let r' = process_result fl save_evidence ok now check_name b r in
          recorded_incident r' ≡ some a.incident_id
          → (i : Incident) × (find_open b.check_id r'.manager.repo ≡ some i)
            × (a.incident_id ≡ i.id)
            × (find_open b.check_id
                  (process_result fl save_evidence ok later check_name a r').manager.repo
                ≡ none)
    process_result-opens_and_closes fine recorded =
        let m' = (process_alert now (alert_of check_name b) r.manager).0 in
        let r' = process_result fl save_evidence ok now check_name b r in
        let (i, found) = process_alert-open now (alert_of check_name b) r.manager v fine in
        let (managed, stated) = opened-recorded fine found in
        let found' : find_open b.check_id r'.manager.repo ≡ some i = rw managed found in
        let v' : Inv r'.manager.repo =
          rw managed (process_alert-Inv r.manager v now (alert_of check_name b)) in
        let same : a.incident_id ≡ i.id = ground (arith, recorded, stated) in
        (i, found', same, (closed-none r' v' found' same).1)

    -- Two rules of a check share its incident, and the first that closes resolves it for both. Where
    -- the repository's invariant holds and the check has an open incident, the state of a rule that
    -- opens, if the engine has one, names that incident too; after a closing result of another rule with that name, the check has no
    -- open incident, while the state of the rule still names it, with the status that it had.
    pub process_result-resolves_shared :
        {i : Incident}
        → find_open b.check_id r.manager.repo ≡ some i
        → a.incident_id ≡ i.id
        → let r'' =
            process_result fl save_evidence ok later check_name a
              (process_result fl save_evidence ok now check_name b r) in
          (lookup (state_key b.rule_code b.check_id) r''.engine.states
            ≡ some (record s { open_incident_id = i.id }))
          × (find_open b.check_id r''.manager.repo ≡ none)
    unfolding alert_mutator
    process_result-resolves_shared {i} found same =
        let alert = alert_of check_name b in
        let r' = process_result fl save_evidence ok now check_name b r in
        let (fine, updated) = process_alert-found now alert r.manager v found in
        let (managed, stated) = opened-recorded fine updated in
        let (engine, gone) =
          closed-none {i = alert_mutator now alert i} r'
            (rw managed (process_alert-Inv r.manager v now alert)) (rw managed updated) same in
        (rw engine stated, gone)
