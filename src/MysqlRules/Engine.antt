-- ===== src/MysqlRules/Engine.antt =====
-- backend/internal/monitoring/mysql_rules.go. The engine is locked for a whole call; what it
-- writes to disk is not modelled.
use Prim.Native.String.{◌++◌}
use healthops.Prelude.{
  ℕ, suc, String, Bool, true, false, not, Option, none, some, List, [], ◌∷◌, ◌++◌ as append, pos,
  str_eq, eqb_ℤ, mem_str, is_positive, leb, positive_or, print_ℕ, if◌then◌else◌,
}
use healthops.Prelude.Maps.{Map, lookup, insert}
use healthops.Floats.{Floats, fle}
use healthops.Alerts.Rules.{AlertRule}
use healthops.MysqlRules.Samples.{MysqlSample, MysqlDelta}

-- "OK", "OPEN", and any other text.
pub data RuleStatus : Type 0 where
  status_ok status_open : RuleStatus
  status_other : String → RuleStatus

pub record AlertState : Type 0 where
  pub rule_code : String
  pub check_id : String
  pub status : RuleStatus
  pub breach_streak : ℕ
  pub recovery_streak : ℕ
  pub open_incident_id : String

pub data Action : Type 0 where
  no_action open_action close_action : Action

pub record EvaluateResult : Type 0 where
  pub rule_code : String
  pub check_id : String
  pub action : Action
  pub severity : String
  pub message : String
  pub incident_id : String

unfoldable pub state_key : String → String → String
state_key rule_code check_id = rule_code ++ ":" ++ check_id

abbrev pub is_ok : RuleStatus → Bool
is_ok status_ok = true
is_ok status_open = false
is_ok (status_other s) = false

abbrev pub is_open : RuleStatus → Bool
is_open status_open = true
is_open status_ok = false
is_open (status_other s) = false

module _ {F : Type 0} where
  abbrev pub breaches_to_open : AlertRule F → ℕ
  breaches_to_open rule = positive_or 1 rule.consecutive_breaches

  abbrev pub samples_to_close : AlertRule F → ℕ
  samples_to_close rule = positive_or 1 rule.recovery_samples

  abbrev no_result : AlertState → AlertRule F → EvaluateResult
  no_result s rule = record {
    rule_code = rule.rule_code;
    check_id = s.check_id;
    action = no_action;
    severity = rule.severity;
    message = "";
    incident_id = "";
  }

  breach : AlertState → AlertRule F → AlertState × EvaluateResult
  unfolding print_ℕ
  breach s rule =
      let s' = record s { recovery_streak = 0; breach_streak = suc s.breach_streak } in
      let result = no_result s rule in
      if is_ok s.status
      then (if leb (breaches_to_open rule) (suc s.breach_streak)
          then (
            record s' { status = status_open },
            record result {
              action = open_action;
              message =
                  "Rule "
                  ++ rule.rule_code
                  ++ " breached "
                  ++ print_ℕ (suc s.breach_streak)
                  ++ " consecutive times";
            },
          )
          else (s', result))
      else (s', result)

  recovery : AlertState → AlertRule F → AlertState × EvaluateResult
  unfolding print_ℕ
  recovery s rule =
      let s' = record s { breach_streak = 0; recovery_streak = suc s.recovery_streak } in
      let result = no_result s rule in
      if is_open s.status
      then (if leb (samples_to_close rule) (suc s.recovery_streak)
          then (
            record s' { status = status_ok; recovery_streak = 0; open_incident_id = "" },
            record result {
              action = close_action;
              message =
                  "Rule "
                  ++ rule.rule_code
                  ++ " recovered after "
                  ++ print_ℕ (samples_to_close rule)
                  ++ " consecutive OK samples";
              incident_id = s.open_incident_id;
            },
          )
          else (s', result))
      else (s', result)

  -- The two branches of the transition.
  unfoldable pub transition : AlertState → AlertRule F → Bool → AlertState × EvaluateResult
  unfolding breach recovery
  transition s rule breached = if breached then breach s rule else recovery s rule

  unfoldable pub rule_applies_to_check : AlertRule F → String → Bool
  rule_applies_to_check rule check_id = elim rule.check_ids [
    | [] ↦ true
    | id ∷ ids ↦ mem_str check_id (id ∷ ids)
  ]

abbrev pub new_state : String → String → AlertState
new_state rule_code check_id = record {
  rule_code = rule_code;
  check_id = check_id;
  status = status_ok;
  breach_streak = 0;
  recovery_streak = 0;
  open_incident_id = "";
}

abbrev pub state_or_new : String → String → Map AlertState → AlertState
state_or_new rule_code check_id states = elim (lookup (state_key rule_code check_id) states) [
  | none ↦ new_state rule_code check_id
  | some s ↦ s
]

abbrev is_reported : Action → Bool
is_reported no_action = false
is_reported open_action = true
is_reported close_action = true

module _ (fl : Floats) where
  open fl use {F, fdiv, fmul, of_int}

  pub record MysqlRuleEngine : Type 0 where
    pub rules : List (AlertRule F)
    pub states : Map AlertState

  abbrev connections_breached : AlertRule F → MysqlSample → Bool
  connections_breached rule sample =
      if eqb_ℤ sample.max_connections (pos 0)
      then false
      else fle fl rule.threshold_num (
          fmul (fdiv (of_int sample.connections) (of_int sample.max_connections))
            (of_int (pos 100)))

  -- A rule on a delta is not breached without one.
  abbrev delta_breached : Option (MysqlDelta F) → (MysqlDelta F → Bool) → Bool
  delta_breached none test = false
  delta_breached (some d) test = test d

  unfoldable pub is_breached : AlertRule F → MysqlSample → Option (MysqlDelta F) → Bool
  is_breached rule sample delta =
      if str_eq rule.rule_code "CONN_UTIL_WARN"
      then connections_breached rule sample
      else if str_eq rule.rule_code "CONN_UTIL_CRIT"
      then connections_breached rule sample
      else if str_eq rule.rule_code "MAX_CONN_REFUSED"
      then delta_breached delta (λ d. is_positive d.connections_refused_delta)
      else if str_eq rule.rule_code "ABORTED_CONNECT_SPIKE"
      then delta_breached delta (λ d. fle fl rule.threshold_num d.aborted_connects_per_sec)
      else if str_eq rule.rule_code "THREADS_RUNNING_HIGH"
      then fle fl rule.threshold_num (of_int sample.threads_running)
      else if str_eq rule.rule_code "ROW_LOCK_WAITS_HIGH"
      then delta_breached delta (λ d. fle fl rule.threshold_num d.row_lock_waits_per_sec)
      else if str_eq rule.rule_code "SLOW_QUERY_SPIKE"
      then delta_breached delta (λ d. fle fl rule.threshold_num d.slow_queries_per_sec)
      else if str_eq rule.rule_code "TMP_DISK_PCT_HIGH"
      then delta_breached delta (λ d. fle fl rule.threshold_num d.tmp_disk_tables_pct)
      else if str_eq rule.rule_code "THREAD_CREATE_SPIKE"
      then delta_breached delta (λ d. fle fl rule.threshold_num d.threads_created_per_sec)
      else false

  -- The loop over the rules, with the map of states and the results so far.
  evaluate_rules :
      String
      → MysqlSample
      → Option (MysqlDelta F)
      → List (AlertRule F)
      → Map AlertState × List EvaluateResult
      → Map AlertState × List EvaluateResult
  unfolding transition is_breached rule_applies_to_check
  evaluate_rules check_id sample delta [] (states, results) = (states, results)
  evaluate_rules check_id sample delta (rule ∷ rules) (states, results) =
      evaluate_rules check_id sample delta rules (
        if not rule.enabled
        then (states, results)
        else if not (rule_applies_to_check rule check_id)
        then (states, results)
        else (let state = state_or_new rule.rule_code check_id states in
            let (state', result) = transition state rule (is_breached rule sample delta) in
            (
              insert (state_key rule.rule_code check_id) state' states,
              if is_reported result.action then append results (result ∷ []) else results,
            )))

  unfoldable pub evaluate :
      String
      → MysqlSample
      → Option (MysqlDelta F)
      → MysqlRuleEngine
      → MysqlRuleEngine × List EvaluateResult
  unfolding evaluate_rules
  evaluate check_id sample delta e =
      let (states, results) = evaluate_rules check_id sample delta e.rules (e.states, []) in
      (record e { states = states }, results)

  unfoldable pub set_open_incident_id : String → String → String → MysqlRuleEngine → MysqlRuleEngine
  set_open_incident_id rule_code check_id incident_id e =
      let key = state_key rule_code check_id in
      elim (lookup key e.states) [
        | none ↦ e
        | some s ↦ record e {
          states = insert key (record s { open_incident_id = incident_id }) e.states;
        }
      ]
