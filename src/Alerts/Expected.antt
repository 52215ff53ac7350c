-- ===== src/Alerts/Expected.antt =====
-- What EvaluateForIncidents of backend/internal/monitoring/alert_rules.go is to give, in terms of
-- the rules' fields.
use Prim.Native.String.{◌++◌}
use healthops.Prelude.{
  Bool, not, ◌&&◌, ◌||◌, none, List, [], ◌∷◌, ◌++◌ as append, map, all, select, is_nil, mem_str,
  print_ℤ, ◌≡◌, refl, arith, ◌∙◌,
}
use healthops.Types.{Time, CheckResult}
use healthops.Floats.{Floats}
use healthops.Alerts.Rules.{AlertCondition, AlertRule, Alert}
use healthops.Alerts.Conditions.{
  check_matches_rule, evaluate_condition, all_conditions, evaluate_conditions, unix_nano,
  build_alert_message, build_alert,
}
use healthops.Alerts.Engine.{AlertRuleEngine, fires, evaluate_for_incidents}
use healthops.Alerts.ForIncidents.{triggers, all_alerts, evaluate_for_incidents-all_alerts}

module _ (fl : Floats) where
  open fl use {F}

  -- The rule is enabled, names no check or this one, and has conditions, which all hold.
  abbrev pub asks : CheckResult F → AlertRule F → Bool
  asks result rule =
      rule.enabled
      && (is_nil rule.check_ids || mem_str result.check_id rule.check_ids)
      && not (is_nil rule.conditions)
      && all (evaluate_condition fl result) rule.conditions

  abbrev pub alert_on : Time → CheckResult F → AlertRule F → Alert
  alert_on now result rule = record {
    id = "alert-" ++ rule.id ++ "-" ++ result.check_id ++ "-" ++ print_ℤ (unix_nano fl now);
    rule_id = rule.id;
    rule_name = rule.name;
    check_id = result.check_id;
    check_name = result.name;
    severity = rule.severity;
    status = "fired";
    message = build_alert_message fl rule result;
    triggered_at = now;
    resolved_at = none;
  }

  abbrev pub expected : Time → List (AlertRule F) → List (CheckResult F) → List Alert
  expected now rules [] = []
  expected now rules (result ∷ results) =
      append (map (alert_on now result) (select (asks result) rules)) (expected now rules results)

  all-all_conditions :
      (result : CheckResult F) (cs : List (AlertCondition F))
      → all_conditions fl result cs ≡ all (evaluate_condition fl result) cs
  unfolding all_conditions
  all-all_conditions result [] = refl
  all-all_conditions result (c ∷ cs) = ground (arith, all-all_conditions result cs)

  triggers-asks :
      (result : CheckResult F) (rule : AlertRule F) → triggers fl result rule ≡ asks result rule
  unfolding check_matches_rule fires evaluate_conditions
  triggers-asks result rule = ground (arith, all-all_conditions result rule.conditions)

  build_alert-alert_on :
      (now : Time) (result : CheckResult F) (rule : AlertRule F)
      → build_alert fl rule result now ≡ alert_on now result rule
  unfolding build_alert
  build_alert-alert_on now result rule = refl

  all_alerts-expected :
      (now : Time) (rules : List (AlertRule F)) (results : List (CheckResult F))
      → all_alerts fl now rules results ≡ expected now rules results
  all_alerts-expected now rules [] = refl
  all_alerts-expected now rules (result ∷ results) = λ i.
      append
        (map (λ rule. build_alert-alert_on now result rule i)
          (select (λ rule. triggers-asks result rule i) rules))
        (all_alerts-expected now rules results i)

  -- For incidents the engine gives, result by result and rule by rule, one alert for each rule that
  -- is enabled, names no check or the result's, and has conditions, which evaluateCondition all finds
  -- to hold. The alert carries the rule's identifier, name and severity, the check's identifier and
  -- name, and the time. The engine sends nothing, and neither reads nor writes a cooldown: it is the
  -- one before.
  pub evaluate_for_incidents-eq :
      (now : Time) (results : List (CheckResult F)) (e : AlertRuleEngine fl)
      → evaluate_for_incidents fl now results e ≡ (e, expected now e.rules results, [])
  evaluate_for_incidents-eq now results e =
      evaluate_for_incidents-all_alerts fl now results e
      ∙ (λ i. (e, all_alerts-expected now e.rules results i, []))
