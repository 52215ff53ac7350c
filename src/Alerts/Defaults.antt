-- ===== src/Alerts/Defaults.antt =====
-- DefaultAlertRules of backend/internal/monitoring/alert_rules.go, and when they fire.
use healthops.Prelude.{
  String, true, false, not, none, List, [], ◌∷◌, ◌≡◌, refl, ℤ, pos, arith, All, ltb_ℤ, str_eq, map,
}
use healthops.Types.{CheckResult}
use healthops.Floats.{Floats}
use healthops.Alerts.Rules.{
  AlertOperator, equals, greater_than, Value, text, boolean, float, AlertCondition, AlertRule,
}
use healthops.Alerts.Conditions.{check_matches_rule, evaluate_conditions, evaluate_condition}
use healthops.Alerts.Engine.{fires}
use healthops.Alerts.ForIncidents.{triggers}
use healthops.Alerts.Validation.{
  validate, validate_condition, validate_conditions, validate_channels,
}

module _ (fl : Floats) where
  open fl use {F, of_int, to_int}

  abbrev condition : String → AlertOperator → Value F → AlertCondition F
  condition field operator value = record { field = field; operator = operator; value = value }

  -- The fields that all five rules share; ThresholdNum is the zero value.
  abbrev default_rule : String → String → String → ℤ → String → AlertCondition F → AlertRule F
  default_rule id name severity cooldown_minutes description c = record {
    id = id;
    name = name;
    enabled = true;
    check_ids = [];
    conditions = c ∷ [];
    severity = severity;
    channels = record { type = "log" } ∷ [];
    cooldown_minutes = cooldown_minutes;
    description = description;
    consecutive_breaches = pos 0;
    recovery_samples = pos 0;
    threshold_num = of_int (pos 0);
    rule_code = "";
  }

  abbrev pub check_down : AlertRule F
  check_down =
      default_rule "check-down-critical" "Check Down" "critical" (pos 5)
        "Fires when any health check reports unhealthy" (condition "healthy" equals (boolean false))

  abbrev pub high_latency : AlertRule F
  high_latency =
      default_rule "high-latency-warning" "High Latency" "warning" (pos 10)
        "Fires when response time exceeds 3 seconds"
        (condition "durationMs" greater_than (float (of_int (pos 3000))))

  abbrev pub critical_latency : AlertRule F
  critical_latency =
      default_rule "critical-latency" "Critical Latency" "critical" (pos 5)
        "Fires when response time exceeds 10 seconds"
        (condition "durationMs" greater_than (float (of_int (pos 10000))))

  abbrev pub error_response : AlertRule F
  error_response =
      default_rule "api-error-status" "API Error Response" "critical" (pos 5)
        "Fires when a check returns error status" (condition "status" equals (text "error"))

  abbrev pub timed_out : AlertRule F
  timed_out =
      default_rule "timeout-warning" "Check Timeout" "warning" (pos 10)
        "Fires when a check times out" (condition "status" equals (text "timeout"))

  unfoldable pub default_alert_rules : List (AlertRule F)
  default_alert_rules =
      check_down ∷ high_latency ∷ critical_latency ∷ error_response ∷ timed_out ∷ []

  default_rules-accepted : All (λ rule. validate rule ≡ (rule, none)) default_alert_rules
  unfolding default_alert_rules validate validate_conditions validate_condition validate_channels
  default_rules-accepted = (refl, (refl, (refl, (refl, (refl, tt)))))

  -- What the default rules report of a result, one Boolean for each rule in their order.
  default_rules-triggers :
      (result : CheckResult F)
      → to_int (of_int (pos 3000)) ≡ pos 3000
      → to_int (of_int (pos 10000)) ≡ pos 10000
      → map (triggers fl result) default_alert_rules
        ≡ not result.healthy
          ∷ ltb_ℤ (pos 3000) result.duration_ms
          ∷ ltb_ℤ (pos 10000) result.duration_ms
          ∷ str_eq result.status "error"
          ∷ str_eq result.status "timeout"
          ∷ []
  unfolding default_alert_rules check_matches_rule fires evaluate_conditions evaluate_condition
  default_rules-triggers result h k = ground (arith, h, k)
