-- ===== src/Alerts/Metrics.antt =====
-- Rules on metrics in alert_rules.go: Validate and evaluateCondition read the field's name in two
-- ways.
use package.text.Mathlib.Text.{starts_with}
use healthops.Prelude.{ℕ, String, true, false, none, ◌≡◌, arith, str_eq, Bool-cases, inl, inr}
use healthops.Prelude.Maps.{lookup}
use healthops.Types.{CheckResult}
use healthops.Floats.{Floats}
use healthops.Alerts.Rules.{AlertCondition}
use healthops.Alerts.Conditions.{evaluate_condition}
use healthops.Alerts.Validation.{validate_condition}

-- A condition that Validate accepts, and that is on a metric, holds of no result whose metrics are
-- named without the prefix `metrics.`, whatever its operator and value.
accepted_metric_never_holds :
    (fl : Floats) (i : ℕ) (result : CheckResult (fl.F)) (c : AlertCondition (fl.F))
    → validate_condition i c ≡ none
    → str_eq c.field "status" ≡ false
    → str_eq c.field "healthy" ≡ false
    → str_eq c.field "durationMs" ≡ false
    → ((k : String) → starts_with k "metrics." ≡ true → lookup k result.metrics ≡ none)
    → evaluate_condition fl result c ≡ false
unfolding validate_condition evaluate_condition
accepted_metric_never_holds fl i result c accepted a b d unprefixed =
    elim (Bool-cases (starts_with c.field "metrics.")) [
      | inl t ↦ ground (arith, a, b, d, unprefixed c.field t)
      | inr f ↦ ground (arith, a, b, d, f, accepted)
    ]
