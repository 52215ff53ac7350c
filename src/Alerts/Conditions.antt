-- ===== src/Alerts/Conditions.antt =====
-- Conditions and messages of backend/internal/monitoring/alert_rules.go.
use Prim.Native.String.{◌++◌}
use healthops.Prelude.{
  ◌*◌, String, Bool, true, false, not, ◌&&◌, none, some, List, [], ◌∷◌, ℤ, ltb_ℤ, eqb_ℤ, sub_ℕ,
  print_ℤ, is_positive, str_eq, is_blank, mem_str, eqb_Bool, if◌then◌else◌,
}
use healthops.Prelude.Maps.{lookup}
use healthops.Types.{Time, second, CheckResult}
use healthops.Floats.{Floats}
use healthops.Alerts.Rules.{
  AlertOperator, equals, not_equals, greater_than, less_than, other_operator, Value, text, boolean,
  float, int, int64, AlertCondition, AlertRule, Alert,
}

module _ (fl : Floats) where
  open fl use {F, feq, flt, of_int, to_int}

  unfoldable pub check_matches_rule : CheckResult F → AlertRule F → Bool
  check_matches_rule result rule = elim rule.check_ids [
    | [] ↦ true
    | id ∷ ids ↦ mem_str result.check_id (id ∷ ids)
  ]

  unfoldable pub compare_strings : String → AlertOperator → Value F → Bool
  compare_strings actual equals (text s) = str_eq actual s
  compare_strings actual not_equals (text s) = not (str_eq actual s)
  compare_strings actual op v = false

  unfoldable pub compare_bool : Bool → AlertOperator → Value F → Bool
  compare_bool actual equals (boolean b) = eqb_Bool actual b
  compare_bool actual not_equals (boolean b) = not (eqb_Bool actual b)
  compare_bool actual op v = false

  abbrev compare_ints : ℤ → AlertOperator → ℤ → Bool
  compare_ints actual equals v = eqb_ℤ actual v
  compare_ints actual not_equals v = not (eqb_ℤ actual v)
  compare_ints actual greater_than v = ltb_ℤ v actual
  compare_ints actual less_than v = ltb_ℤ actual v
  compare_ints actual (other_operator s) v = false

  unfoldable pub compare_int : ℤ → AlertOperator → Value F → Bool
  compare_int actual op (float x) = compare_ints actual op (to_int x)
  compare_int actual op (int n) = compare_ints actual op n
  compare_int actual op (int64 n) = compare_ints actual op n
  compare_int actual op v = false

  abbrev compare_floats : F → AlertOperator → F → Bool
  compare_floats actual equals v = feq actual v
  compare_floats actual not_equals v = not (feq actual v)
  compare_floats actual greater_than v = flt v actual
  compare_floats actual less_than v = flt actual v
  compare_floats actual (other_operator s) v = false

  unfoldable pub compare_float : F → AlertOperator → Value F → Bool
  compare_float actual op (float x) = compare_floats actual op x
  compare_float actual op (int n) = compare_floats actual op (of_int n)
  compare_float actual op (int64 n) = compare_floats actual op (of_int n)
  compare_float actual op v = false

  unfoldable pub evaluate_condition : CheckResult F → AlertCondition F → Bool
  unfolding compare_strings compare_bool compare_int compare_float
  evaluate_condition result cond =
      if str_eq cond.field "status"
      then compare_strings result.status cond.operator cond.value
      else if str_eq cond.field "healthy"
      then compare_bool result.healthy cond.operator cond.value
      else if str_eq cond.field "durationMs"
      then compare_int result.duration_ms cond.operator cond.value
      else elim (lookup cond.field result.metrics) [
        | some val ↦ compare_float val cond.operator cond.value
        | none ↦ false
      ]

  -- The loop over conditions: the first that fails ends it.
  unfoldable pub all_conditions : CheckResult F → List (AlertCondition F) → Bool
  all_conditions result [] = true
  all_conditions result (c ∷ cs) = evaluate_condition result c && all_conditions result cs

  -- No conditions means never.
  unfoldable pub evaluate_conditions : CheckResult F → List (AlertCondition F) → Bool
  unfolding all_conditions
  evaluate_conditions result [] = false
  evaluate_conditions result (c ∷ cs) = all_conditions result (c ∷ cs)

  -- strings.Join(parts, " | ")
  abbrev join : List String → String
  join [] = ""
  join (p ∷ []) = p
  join (p ∷ q ∷ ps) = p ++ " | " ++ join (q ∷ ps)

  abbrev optional : Bool → String → List String → List String
  optional b part parts = if b then part ∷ parts else parts

  unfoldable pub build_alert_message : AlertRule F → CheckResult F → String
  unfolding print_ℤ
  build_alert_message rule result = join (
      ("Rule: " ++ rule.name)
      ∷ ("Check: " ++ result.name)
      ∷ ("Status: " ++ result.status)
      ∷ optional (not (is_blank result.message)) ("Details: " ++ result.message) (
          optional (is_positive result.duration_ms)
            ("Duration: " ++ print_ℤ result.duration_ms ++ "ms")
            (optional (not (is_blank rule.description)) ("Description: " ++ rule.description) [])))

  -- Nanoseconds since 1970.
  abbrev pub unix_nano : Time → ℤ
  unix_nano t = sub_ℕ t (62_135_596_800 * second)

  unfoldable pub build_alert : AlertRule F → CheckResult F → Time → Alert
  unfolding build_alert_message
  build_alert rule result triggered_at = record {
    id = "alert-" ++ rule.id ++ "-" ++ result.check_id ++ "-" ++ print_ℤ (unix_nano triggered_at);
    rule_id = rule.id;
    rule_name = rule.name;
    check_id = result.check_id;
    check_name = result.name;
    severity = rule.severity;
    status = "fired";
    message = build_alert_message rule result;
    triggered_at = triggered_at;
    resolved_at = none;
  }
