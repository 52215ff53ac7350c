-- ===== src/Scenarios/Alerts.antt =====
-- Rules and results of a web check: alert_rules.go.
use healthops.Prelude.{◌*◌, false, List, [], ◌∷◌, ◌≡◌, refl, ℤ, pos}
use healthops.Prelude.Maps.{lookup}
use healthops.Types.{minute, CheckResult}
use healthops.Alerts.Rules.{AlertRule}
use healthops.Alerts.Conditions.{evaluate_condition}
use healthops.Alerts.Engine.{
  AlertRuleEngine, in_cooldown, cooldown_key, evaluate, evaluate_for_incidents,
  new_alert_rule_engine,
}
use healthops.Alerts.Expected.{alert_on, evaluate_for_incidents-eq}
use healthops.Alerts.Cooldown.{evaluate_again_quiet}
use healthops.Alerts.Defaults.{check_down}
use healthops.Scenarios.Numbers.{whole}

abbrev pub failed_run : CheckResult ℤ
failed_run = record {
  id = "r1";
  check_id = "web";
  name = "Web";
  type = "api";
  server = "a";
  application = "shop";
  status = "error";
  healthy = false;
  message = "status 500";
  duration_ms = pos 4000;
  started_at = 10;
  finished_at = 20;
  metrics = ("latencyMs", pos 4000) ∷ [];
  tags = [];
}

abbrev rules : List (AlertRule ℤ)
rules = check_down whole ∷ []

evaluate_for_incidents-eq_example :
    evaluate_for_incidents whole minute (failed_run ∷ []) (new_alert_rule_engine whole rules) ≡ (
      new_alert_rule_engine whole rules,
      alert_on whole minute failed_run (check_down whole) ∷ [],
      [],
    )
unfolding new_alert_rule_engine evaluate_condition
evaluate_for_incidents-eq_example =
    evaluate_for_incidents-eq whole minute (failed_run ∷ []) (new_alert_rule_engine whole rules)

-- The engine alerted for the check long ago, and for another one just now.
abbrev alerted : AlertRuleEngine whole
alerted = record {
  rules = rules;
  last_triggered = ("check-down:web", minute) ∷ ("check-down:db", 20 * minute) ∷ [];
}

evaluate_again_quiet_example :
    let e = (evaluate whole (20 * minute) (failed_run ∷ []) alerted).0 in
    evaluate whole (21 * minute) (failed_run ∷ []) e ≡ (e, [], [])
unfolding in_cooldown cooldown_key lookup
evaluate_again_quiet_example =
    evaluate_again_quiet whole alerted (failed_run ∷ []) (20 * minute) (21 * minute)
      ((refl, tt), tt) (refl, tt)
