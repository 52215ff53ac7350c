-- ===== src/Scenarios/Mysql.antt =====
-- A rule that opens after two breaches and closes after three good samples: mysql_rules.go.
use healthops.Prelude.{true, false, [], ◌∷◌, ◌≡◌, refl, ◌⊎◌, inl, ◌≤◌, ℤ, pos}
use healthops.Alerts.Rules.{AlertRule}
use healthops.Alerts.Defaults.{check_down}
use healthops.MysqlRules.Engine.{
  AlertState, no_action, open_action, close_action, transition, new_state,
}
use healthops.MysqlRules.Streaks.{samples, after, actions_need_streaks}
use healthops.MysqlRules.Alternation.{alternates, samples-alternates}
use healthops.Scenarios.Numbers.{whole}

abbrev rule : AlertRule ℤ
rule = record (check_down whole) {
  rule_code = "THREADS_RUNNING_HIGH";
  consecutive_breaches = pos 2;
  recovery_samples = pos 3;
}

abbrev fresh : AlertState
fresh = new_state "THREADS_RUNNING_HIGH" "db"

actions_need_streaks_example :
    let action = (transition (after rule "db" (true ∷ false ∷ [])) rule true).1.action in
    (action ≡ no_action)
    ⊎ ((action ≡ open_action) × (true ≡ true) × (2 ≤ 2))
    ⊎ ((action ≡ close_action) × (true ≡ false) × (3 ≤ 0))
actions_need_streaks_example = actions_need_streaks rule "db" true (true ∷ false ∷ [])

samples-alternates_example :
    alternates true (samples rule (true ∷ true ∷ false ∷ false ∷ false ∷ true ∷ []) fresh).1 ≡ true
samples-alternates_example =
    samples-alternates rule (true ∷ true ∷ false ∷ false ∷ false ∷ true ∷ []) fresh (inl refl)
