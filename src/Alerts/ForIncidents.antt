-- ===== src/Alerts/ForIncidents.antt =====
-- EvaluateForIncidents of alert_rules.go as one equation over the loops.
use mathlib.Core.List.{append-nil, append_assoc}
use healthops.Prelude.{
  Bool, ◌&&◌, List, [], ◌∷◌, ◌++◌, map, ◌≡◌, ◌∙◌, arith, select, if◌then◌else◌, Bool-cases, inl,
  inr,
}
use healthops.Types.{Time, CheckResult}
use healthops.Floats.{Floats}
use healthops.Alerts.Rules.{AlertRule, Alert}
use healthops.Alerts.Conditions.{check_matches_rule, build_alert}
use healthops.Alerts.Engine.{
  Pass, AlertRuleEngine, fires, visit_rule, visit_rules, visit_results, for_incidents,
  evaluate_for_incidents,
}

module _ (fl : Floats) where
  open fl use {F}

  -- An enabled rule that applies to the check and whose conditions all hold.
  abbrev pub triggers : CheckResult F → AlertRule F → Bool
  triggers result rule = rule.enabled && check_matches_rule fl result rule && fires fl rule result

  abbrev pub alerts_of : Time → List (AlertRule F) → CheckResult F → List Alert
  alerts_of now rules result =
      map (λ rule. build_alert fl rule result now) (select (triggers result) rules)

  abbrev pub all_alerts : Time → List (AlertRule F) → List (CheckResult F) → List Alert
  all_alerts now rules [] = []
  all_alerts now rules (result ∷ results) =
      alerts_of now rules result ++ all_alerts now rules results

  abbrev with_alerts : Pass → List Alert → Pass
  with_alerts p more = record p { alerts = p.alerts ++ more }

  visit_rule-eq :
      (now : Time) (result : CheckResult F) (rule : AlertRule F) (p : Pass)
      → visit_rule fl (for_incidents fl) now result rule p
        ≡ (if triggers result rule then with_alerts p (build_alert fl rule result now ∷ []) else p)
  unfolding visit_rule
  visit_rule-eq now result rule p = ground arith

  visit_rules-eq :
      (now : Time) (result : CheckResult F) (rules : List (AlertRule F)) (p : Pass)
      → visit_rules fl (for_incidents fl) now result rules p
        ≡ with_alerts p (alerts_of now rules result)
  unfolding visit_rules
  visit_rules-eq now result [] p = rw (append-nil p.alerts)
  visit_rules-eq now result (rule ∷ rules) p =
      let ih =
        visit_rules-eq now result rules (visit_rule fl (for_incidents fl) now result rule p) in
      elim (Bool-cases (triggers result rule)) [
        | inl t ↦ ih ∙ rw (visit_rule-eq now result rule p) (rw t (rw append_assoc))
        | inr f ↦ ih ∙ rw (visit_rule-eq now result rule p) (rw f)
      ]

  visit_results-eq :
      (now : Time) (rules : List (AlertRule F)) (results : List (CheckResult F)) (p : Pass)
      → visit_results fl (for_incidents fl) now rules results p
        ≡ with_alerts p (all_alerts now rules results)
  unfolding visit_results
  visit_results-eq now rules [] p = rw (append-nil p.alerts)
  visit_results-eq now rules (result ∷ results) p =
      visit_results-eq now rules results (visit_rules fl (for_incidents fl) now result rules p)
      ∙ rw (visit_rules-eq now result rules p) (rw append_assoc)

  pub evaluate_for_incidents-all_alerts :
      (now : Time) (results : List (CheckResult F)) (e : AlertRuleEngine fl)
      → evaluate_for_incidents fl now results e ≡ (e, all_alerts now e.rules results, [])
  unfolding evaluate_for_incidents
  evaluate_for_incidents-all_alerts now results e = rw (
      visit_results-eq now e.rules results
        (record { last_triggered = e.last_triggered; alerts = []; sent = [] }))
