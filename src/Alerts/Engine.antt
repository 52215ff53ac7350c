-- ===== src/Alerts/Engine.antt =====
-- The evaluation loop of backend/internal/monitoring/alert_rules.go. The engine is locked for a
-- whole call, and reads the clock once.
use Prim.Native.String.{◌++◌}
use healthops.Prelude.{
  String, Bool, true, false, not, ◌&&◌, none, some, List, [], ◌∷◌, ◌++◌ as append, ℤ, ltb_ℤ, sub_ℕ,
  scale, str_eq, if◌then◌else◌,
}
use healthops.Prelude.Maps.{Map, lookup, insert}
use healthops.Types.{Time, minute, CheckResult}
use healthops.Floats.{Floats}
use healthops.Alerts.Rules.{AlertChannel, AlertRule, Alert}
use healthops.Alerts.Conditions.{check_matches_rule, evaluate_conditions, build_alert}

-- What sendToChannel writes to the log.
pub data Sent : Type 0 where
  logged : Alert → Sent
  unknown_channel : String → Alert → Sent

abbrev send_to_channel : Alert → AlertChannel → Sent
send_to_channel a c = if str_eq c.type "log" then logged a else unknown_channel c.type a

unfoldable pub send_alert : Alert → List AlertChannel → List Sent
send_alert a [] = []
send_alert a (c ∷ cs) = send_to_channel a c ∷ send_alert a cs

-- now.Sub(last) < cooldown
abbrev pub is_cooling : Time → Time → ℤ → Bool
is_cooling now last cooldown_minutes = ltb_ℤ (sub_ℕ now last) (scale minute cooldown_minutes)

-- The variables of a run of the loops: the engine's map, the alerts and what was sent.
pub record Pass : Type 0 where
  pub last_triggered : Map Time
  pub alerts : List Alert
  pub sent : List Sent

-- What Evaluate and EvaluateForIncidents differ in.
pub record Mode : Type 0 where
  pub apply_cooldown : Bool
  pub send : Bool

module _ (fl : Floats) where
  open fl use {F}

  pub record AlertRuleEngine : Type 0 where
    pub rules : List (AlertRule F)
    pub last_triggered : Map Time

  unfoldable pub cooldown_key : AlertRule F → CheckResult F → String
  cooldown_key rule result = rule.id ++ ":" ++ result.check_id

  -- Under a cooldown from an earlier alert.
  unfoldable pub in_cooldown : Time → AlertRule F → CheckResult F → Map Time → Bool
  in_cooldown now rule result last = elim (lookup (cooldown_key rule result) last) [
    | none ↦ false
    | some t ↦ is_cooling now t rule.cooldown_minutes
  ]

  unfoldable pub fires : AlertRule F → CheckResult F → Bool
  fires rule result = evaluate_conditions fl result rule.conditions

  -- The body of the inner loop.
  unfoldable pub visit_rule : Mode → Time → CheckResult F → AlertRule F → Pass → Pass
  unfolding fires
  visit_rule mode now result rule p =
      if not rule.enabled
      then p
      else if not (check_matches_rule fl result rule)
      then p
      else if mode.apply_cooldown && in_cooldown now rule result p.last_triggered
      then p
      else if fires rule result
      then (let alert = build_alert fl rule result now in
          record {
            last_triggered =
                if mode.apply_cooldown
                then insert (cooldown_key rule result) now p.last_triggered
                else p.last_triggered;
            alerts = append p.alerts (alert ∷ []);
            sent = if mode.send then append p.sent (send_alert alert rule.channels) else p.sent;
          })
      else p

  unfoldable pub visit_rules : Mode → Time → CheckResult F → List (AlertRule F) → Pass → Pass
  visit_rules mode now result [] p = p
  visit_rules mode now result (rule ∷ rules) p =
      visit_rules mode now result rules (visit_rule mode now result rule p)

  unfoldable pub visit_results :
      Mode → Time → List (AlertRule F) → List (CheckResult F) → Pass → Pass
  visit_results mode now rules [] p = p
  visit_results mode now rules (result ∷ results) p =
      visit_results mode now rules results (visit_rules mode now result rules p)

  -- The engine after the call, the alerts, and what was sent.
  unfoldable pub evaluate_in :
      Mode
      → Time
      → List (CheckResult F)
      → AlertRuleEngine
      → AlertRuleEngine × List Alert × List Sent
  evaluate_in mode now results e =
      let start : Pass = record { last_triggered = e.last_triggered; alerts = []; sent = [] } in
      let p = visit_results mode now e.rules results start in
      (record e { last_triggered = p.last_triggered }, p.alerts, p.sent)

  abbrev pub notifying : Mode
  notifying = record { apply_cooldown = true; send = true }

  abbrev pub for_incidents : Mode
  for_incidents = record { apply_cooldown = false; send = false }

  unfoldable pub evaluate :
      Time → List (CheckResult F) → AlertRuleEngine → AlertRuleEngine × List Alert × List Sent
  unfolding evaluate_in
  evaluate = evaluate_in notifying

  unfoldable pub evaluate_for_incidents :
      Time → List (CheckResult F) → AlertRuleEngine → AlertRuleEngine × List Alert × List Sent
  unfolding evaluate_in
  evaluate_for_incidents = evaluate_in for_incidents

  unfoldable pub new_alert_rule_engine : List (AlertRule F) → AlertRuleEngine
  new_alert_rule_engine rules = record { rules = rules; last_triggered = [] }
