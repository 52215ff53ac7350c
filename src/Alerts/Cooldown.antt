-- ===== src/Alerts/Cooldown.antt =====
-- The cooldown of Evaluate in alert_rules.go: a rule that has alerted for a check is quiet for it
-- until the cooldown is over.
use healthops.Prelude.{
  String, true, some, List, [], ◌∷◌, ◌≡◌, refl, arith, All, inl, inr, Bool-cases, str_eq_refl, ◌⊎◌,
  false,
}
use healthops.Prelude.Maps.{Map, lookup, lookup-insert}
use healthops.Types.{Time, CheckResult}
use healthops.Floats.{Floats}
use healthops.Alerts.Rules.{AlertRule}
use healthops.Alerts.Engine.{
  Pass, is_cooling, cooldown_key, in_cooldown, visit_rule, visit_rules, visit_results, notifying,
  evaluate, AlertRuleEngine,
}
use healthops.Alerts.ForIncidents.{triggers}

module _ (fl : Floats) where
  open fl use {F}

  -- What is recorded for a key was recorded at time t, or it is as at first.
  abbrev Touched : Time → Map Time → Map Time → Type 0
  Touched t first m = (k : String) → (lookup k m ≡ some t) ⊎ (lookup k m ≡ lookup k first)

  -- No rule is under a cooldown for the result at time t.
  abbrev pub AreFree : Time → Map Time → CheckResult F → List (AlertRule F) → Type 0
  AreFree t last result rules = All (λ rule. in_cooldown fl t rule result last ≡ false) rules

  -- The rules that trigger on the result are recorded at time t.
  abbrev Recorded : Time → Map Time → CheckResult F → List (AlertRule F) → Type 0
  Recorded t last result rules =
      All
        (λ rule.
          triggers fl result rule ≡ true → lookup (cooldown_key fl rule result) last ≡ some t)
        rules

  abbrev Kept : Time → Map Time → Map Time → Type 0
  Kept t old new = (k : String) → lookup k old ≡ some t → lookup k new ≡ some t

  module _ (t : Time) (first : Map Time) where
    visit_rule-Touched :
        (result : CheckResult F) (rule : AlertRule F) (p : Pass)
        → Touched t first p.last_triggered
        → Touched t first (visit_rule fl (notifying fl) t result rule p).last_triggered
    unfolding visit_rule
    visit_rule-Touched result rule p h k =
        ground (arith, h k, lookup-insert (cooldown_key fl rule result) k t p.last_triggered)

    visit_rule-Kept :
        (result : CheckResult F) (rule : AlertRule F) (p : Pass)
        → Kept t p.last_triggered (visit_rule fl (notifying fl) t result rule p).last_triggered
    unfolding visit_rule
    visit_rule-Kept result rule p k e =
        ground (arith, lookup-insert (cooldown_key fl rule result) k t p.last_triggered)

    visit_rule-recorded :
        (result : CheckResult F) (rule : AlertRule F) (p : Pass)
        → Touched t first p.last_triggered
        → in_cooldown fl t rule result first ≡ false
        → triggers fl result rule ≡ true
        → lookup
            (cooldown_key fl rule result)
            (visit_rule fl (notifying fl) t result rule p).last_triggered
          ≡ some t
    unfolding visit_rule in_cooldown
    visit_rule-recorded result rule p h free e =
        let key = cooldown_key fl rule result in
        let put = lookup-insert key key t p.last_triggered in
        elim (h key) [
          | inl at ↦ ground (arith, at, str_eq_refl key, put)
          | inr same ↦ ground (arith, free, same, str_eq_refl key, put)
        ]

    visit_rules-Touched :
        (result : CheckResult F) (rules : List (AlertRule F)) (p : Pass)
        → Touched t first p.last_triggered
        → Touched t first (visit_rules fl (notifying fl) t result rules p).last_triggered
    unfolding visit_rules
    visit_rules-Touched result [] p h = h
    visit_rules-Touched result (rule ∷ rules) p h =
        visit_rules-Touched result rules (visit_rule fl (notifying fl) t result rule p)
          (visit_rule-Touched result rule p h)

    visit_rules-Kept :
        (result : CheckResult F) (rules : List (AlertRule F)) (p : Pass)
        → Kept t p.last_triggered (visit_rules fl (notifying fl) t result rules p).last_triggered
    unfolding visit_rules
    visit_rules-Kept result [] p k e = e
    visit_rules-Kept result (rule ∷ rules) p k e =
        visit_rules-Kept result rules (visit_rule fl (notifying fl) t result rule p) k
          (visit_rule-Kept result rule p k e)

    visit_rules-Recorded :
        (result : CheckResult F) (rules : List (AlertRule F)) (p : Pass)
        → Touched t first p.last_triggered
        → AreFree t first result rules
        → Recorded t (visit_rules fl (notifying fl) t result rules p).last_triggered result rules
    unfolding visit_rules
    visit_rules-Recorded result [] p h free = tt
    visit_rules-Recorded result (rule ∷ rules) p h free =
        let q = visit_rule fl (notifying fl) t result rule p in
        (
          λ e. visit_rules-Kept result rules q _ (visit_rule-recorded result rule p h free.0 e),
          visit_rules-Recorded result rules q (visit_rule-Touched result rule p h) free.1,
        )

    module _ (rules : List (AlertRule F)) where
      visit_results-Kept :
          (results : List (CheckResult F)) (p : Pass)
          → Kept t p.last_triggered
              (visit_results fl (notifying fl) t rules results p).last_triggered
      unfolding visit_results
      visit_results-Kept [] p k e = e
      visit_results-Kept (result ∷ results) p k e =
          visit_results-Kept results (visit_rules fl (notifying fl) t result rules p) k
            (visit_rules-Kept result rules p k e)

      Recorded-Kept :
          (result : CheckResult F) (rs : List (AlertRule F)) (old new : Map Time)
          → Kept t old new
          → Recorded t old result rs
          → Recorded t new result rs
      Recorded-Kept result [] old new k h = tt
      Recorded-Kept result (rule ∷ rs) old new k h =
          (λ e. k _ (h.0 e), Recorded-Kept result rs old new k h.1)

      visit_results-Recorded :
          (results : List (CheckResult F)) (p : Pass)
          → Touched t first p.last_triggered
          → All (λ result. AreFree t first result rules) results
          → All
              (λ result.
                Recorded t
                  (visit_results fl (notifying fl) t rules results p).last_triggered
                  result
                  rules)
              results
      unfolding visit_results
      visit_results-Recorded [] p h free = tt
      visit_results-Recorded (result ∷ results) p h free =
          let q = visit_rules fl (notifying fl) t result rules p in
          (
            Recorded-Kept result rules _ _ (visit_results-Kept results q)
                (visit_rules-Recorded result rules p h free.0),
            visit_results-Recorded results q (visit_rules-Touched result rules p h) free.1,
          )

  -- The second evaluation, at a time t' at which every rule's cooldown from t still runs.
  module _ (t t' : Time) where
    abbrev Cooling : List (AlertRule F) → Type 0
    Cooling rules = All (λ rule. is_cooling t' t rule.cooldown_minutes ≡ true) rules

    visit_rule-quiet :
        (result : CheckResult F) (rule : AlertRule F) (p : Pass)
        → is_cooling t' t rule.cooldown_minutes ≡ true
        → (triggers fl result rule ≡ true
            → lookup (cooldown_key fl rule result) p.last_triggered ≡ some t)
        → visit_rule fl (notifying fl) t' result rule p ≡ p
    unfolding visit_rule in_cooldown
    visit_rule-quiet result rule p cooling recorded = elim (Bool-cases (triggers fl result rule)) [
      | inl on ↦ ground (arith, on, recorded on, cooling)
      | inr off ↦ ground (arith, off)
    ]

    visit_rules-quiet :
        (result : CheckResult F) (rules : List (AlertRule F)) (p : Pass)
        → Cooling rules
        → Recorded t p.last_triggered result rules
        → visit_rules fl (notifying fl) t' result rules p ≡ p
    unfolding visit_rules
    visit_rules-quiet result [] p c h = refl
    visit_rules-quiet result (rule ∷ rules) p c h =
        rw (visit_rule-quiet result rule p c.0 h.0) (visit_rules-quiet result rules p c.1 h.1)

    visit_results-quiet :
        (rules : List (AlertRule F)) (results : List (CheckResult F)) (p : Pass)
        → Cooling rules
        → All (λ result. Recorded t p.last_triggered result rules) results
        → visit_results fl (notifying fl) t' rules results p ≡ p
    unfolding visit_results
    visit_results-quiet rules [] p c h = refl
    visit_results-quiet rules (result ∷ results) p c h =
        rw (visit_rules-quiet result rules p c h.0) (visit_results-quiet rules results p c h.1)

  -- Where no rule of the engine is under a cooldown for any of the results at time t, the engine that
  -- has evaluated the results at t gives no alert, sends nothing and records nothing when it gets
  -- those results again at a time t' at which the cooldown of every rule, counted from t, still runs.
  pub evaluate_again_quiet :
      (e : AlertRuleEngine fl) (results : List (CheckResult F)) (t t' : Time)
      → All
          (λ result. All (λ rule. in_cooldown fl t rule result e.last_triggered ≡ false) e.rules)
          results
      → All (λ rule. is_cooling t' t rule.cooldown_minutes ≡ true) e.rules
      → let e' = (evaluate fl t results e).0 in evaluate fl t' results e' ≡ (e', [], [])
  unfolding evaluate
  evaluate_again_quiet e results t t' free c =
      let start : Pass = record { last_triggered = e.last_triggered; alerts = []; sent = [] } in
      let again : Pass = record {
        last_triggered = (visit_results fl (notifying fl) t e.rules results start).last_triggered;
        alerts = [];
        sent = [];
      } in
      rw (
        visit_results-quiet t t' e.rules results again c
          (visit_results-Recorded t e.last_triggered e.rules results start (λ k. inr refl) free))
