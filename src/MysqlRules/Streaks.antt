-- ===== src/MysqlRules/Streaks.antt =====
-- How many samples in a row open and close a rule of mysql_rules.go.
use healthops.Prelude.{
  ℕ, zero, suc, ◌+◌, ◌≤◌, String, Bool, true, false, List, [], ◌∷◌, ◌++◌, ◌≡◌, refl, ◌⊎◌, arith,
  replicate,
}
use healthops.Alerts.Rules.{AlertRule}
use healthops.MysqlRules.Engine.{
  AlertState, status_ok, status_open, Action, no_action, open_action, close_action,
  breaches_to_open, samples_to_close, transition, new_state,
}

module _ {F : Type 0} (rule : AlertRule F) where
  -- The state and the actions of a run of samples, each breached or not, oldest first.
  unfoldable pub samples : List Bool → AlertState → AlertState × List Action
  samples [] s = (s, [])
  samples (b ∷ bs) s =
      let (s', result) = transition s rule b in
      let (s'', actions) = samples bs s' in (s'', result.action ∷ actions)

  transition-waits :
      (s : AlertState) (k : ℕ)
      → s.status ≡ status_ok
      → s.breach_streak + suc (suc k) ≡ breaches_to_open rule
      → let (s', result) = transition s rule true in
        (s'.status ≡ status_ok)
        × (s'.breach_streak ≡ suc s.breach_streak)
        × (result.action ≡ no_action)
  unfolding transition
  transition-waits s k h n = ground arith

  -- A rule that is OK, after some breaches in a row, opens with the breach that makes the
  -- required number, and does nothing before.
  samples_open :
      (k : ℕ) (s : AlertState)
      → s.status ≡ status_ok
      → s.breach_streak + suc k ≡ breaches_to_open rule
      → let (s', actions) = samples (replicate (suc k) true) s in
        (s'.status ≡ status_open) × (actions ≡ replicate k no_action ++ open_action ∷ [])
  unfolding samples transition
  samples_open zero s h n = ground arith
  samples_open (suc k) s h n =
      let (still, longer, quiet) = transition-waits s k h n in
      let rest = samples_open k (transition s rule true).0 still (omega (arith, longer)) in
      ground (arith, rest, quiet)

  transition-recovers :
      (s : AlertState) (k : ℕ)
      → s.status ≡ status_open
      → s.recovery_streak + suc (suc k) ≡ samples_to_close rule
      → let (s', result) = transition s rule false in
        (s'.status ≡ status_open)
        × (s'.recovery_streak ≡ suc s.recovery_streak)
        × (result.action ≡ no_action)
  unfolding transition
  transition-recovers s k h n = ground arith

  -- An open rule, after some good samples in a row, closes with the good sample that makes the
  -- required number, and does nothing before.
  samples_close :
      (k : ℕ) (s : AlertState)
      → s.status ≡ status_open
      → s.recovery_streak + suc k ≡ samples_to_close rule
      → let (s', actions) = samples (replicate (suc k) false) s in
        (s'.status ≡ status_ok) × (actions ≡ replicate k no_action ++ close_action ∷ [])
  unfolding samples transition
  samples_close zero s h n = ground arith
  samples_close (suc k) s h n =
      let (still, longer, quiet) = transition-recovers s k h n in
      let rest = samples_close k (transition s rule false).0 still (omega (arith, longer)) in
      ground (arith, rest, quiet)

  -- The state after a history, the newest sample first.
  unfoldable pub after : String → List Bool → AlertState
  after check_id [] = new_state rule.rule_code check_id
  after check_id (b ∷ h) = (transition (after check_id h) rule b).0

  -- How many samples, from the newest back, agree with b.
  abbrev pub leading : Bool → List Bool → ℕ
  leading b [] = 0
  leading true (true ∷ h) = suc (leading true h)
  leading true (false ∷ h) = 0
  leading false (true ∷ h) = 0
  leading false (false ∷ h) = suc (leading false h)

  after-breach_streak :
      (check_id : String) (h : List Bool) → (after check_id h).breach_streak ≡ leading true h
  unfolding after transition
  after-breach_streak check_id [] = refl
  after-breach_streak check_id (true ∷ h) = ground (arith, after-breach_streak check_id h)
  after-breach_streak check_id (false ∷ h) = ground arith

  after-recovery_streak :
      (check_id : String) (h : List Bool) → (after check_id h).recovery_streak ≤ leading false h
  unfolding after transition
  after-recovery_streak check_id [] = omega arith
  after-recovery_streak check_id (true ∷ h) = ground arith
  after-recovery_streak check_id (false ∷ h) = ground (arith, after-recovery_streak check_id h)

  -- Whatever the history of a check, a sample that opens a rule is a breach and ends a row of at
  -- least the required number of breaches; one that closes it is good and ends a row of at least
  -- the required number of good samples.
  pub actions_need_streaks :
      (check_id : String) (b : Bool) (h : List Bool)
      → let action = (transition (after check_id h) rule b).1.action in
        (action ≡ no_action)
        ⊎ ((action ≡ open_action) × (b ≡ true) × (breaches_to_open rule ≤ leading true (b ∷ h)))
        ⊎ ((action ≡ close_action) × (b ≡ false) × (samples_to_close rule ≤ leading false (b ∷ h)))
  unfolding transition
  actions_need_streaks check_id true h = ground (arith, after-breach_streak check_id h)
  actions_need_streaks check_id false h = ground (arith, after-recovery_streak check_id h)
