-- ===== src/Scheduler/Quiet.antt =====
-- What runs of checks do while one of them is in its cooldown, backend/internal/monitoring/scheduler.go.
use healthops.Prelude.{
  ℕ, suc, not, select, ◌+◌, ◌*◌, String, Bool, true, false, Option, some, List, [], ◌∷◌, ◌++◌, ◌≡◌,
  refl, arith, All, ltb, str_eq, str_eq_iff, str_eq_refl, inl, inr, Bool-cases, if◌then◌else◌,
}
use healthops.Prelude.Maps.{lookup, lookup-insert}
use healthops.Types.{Time, second, before, CheckConfig, CheckResult}
use healthops.Scheduler.Timers.{CheckScheduler}
use healthops.Scheduler.Retry.{
  Ending, passed, exhausted, interrupted_run, is_in_cooldown, get_check_cooldown,
  get_check_retry_count, attempts, after_ending, run_check,
}

-- A call of runCheck: what its runner answers, whether and when it is interrupted, when it begins
-- and ends, and the check as it is then.
pub record Turn (F : Type 0) : Type 0 where
  pub run : ℕ → Option (CheckResult F)
  pub interrupted : ℕ → Bool
  pub has_callback : Bool
  pub now : Time
  pub later : Time
  pub check : CheckConfig

module _ {F : Type 0} where
  abbrev pub take_turn : Turn F → CheckScheduler → CheckScheduler × List (CheckResult F)
  take_turn t s = run_check t.run t.interrupted t.has_callback t.now t.later t.check s

  -- The results of a check over a sequence of calls.
  unfoldable pub results_of : String → List (Turn F) → CheckScheduler → List (CheckResult F)
  results_of id [] s = []
  results_of id (t ∷ ts) s =
      let rest = results_of id ts (take_turn t s).0 in
      if str_eq t.check.id id then (take_turn t s).1 ++ rest else rest

  -- The scheduler after a sequence of calls.
  unfoldable pub after_turns : List (Turn F) → CheckScheduler → CheckScheduler
  after_turns [] s = s
  after_turns (t ∷ ts) s = after_turns ts (take_turn t s).0

  abbrev pub turns_of_others : String → List (Turn F) → List (Turn F)
  turns_of_others id ts = select (λ t. not (str_eq t.check.id id)) ts

  after_ending-other :
      (t : Turn F) (id : String) (e : Ending) (s : CheckScheduler)
      → str_eq t.check.id id ≡ false
      → lookup id (after_ending t.run t.interrupted e t.later t.check s).cooldowns
        ≡ lookup id s.cooldowns
  after_ending-other t id passed s other = refl
  after_ending-other t id interrupted_run s other = refl
  after_ending-other t id exhausted s other =
      let until = t.later + get_check_cooldown t.check * second in
      ground (arith, other, lookup-insert t.check.id id until s.cooldowns)

  take_turn-other :
      (id : String) (t : Turn F) (s : CheckScheduler)
      → str_eq t.check.id id ≡ false
      → lookup id (take_turn t s).0.cooldowns ≡ lookup id s.cooldowns
  unfolding run_check
  take_turn-other id t s other =
      let n = suc (get_check_retry_count t.check) in
      ground (arith, after_ending-other t id (attempts t.run t.interrupted n 0).1 s other)

  take_turn-quiet :
      (id : String) (until : Time) (t : Turn F) (s : CheckScheduler)
      → str_eq t.check.id id ≡ true
      → lookup id s.cooldowns ≡ some until
      → before t.now until ≡ true
      → take_turn t s ≡ (s, [])
  unfolding run_check
  take_turn-quiet id until t s same cooling early =
      ground (arith, (str_eq_iff t.check.id id).0 same, cooling, early)

  results_of-quiet :
      (id : String) (until : Time) (ts : List (Turn F)) (s : CheckScheduler)
      → lookup id s.cooldowns ≡ some until
      → All (λ t. before t.now until ≡ true) ts
      → (results_of id ts s ≡ []) × (after_turns ts s ≡ after_turns (turns_of_others id ts) s)
  unfolding results_of after_turns
  results_of-quiet id until [] s cooling early = (refl, refl)
  results_of-quiet id until (t ∷ ts) s cooling (early, more) =
      elim (Bool-cases (str_eq t.check.id id)) [
        | inl same ↦ rw same (
            rw (take_turn-quiet id until t s same cooling early)
              (results_of-quiet id until ts s cooling more))
        | inr other ↦ rw other (
            results_of-quiet id until ts (take_turn t s).0
              (rw (take_turn-other id t s other) cooling) more)
      ]

  -- A run whose attempts are exhausted, of a check with a cooldown, starts the cooldown: whatever
  -- calls follow, for this check and for others, with whatever runners, as long as each begins before
  -- the cooldown is over, those for the check give no result and leave the scheduler as if they had not
  -- been made.
  pub run_check-cooldown :
      (t : Turn F) (ts : List (Turn F)) (s : CheckScheduler)
      → s.cancelled ≡ false
      → is_in_cooldown t.now (lookup t.check.id s.cooldowns) ≡ false
      → (attempts t.run t.interrupted (suc (get_check_retry_count t.check)) 0).1 ≡ exhausted
      → ltb 0 (get_check_cooldown t.check) ≡ true
      → All (λ u. before u.now (t.later + get_check_cooldown t.check * second) ≡ true) ts
      → let s' = (take_turn t s).0 in
        (results_of t.check.id ts s' ≡ [])
        × (after_turns ts s' ≡ after_turns (turns_of_others t.check.id ts) s')
  unfolding run_check
  run_check-cooldown t ts s live cool done some_cooldown early =
      let until = t.later + get_check_cooldown t.check * second in
      results_of-quiet t.check.id until ts (take_turn t s).0
        (ground (
          arith,
          live,
          cool,
          done,
          some_cooldown,
          str_eq_refl t.check.id,
          lookup-insert t.check.id t.check.id until s.cooldowns,
        ))
        early
