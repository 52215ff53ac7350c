-- ===== src/Scheduler/Retry.antt =====
-- runCheck of backend/internal/monitoring/scheduler.go. `run` is the runner: what it returns at
-- each attempt, `none` for an error. `interrupted` says whether the context ends while the retry
-- before an attempt is awaited.
use healthops.Prelude.{
  ℕ, zero, suc, ◌+◌, ◌*◌, ◌≤◌, Bool, true, false, not, ◌&&◌, Option, none, some, List, [], ◌∷◌, ◌≡◌,
  refl, pos_part, arith, length, ltb, if◌then◌else◌, Option-cases, inl, inr,
}
use healthops.Prelude.Maps.{lookup, insert}
use healthops.Types.{Time, second, before, CheckConfig, CheckResult, is_enabled}
use healthops.Scheduler.Timers.{Job, CheckScheduler, find_check_by_id}

-- `if check.RetryCount >= 0 { return check.RetryCount }; return 0`
abbrev pub get_check_retry_count : CheckConfig → ℕ
get_check_retry_count c = pos_part c.retry_count

abbrev pub get_check_cooldown : CheckConfig → ℕ
get_check_cooldown c = pos_part c.cooldown_seconds

-- How the attempts of a run end.
pub data Ending : Type 0 where
  passed exhausted interrupted_run : Ending

-- The check's cooldown has not ended.
abbrev pub is_in_cooldown : Time → Option Time → Bool
is_in_cooldown now none = false
is_in_cooldown now (some until) = before now until

module _ {F : Type 0} (run : ℕ → Option (CheckResult F)) (interrupted : ℕ → Bool) where
  -- The loop, with the number of attempts that are left: the results that the callback gets, oldest
  -- first, and the ending.
  unfoldable pub attempts : ℕ → ℕ → List (CheckResult F) × Ending
  attempts zero attempt = ([], exhausted)
  attempts (suc left) attempt =
      let rest = attempts left (suc attempt) in
      if ltb 0 attempt && interrupted attempt then ([], interrupted_run) else elim (run attempt) [
        | none ↦ rest
        | some r ↦ if r.healthy then (r ∷ [], passed) else (r ∷ rest.0, rest.1)
      ]

  abbrev pub after_ending : Ending → Time → CheckConfig → CheckScheduler → CheckScheduler
  after_ending passed now c s = s
  after_ending interrupted_run now c s = s
  after_ending exhausted now c s =
      if ltb 0 (get_check_cooldown c)
      then record s { cooldowns = insert c.id (now + get_check_cooldown c * second) s.cooldowns }
      else s

  -- It begins at `now` and its attempts end at `later`. The callback may be nil.
  unfoldable pub run_check :
      Bool → Time → Time → CheckConfig → CheckScheduler → CheckScheduler × List (CheckResult F)
  unfolding attempts
  run_check has_callback now later c s =
      if s.cancelled
      then (s, [])
      else if is_in_cooldown now (lookup c.id s.cooldowns)
      then (s, [])
      else let (results, ending) = attempts (suc (get_check_retry_count c)) 0 in
        (after_ending ending later c s, if has_callback then results else [])

  -- What a tick of a job's loop runs: the check as it is now, unless it is gone, disabled or in its
  -- cooldown.
  unfoldable pub tick :
      Bool
      → Time
      → Time
      → List CheckConfig
      → Job
      → CheckScheduler
      → CheckScheduler × List (CheckResult F)
  unfolding run_check
  tick has_callback now later checks j s = elim (find_check_by_id checks j.check.id) [
    | none ↦ (s, [])
    | some c ↦
        if not (is_enabled c)
        then (s, [])
        else if is_in_cooldown now (lookup j.check.id s.cooldowns)
        then (s, [])
        else run_check has_callback now later c s
  ]

  attempts-length : (left attempt : ℕ) → length (attempts left attempt).0 ≤ left
  unfolding attempts
  attempts-length zero attempt = omega arith
  attempts-length (suc left) attempt = ground (arith, attempts-length left (suc attempt))

  -- All but the last of a run's results are unhealthy, and the last one is healthy exactly if the
  -- run passed.
  abbrev pub ends_as : List (CheckResult F) → Ending → Bool
  ends_as [] passed = false
  ends_as [] exhausted = true
  ends_as [] interrupted_run = true
  ends_as (r ∷ []) passed = r.healthy
  ends_as (r ∷ []) exhausted = not r.healthy
  ends_as (r ∷ []) interrupted_run = not r.healthy
  ends_as (r ∷ q ∷ rs) e = not r.healthy && ends_as (q ∷ rs) e

  ends_as-cons :
      (r : CheckResult F) (rs : List (CheckResult F)) (e : Ending)
      → r.healthy ≡ false
      → ends_as rs e ≡ true
      → ends_as (r ∷ rs) e ≡ true
  ends_as-cons r [] passed h k = cc
  ends_as-cons r [] exhausted h k = ground (arith, h)
  ends_as-cons r [] interrupted_run h k = ground (arith, h)
  ends_as-cons r (q ∷ rs) e h k = ground (arith, h, k)

  attempts-ends_as : (left attempt : ℕ) → let a = attempts left attempt in ends_as a.0 a.1 ≡ true
  unfolding attempts
  attempts-ends_as zero attempt = refl
  attempts-ends_as (suc left) attempt =
      let ih = attempts-ends_as left (suc attempt) in
      elim (Option-cases (run attempt)) [
        | inl e ↦ rw (e, attempts) (ground (arith, ih))
        | inr (r, e) ↦
            rw (e, attempts)
              (ground (
                arith,
                ih,
                ends_as-cons r (attempts left (suc attempt)).0 (attempts left (suc attempt)).1,
              ))
      ]

  -- A run of the attempts gives the callback at most one result for each of the retryCount + 1
  -- attempts, every one but the last unhealthy, and the last healthy exactly if the run passed.
  attempts-bounded :
      (c : CheckConfig)
      → let (results, ending) = attempts (suc (get_check_retry_count c)) 0 in
        (length results ≤ get_check_retry_count c + 1) × (ends_as results ending ≡ true)
  attempts-bounded c =
      let n = suc (get_check_retry_count c) in
      (omega (arith, attempts-length n 0), attempts-ends_as n 0)
