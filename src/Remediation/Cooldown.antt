-- ===== src/Remediation/Cooldown.antt =====
-- The cooldown after an executed remediation, in
-- backend/internal/monitoring/remediation/engine.go.
use healthops.Prelude.{
  ℕ, ◌+◌, ◌*◌, ◌<◌, String, true, false, some, ◌≡◌, refl, arith, str_eq_refl, positive_or, inl, inr,
}
use healthops.Prelude.Maps.{Map, lookup, lookup-insert}
use healthops.Types.{Time, second}
use healthops.Remediation.Data.{AllowedAction, GlobalConfig, CheckInfo, Attempt}
use healthops.Remediation.Guards.{Engine, go, is_cooling, decide, decide_manual}
use healthops.Remediation.Engine.{
  World, new_attempt, begin_attempt, finish_attempt, execute, try_remediate, manual_remediate,
}
use healthops.Remediation.Attempts.{Decision-cases}

finish_attempt-cools :
    (info : CheckInfo) (action : AllowedAction) (cfg : GlobalConfig) (w : World) (a : Attempt)
    (e : Engine)
    → cfg.dry_run ≡ false
    → lookup info.check_id (finish_attempt info action cfg w a e).0.cooldowns
      ≡ some (w.finished_at + positive_or 300 info.ref.cooldown_seconds * second)
unfolding finish_attempt
finish_attempt-cools info action cfg w a e real = ground (
  arith,
  real,
  str_eq_refl info.check_id,
  lookup-insert info.check_id info.check_id
      (w.finished_at + positive_or 300 info.ref.cooldown_seconds * second) e.cooldowns,
)

execute-cools :
    (info : CheckInfo) (action : AllowedAction) (cfg : GlobalConfig) (n : ℕ) (w : World)
    (e : Engine)
    → cfg.dry_run ≡ false
    → w.is_stored ≡ true
    → lookup info.check_id (execute info action cfg n w e).0.cooldowns
      ≡ some (w.finished_at + positive_or 300 info.ref.cooldown_seconds * second)
unfolding execute begin_attempt
execute-cools info action cfg n w e real stored =
    let a = new_attempt info action cfg n w in
    rw (stored, execute)
      (finish_attempt-cools info action cfg w a (begin_attempt info action cfg n w e).0 real)

is_cooling_before :
    (now : Time) (check_id : String) (cooldowns : Map Time) (until : Time)
    → lookup check_id cooldowns ≡ some until
    → now < until
    → is_cooling now check_id cooldowns ≡ true
is_cooling_before now check_id cooldowns until at early = ground (arith, at, early)

decide-cooling :
    (now : Time) (info : CheckInfo) (e : Engine) (a : AllowedAction) (cfg : GlobalConfig) (n : ℕ)
    → is_cooling now info.check_id e.cooldowns ≡ true
    → ¬ (decide now info e ≡ go a cfg n)
unfolding decide
decide-cooling now info e a cfg n cooling = ground (arith, cooling)

decide_manual-cooling :
    (now : Time) (info : CheckInfo) (e : Engine) (a : AllowedAction) (cfg : GlobalConfig) (n : ℕ)
    → is_cooling now info.check_id e.cooldowns ≡ true
    → ¬ (decide_manual now info e ≡ go a cfg n)
unfolding decide_manual
decide_manual-cooling now info e a cfg n cooling = ground (arith, cooling)

try_remediate-cooling :
    (now : Time) (w : World) (info : CheckInfo) (e : Engine)
    → is_cooling now info.check_id e.cooldowns ≡ true
    → (try_remediate now w info e).0 ≡ e
unfolding try_remediate
try_remediate-cooling now w info e cooling = elim (Decision-cases (decide now info e)) [
  | inl (r, skipped) ↦ rw (skipped, try_remediate) refl
  | inr (a, cfg, n, gone) ↦ absurd (decide-cooling now info e a cfg n cooling gone)
]

manual_remediate-cooling :
    (now : Time) (w : World) (actor : String) (info : CheckInfo) (e : Engine)
    → is_cooling now info.check_id e.cooldowns ≡ true
    → (manual_remediate now w actor info e).0 ≡ e
unfolding manual_remediate
manual_remediate-cooling now w actor info e cooling =
    elim (Decision-cases (decide_manual now info e)) [
      | inl (r, skipped) ↦ rw (skipped, manual_remediate) refl
      | inr (a, cfg, n, gone) ↦ absurd (decide_manual-cooling now info e a cfg n cooling gone)
    ]

-- Once an action was executed for a check, and not as a dry run, neither an automatic nor a manual
-- remediation of the check does anything before the check's cooldown, from the action's end, is
-- over.
pub execute-quiet :
    (info again : CheckInfo) (action : AllowedAction) (cfg : GlobalConfig) (n : ℕ) (w w' : World)
    (now : Time) (actor : String) (e : Engine)
    → cfg.dry_run ≡ false
    → w.is_stored ≡ true
    → again.check_id ≡ info.check_id
    → now < w.finished_at + positive_or 300 info.ref.cooldown_seconds * second
    → let e' = (execute info action cfg n w e).0 in
      ((try_remediate now w' again e').0 ≡ e') × ((manual_remediate now w' actor again e').0 ≡ e')
execute-quiet info again action cfg n w w' now actor e real stored same early =
    let e' = (execute info action cfg n w e).0 in
    let cooling : is_cooling now again.check_id e'.cooldowns ≡ true = rw same (
      is_cooling_before now info.check_id e'.cooldowns
        (w.finished_at + positive_or 300 info.ref.cooldown_seconds * second)
        (execute-cools info action cfg n w e real stored) early) in
    (
      try_remediate-cooling now w' again e' cooling,
      manual_remediate-cooling now w' actor again e' cooling,
    )
