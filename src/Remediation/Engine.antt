-- ===== src/Remediation/Engine.antt =====
-- The engine of backend/internal/monitoring/remediation/engine.go. The guards are one step and
-- the two halves of `execute` are others, so that calls may interleave; `try_remediate` runs
-- them one after the other. What the world answers is an argument.
use Prim.Native.String.{◌++◌}
use healthops.Prelude.{
  ℕ, suc, ◌+◌, ◌-◌, ◌*◌, String, Bool, true, false, not, Option, none, some, List, [], ◌∷◌,
  ◌++◌ as append_list, is_blank, positive_or, if◌then◌else◌, ℤ, pos, eqb_ℤ,
}
use healthops.Prelude.Maps.{Map, insert}
use healthops.Types.{Time, second}
use healthops.Remediation.Data.{
  Bytes, ActionType, command, ssh_command, http, other_action, AttemptStatus, running, success,
  failed, dry_run, GlobalConfig, AllowedAction, CheckInfo, Attempt, update_attempt,
}
use healthops.Remediation.Redact.{codes, redact_and_cap}
use healthops.Remediation.Guards.{Engine, Skip, skip, go, decide, decide_manual}

-- An execution's output and exit code, or its error with them.
pub data Execution : Type 0 where
  ran : Bytes → ℤ → Execution
  execution_failed : String → Bytes → ℤ → Execution

-- The answers that one attempt gets: its random identifier, the clock when it is made, whether it
-- could be stored, the execution, the clock after it, and the model's analysis of a failure;
-- and strings.ToLower.
pub record World : Type 0 where
  pub id : String
  pub created_at : Time
  pub is_stored : Bool
  pub execution : Execution
  pub duration_ms : ℕ
  pub finished_at : Time
  pub analysis : Option String
  pub to_lower : Bytes → Bytes

abbrev pub new_attempt : CheckInfo → AllowedAction → GlobalConfig → ℕ → World → Attempt
new_attempt info action cfg number w = record {
  id = w.id;
  check_id = info.check_id;
  incident_id = info.incident_id;
  action_id = action.id;
  action_name = action.name;
  action_type = action.type;
  command = action.command;
  attempt_number = number;
  status = if cfg.dry_run then dry_run else running;
  dry_run = cfg.dry_run;
  exit_code = pos 0;
  output = [];
  error = "";
  verified = none;
  ai_analysis = "";
  duration_ms = 0;
  triggered_by = "system";
  created_at = w.created_at;
}

-- The first half of execute: the attempt is stored, newest last, and counts as running. `none`
-- where it could not be stored.
unfoldable pub begin_attempt :
    CheckInfo → AllowedAction → GlobalConfig → ℕ → World → Engine → Engine × Option Attempt
begin_attempt info action cfg number w e =
    let a = new_attempt info action cfg number w in
    if w.is_stored
    then (
      record e { attempts = append_list e.attempts (a ∷ []); in_progress = suc e.in_progress },
      some a,
    )
    else (e, none)

abbrev type_text : ActionType → String
type_text command = "command"
type_text ssh_command = "ssh_command"
type_text http = "http"
type_text (other_action s) = s

-- An action of another type is not executed.
abbrev executed : ActionType → Execution → Execution
executed (other_action s) x = execution_failed ("unsupported action type: " ++ s) [] (pos 0)
executed command x = x
executed ssh_command x = x
executed http x = x

-- setCooldown, at the time that it reads.
unfoldable pub set_cooldown : Time → String → ℤ → Map Time → Map Time
set_cooldown now check_id seconds cooldowns =
    insert check_id (now + positive_or 300 seconds * second) cooldowns

-- updateAttempt: the fields of the engine's copy that are stored.
abbrev pub copy_fields : Attempt → Attempt → Attempt
copy_fields from a = record a {
  status = from.status;
  output = from.output;
  exit_code = from.exit_code;
  error = from.error;
  duration_ms = from.duration_ms;
  dry_run = from.dry_run;
}

-- analyzeFailure, with the model's trimmed answer.
abbrev analyze_failure : Option String → String → List Attempt → List Attempt
analyze_failure none id attempts = attempts
analyze_failure (some text) id attempts =
    update_attempt id (λ a. record a { ai_analysis = text }) attempts

abbrev capped : (Bytes → Bytes) → GlobalConfig → Bytes → Bytes
capped to_lower cfg output =
    redact_and_cap to_lower (positive_or 8192 cfg.output_limit_bytes) output

-- The attempt after its execution.
abbrev pub with_execution : GlobalConfig → World → Execution → Attempt → Attempt
with_execution cfg w (execution_failed error output code) a = record a {
  status = failed;
  error = error;
  output = capped w.to_lower cfg output;
  exit_code = code;
  duration_ms = w.duration_ms;
}
with_execution cfg w (ran output code) a = record a {
  status = if eqb_ℤ code (pos 0) then success else failed;
  output = capped w.to_lower cfg output;
  exit_code = code;
  duration_ms = w.duration_ms;
}

abbrev is_failed : AttemptStatus → Bool
is_failed failed = true
is_failed running = false
is_failed success = false
is_failed dry_run = false

-- The second half of execute, with the attempt that it returns.
unfoldable pub finish_attempt :
    CheckInfo → AllowedAction → GlobalConfig → World → Attempt → Engine → Engine × Attempt
unfolding update_attempt set_cooldown redact_and_cap
finish_attempt info action cfg w a e =
    if cfg.dry_run
    then (let a' = record a {
      status = dry_run;
      output =
          codes ("[DRY RUN] would execute: " ++ type_text action.type ++ " " ++ action.command);
      exit_code = pos 0;
    } in
        (
          record e {
            attempts = update_attempt a.id (copy_fields a') e.attempts;
            in_progress = e.in_progress - 1;
          },
          a',
        ))
    else (let a' = with_execution cfg w (executed action.type w.execution) a in
        let stored = update_attempt a.id (copy_fields a') e.attempts in
        (
          record e {
            attempts =
                if is_failed a'.status then analyze_failure w.analysis a.id stored else stored;
            in_progress = e.in_progress - 1;
            cooldowns =
                set_cooldown w.finished_at info.check_id info.ref.cooldown_seconds e.cooldowns;
          },
          a',
        ))

-- execute, when nothing comes between its halves.
unfoldable pub execute :
    CheckInfo → AllowedAction → GlobalConfig → ℕ → World → Engine → Engine × Option Attempt
unfolding begin_attempt finish_attempt
execute info action cfg number w e =
    let begun = begin_attempt info action cfg number w e in
    elim begun.1 [
      | none ↦ (begun.0, none)
      | some a ↦ let ended = finish_attempt info action cfg w a begun.0 in (ended.0, some ended.1)
    ]

-- tryRemediateAsync. `escalated` of the audit log is the skip for exhaustion.
unfoldable pub try_remediate : Time → World → CheckInfo → Engine → Engine × Option Skip
unfolding decide execute
try_remediate now w info e = elim (decide now info e) [
  | skip reason ↦ (e, some reason)
  | go action cfg number ↦ ((execute info action cfg number w e).0, none)
]

unfoldable pub manual_remediate : Time → World → String → CheckInfo → Engine → Engine × Option Skip
unfolding decide_manual execute
manual_remediate now w actor info e = elim (decide_manual now info e) [
  | skip reason ↦ (e, some reason)
  | go action cfg number ↦
      let done = execute info action cfg number w e in
      elim done.1 [
        | none ↦ (done.0, none)
        | some a ↦ (
          record done.0 {
            attempts = update_attempt a.id (λ x. record x { triggered_by = actor }) done.0.attempts;
          },
          none,
        )
      ]
]

-- verifyAfter, with what the check's run says (`none` for an error) and the analysis of a check
-- that still fails; and whether the success is called back.
unfoldable pub verify_after :
    CheckInfo → Attempt → Option (Bool × String) → Option String → Engine → Engine × Bool
unfolding update_attempt
verify_after info a answer analysis e = elim answer [
  | none ↦ (e, false)
  | some (healthy, message) ↦
      let checked =
        update_attempt a.id
          (λ x. record x {
            verified = some healthy;
            error = if healthy then x.error else "verification failed: " ++ message;
          })
          e.attempts in
      if healthy
      then (record e { attempts = checked }, not (is_blank info.incident_id))
      else (record e { attempts = analyze_failure analysis a.id checked }, false)
]
