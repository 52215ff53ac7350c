-- ===== src/Runner/Once.antt =====
-- RunOnce, RunCheck and executeCheck of backend/internal/monitoring/runner.go over a FileStore.
-- Parameters: what an executor does to a result, with its error if any (`execute`, none for an
-- unknown type), the elapsed milliseconds, fmt's %q, and the order in which the workers' results
-- come (`order`). The clock's readings before and after the executors are `started` and `finished`.
-- The collector of metrics is left out, and so is what RunCheck does for the zero time, which the
-- clock does not read.
use Prim.Native.String.{◌++◌}
use healthops.Prelude.{
  ◌*◌, String, Bool, true, false, Option, none, some, List, [], ◌∷◌, map, select, is_nil, is_blank,
  ℤ, print_ℤ, sub_ℕ, if◌then◌else◌,
}
use healthops.Types.{Time, second, is_enabled, CheckConfig, CheckResult}
use healthops.FileStore.Operations.{FileStore, update, append_results, set_last_run}
use healthops.FileStore.Summary.{Summary, build_summary}

pub record Execution (F : Type 0) : Type 0 where
  pub execute : CheckConfig → CheckResult F → Option (CheckResult F × Option String)
  pub elapsed_ms : CheckConfig → ℤ
  pub quote : String → String
  pub order : List (CheckResult F) → List (CheckResult F)

pub data RunSummary (F : Type 0) : Type 0 where
  skipped run_failed : RunSummary F
  ran : Time → Time → List (CheckResult F) → Summary F → RunSummary F

module _ {F : Type 0} where
  -- The result before the executor runs.
  unfoldable pub new_result : Time → CheckConfig → CheckResult F
  unfolding print_ℤ
  new_result started c = record {
    id = c.id ++ "-" ++ print_ℤ (sub_ℕ started (62_135_596_800 * second));
    check_id = c.id;
    name = c.name;
    type = c.type;
    server = c.server;
    application = c.application;
    status = "";
    healthy = false;
    message = "";
    duration_ms = ℤ.pos 0;
    started_at = started;
    finished_at = 0;
    metrics = [];
    tags = c.tags;
  }

  abbrev failed_with : String → CheckResult F → CheckResult F
  failed_with reason r = record r { status = "critical"; healthy = false; message = reason }

  abbrev with_error : Option String → CheckResult F → CheckResult F
  with_error none r = r
  with_error (some reason) r = failed_with reason r

  -- What the executor left, or the unknown type.
  abbrev pub executed :
      Execution F
      → CheckConfig
      → CheckResult F
      → Option (CheckResult F × Option String)
      → CheckResult F
  executed x c r none = failed_with ("unsupported check type " ++ x.quote c.type) r
  executed x c r (some (r', e)) = with_error e r'

  abbrev pub healthy_if_blank : CheckResult F → CheckResult F
  healthy_if_blank r =
      if is_blank r.status then record r { status = "healthy"; healthy = true } else r

  unfoldable pub execute_check : Execution F → Time → Time → CheckConfig → CheckResult F
  unfolding new_result
  execute_check x started finished c =
      let r = new_result started c in
      record (healthy_if_blank (executed x c r (x.execute c r))) {
        duration_ms = x.elapsed_ms c;
        finished_at = finished;
      }

  -- Whether the writes of AppendResults and of SetLastRun succeed.
  unfoldable pub persist_results :
      Bool → Bool → Time → ℤ → List (CheckResult F) → Time → FileStore F → FileStore F × Bool
  persist_results first second_write now retention_days rs finished f =
      let (f', ok) = update first now (append_results now rs retention_days) f in
      if ok then update second_write now (set_last_run finished) f' else (f', false)

  -- `running` says whether another run is under way.
  unfoldable pub run_once :
      Execution F → Bool → Bool → Bool → Time → Time → ℤ → FileStore F → FileStore F × RunSummary F
  run_once x running first second_write started finished retention_days f =
      let checks = select is_enabled f.state.checks in
      let rs = x.order (map (execute_check x started finished) checks) in
      if running
      then (f, skipped)
      else if is_nil checks
      then (let (f', ok) = update first finished (set_last_run finished) f in
          (
            f',
            if ok
                then ran started finished [] (build_summary f.state.checks [] finished)
                else run_failed,
          ))
      else (let (f', ok) =
            persist_results first second_write finished retention_days rs finished f in
          (
            f',
            if ok
                then ran started finished rs (build_summary f.state.checks rs finished)
                else run_failed,
          ))

  unfoldable pub run_check :
      Execution F
      → Bool
      → Bool
      → Time
      → Time
      → ℤ
      → CheckConfig
      → FileStore F
      → FileStore F × Option (CheckResult F)
  run_check x first second_write started finished retention_days c f =
      let r = execute_check x started finished c in
      let (f', ok) =
        persist_results first second_write finished retention_days (r ∷ []) finished f in
      (f', if ok then some r else none)
