-- ===== src/Scenarios/States.antt =====
-- The state file and the summary: store.go and service.go.
use healthops.Prelude.{true, false, List, [], ◌∷◌, ◌≡◌, refl, pos, ℤ, String, select}
use healthops.Types.{CheckConfig, CheckResult}
use healthops.FileStore.Operations.{
  missing, holds, FileStore, opened, empty_state, stored, new_file_store,
}
use healthops.FileStore.Reopen.{Call, upserting, deleting, appending, run, run-reopen}
use healthops.FileStore.Checks.{by_id, change_maps, run-by_id}
use healthops.Scenarios.Windows.{web}

-- Metrics are numbers here.
abbrev result : String → String → ℤ → CheckResult ℤ
result id status duration = record {
  id = id;
  check_id = id;
  name = id;
  type = "api";
  server = "";
  application = "";
  status = status;
  healthy = false;
  message = "";
  duration_ms = duration;
  started_at = 1;
  finished_at = 2;
  metrics = [];
  tags = [];
}

abbrev api : CheckConfig
api = record web { id = "api"; server = "" }

abbrev first : FileStore ℤ
first = record {
  state = record empty_state { checks = web ∷ []; updated_at = 5 };
  disk = holds (record empty_state { checks = web ∷ []; updated_at = 5 });
}

abbrev changes : List (Call ℤ)
changes =
    record { change = upserting api; now = 6; is_written = true }
    ∷ record { change = deleting "web"; now = 7; is_written = false }
    ∷ record {
      change = appending 8 (result "api" "healthy" (pos 3) ∷ []) (pos 1);
      now = 8;
      is_written = true;
    }
    ∷ []

opens : new_file_store true true 5 "state.json" (web ∷ []) missing ≡ (opened first, first.disk)
unfolding new_file_store stored
opens = refl

run-reopen_example :
    let s = record (stored (run changes first).state) { updated_at = 9 } in
    new_file_store true true 9 "state.json" [] (run changes first).disk
    ≡ (opened (record { state = s; disk = holds (stored s) }), holds (stored s))
run-reopen_example =
    run-reopen true true 5 9 "state.json" (web ∷ []) [] missing first.disk first changes opens

run-by_id_example :
    by_id (run changes first).state.checks
    ≡ change_maps (select (λ c. c.is_written) changes) (by_id (web ∷ []))
run-by_id_example = run-by_id changes first
