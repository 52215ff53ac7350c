-- ===== src/Scenarios/Mirror.antt =====
-- A database that is there at the first start, and one from which a check is deleted: hybrid_store.go
-- and mongo.go.
use healthops.Prelude.{
  ℕ, suc, String, Bool, true, false, none, some, List, [], ◌∷◌, ◌≡◌, refl, ℤ, pos, arith,
  str_eq_iff, if◌then◌else◌,
}
use healthops.Types.{CheckConfig}
use healthops.FileStore.Operations.{
  State, FileStore, missing, holds, empty_state, stored, new_file_store, update, put_check,
  delete_check, upsert_check,
}
use healthops.FileStore.Reopen.{Call, upserting, apply}
use healthops.Hybrid.Operations.{
  Mirror, HybridStore, connected, started, snapshot, sync_to_mongo, call, new_hybrid_store,
}
use healthops.Hybrid.Mongo.{
  Driver, upsert_checks, replace_results, upsert_results, sync_state, read_state, mongo_mirror,
}
use healthops.Hybrid.Deleted.{has_id, IsDriver, deleted_after, delete_check-comes_back}
use healthops.Hybrid.Startup.{new_hybrid_store-not_seeded}
use healthops.Scenarios.Windows.{web}

-- The state that is held, and whether the database can be reached.
abbrev Database : Type 0
Database = State ℤ × Bool

abbrev database : Mirror ℤ
database = record {
  D = Database;
  sync_state = λ s d. if d.1 then ((s, true), true) else (d, false);
  read_state = λ d. if d.1 then some d.0 else none;
}

abbrev file_store : FileStore ℤ
file_store = record {
  state = record empty_state { checks = web ∷ []; updated_at = 5 };
  disk = holds (record empty_state { checks = web ∷ []; updated_at = 5 });
}

-- The documents of the checks, and how often something else was written.
abbrev Documents : Type 0
Documents = List CheckConfig × ℕ

abbrev driver : Driver ℤ
driver = record {
  D = Documents;
  replace_check = λ c d. ((put_check c d.0, d.1), true);
  replace_result = λ r d. ((d.0, suc d.1), true);
  delete_results = λ t d. ((d.0, suc d.1), true);
  replace_state = λ s d. ((d.0, suc d.1), true);
  replace_dashboard = λ s d. ((d.0, suc d.1), true);
  find_checks = λ d. some d.0;
  find_results = λ t d. some [];
  find_state = λ d. some none;
}

abbrev documents : Documents → List CheckConfig
documents d = d.0

has_id-put_check :
    (id : String) (c : CheckConfig) (cs : List CheckConfig)
    → has_id id cs ≡ true
    → has_id id (put_check c cs) ≡ true
has_id-put_check id c [] h = ground (arith, h)
has_id-put_check id c (d ∷ ds) h = ground (arith, h, has_id-put_check id c ds, str_eq_iff d.id c.id)

driver-IsDriver : IsDriver driver documents
driver-IsDriver = record {
  keeps = λ id c d. has_id-put_check id c d.0;
  apart_result = λ r d. refl;
  apart_results = λ t d. refl;
  apart_state = λ s d. refl;
  apart_dashboard = λ s d. refl;
  finds = λ d cs e. cc;
}

-- The database holds the check, and one that the file no longer has.
abbrev mirrored : HybridStore ℤ Documents
mirrored = record {
  local = file_store;
  mirror = some (web ∷ record web { id = "kept" } ∷ [], 0);
  mongo_down = false;
}

abbrev earlier : List (Call ℤ × ℕ)
earlier =
    (record { change = upserting (record web { id = "api" }); now = 6; is_written = true }, 7) ∷ []

delete_check-comes_back_example :
    let h = deleted_after driver documents driver-IsDriver "web" (pos 7) earlier 8 9 mirrored in
    (has_id "web" h.local.state.checks ≡ false)
    × (has_id "web" (snapshot (mongo_mirror driver (pos 7) 10) h).checks ≡ true)
unfolding call update apply delete_check upsert_check sync_to_mongo sync_state upsert_checks
    upsert_results replace_results read_state
delete_check-comes_back_example =
    delete_check-comes_back driver documents driver-IsDriver "web" (pos 7) earlier 8 9 10 mirrored
      refl refl refl

-- What the database holds before the first start without a file.
abbrev before : Database
before = (record empty_state { checks = record web { id = "kept" } ∷ []; updated_at = 3 }, true)

new_hybrid_store-not_seeded_example :
    let h : HybridStore ℤ Database = record {
      local = file_store;
      mirror = some before;
      mongo_down = false;
    } in
    (new_hybrid_store database true true true 5 5 "state.json" (web ∷ []) missing (connected before)
      ≡ started h true)
    × ((sync_to_mongo database h).0.mirror ≡ some (database.sync_state file_store.state before).0)
unfolding new_file_store stored
new_hybrid_store-not_seeded_example =
    new_hybrid_store-not_seeded database true true true 5 5 "state.json" (web ∷ []) missing before
      before.0 file_store refl refl refl
