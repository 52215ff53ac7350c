-- ===== src/Hybrid/Mongo.antt =====
-- MongoMirror of backend/internal/monitoring/mongo.go, the Mirror of the program. The calls of the
-- MongoDB driver are parameters: each write with whether it succeeds, and each read with `none` for
-- an error. The document for the dashboard is built from the state that it is given.
use healthops.Prelude.{
  ◌-◌, ◌*◌, Bool, true, false, Option, none, some, List, [], ◌∷◌, ℤ, pos, negsuc, zero, suc,
  is_blank, if◌then◌else◌,
}
use healthops.Types.{Time, is_zero, day, CheckConfig, CheckResult}
use healthops.FileStore.Operations.{State}
use healthops.Hybrid.Operations.{Mirror}

-- ReplaceOne with upsert by the identifier, DeleteMany of the results before a time, Find and
-- FindOne; in the answer of `find_state`, the times of the state's document, if there is one.
pub record Driver (F : Type 0) : Type 1 where
  pub D : Type 0
  pub replace_check : CheckConfig → D → D × Bool
  pub replace_result : CheckResult F → D → D × Bool
  pub delete_results : Time → D → D × Bool
  pub replace_state : State F → D → D × Bool
  pub replace_dashboard : State F → D → D × Bool
  pub find_checks : D → Option (List CheckConfig)
  pub find_results : Option Time → D → Option (List (CheckResult F))
  pub find_state : D → Option (Option (Time × Time))

-- `if err != nil { return err }`, and what comes then.
abbrev pub and_then : {D : Type 0} → D × Bool → (D → D × Bool) → D × Bool
and_then (d, true) next = next d
and_then (d, false) next = (d, false)

-- A time before the zero time is the zero time here.
abbrev pub cutoff_of : ℤ → Time → Option Time
cutoff_of (negsuc n) now = none
cutoff_of (pos zero) now = none
cutoff_of (pos (suc n)) now = some (now - suc n * day)

module _ {F : Type 0} (db : Driver F) where
  open db use {
    D, replace_check, replace_result, delete_results, replace_state, replace_dashboard, find_checks,
    find_results, find_state,
  }

  unfoldable pub upsert_checks : List CheckConfig → D → D × Bool
  upsert_checks [] d = (d, true)
  upsert_checks (c ∷ cs) d =
      if is_blank c.id
      then upsert_checks cs d
      else and_then (replace_check c d) (λ d'. upsert_checks cs d')

  -- The loop of upsertResults.
  unfoldable pub replace_results : List (CheckResult F) → D → D × Bool
  replace_results [] d = (d, true)
  replace_results (r ∷ rs) d =
      if is_blank r.id
      then replace_results rs d
      else and_then (replace_result r d) (λ d'. replace_results rs d')

  abbrev pub delete_old : Option Time → D → D × Bool
  delete_old none d = (d, true)
  delete_old (some cutoff) d = if is_zero cutoff then (d, true) else delete_results cutoff d

  unfoldable pub upsert_results : ℤ → Time → List (CheckResult F) → D → D × Bool
  unfolding replace_results
  upsert_results days now rs d = and_then (replace_results rs d) (delete_old (cutoff_of days now))

  unfoldable pub sync_state : ℤ → Time → State F → D → D × Bool
  unfolding upsert_checks upsert_results
  sync_state days now s d = and_then (upsert_checks s.checks d) (λ d1.
      and_then (upsert_results days now s.results d1)
        (λ d2. and_then (replace_state s d2) (λ d3. replace_dashboard s d3)))

  -- Without a document for the state its times are zero.
  abbrev assembled : List CheckConfig → List (CheckResult F) → Option (Time × Time) → State F
  assembled cs rs none = record { checks = cs; results = rs; last_run_at = 0; updated_at = 0 }
  assembled cs rs (some (ran, changed)) = record {
    checks = cs;
    results = rs;
    last_run_at = ran;
    updated_at = changed;
  }

  unfoldable pub read_state : ℤ → Time → D → Option (State F)
  read_state days now d = elim (find_checks d) [
    | none ↦ none
    | some cs ↦ elim (find_results (cutoff_of days now) d) [
      | none ↦ none
      | some rs ↦ elim (find_state d) [ none ↦ none | some m ↦ some (assembled cs rs m) ]
    ]
  ]

  -- The mirror with `retentionDays`, while the clock shows a time.
  abbrev pub mongo_mirror : ℤ → Time → Mirror F
  mongo_mirror days now = record {
    D = D;
    sync_state = sync_state days now;
    read_state = read_state days now;
  }
