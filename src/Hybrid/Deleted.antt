-- ===== src/Hybrid/Deleted.antt =====
-- What DeleteCheck of backend/internal/monitoring/hybrid_store.go does to the MongoMirror of mongo.go.
use healthops.Prelude.{
  String, Bool, true, false, not, ◌||◌, Option, none, some, List, [], ◌∷◌, ℤ, ◌≡◌, refl, arith, ap,
  ◌∙◌, inl, inr, Option-cases, Bool-cases, str_eq, select, is_none, is_blank,
}
use healthops.Types.{Time, CheckConfig, CheckResult}
use healthops.FileStore.Operations.{State, FileStore, update, delete_check}
use healthops.FileStore.Reopen.{Call, deleting, apply}
use healthops.Hybrid.Operations.{
  HybridStore, is_empty_state, read_of, snapshot, synced, sync_to_mongo, finish, call,
}
use healthops.Hybrid.Mongo.{
  Driver, and_then, cutoff_of, upsert_checks, replace_results, delete_old, upsert_results,
  sync_state, read_state, mongo_mirror,
}

abbrev pub has_id : String → List CheckConfig → Bool
has_id id [] = false
has_id id (c ∷ cs) = str_eq c.id id || has_id id cs

select-has_id :
    (id : String) (cs : List CheckConfig)
    → has_id id (select (λ c. not (str_eq c.id id)) cs) ≡ false
select-has_id id [] = refl
select-has_id id (c ∷ cs) = ground (arith, select-has_id id cs)

module _ {F : Type 0} (db : Driver F) (documents : db.D → List CheckConfig) where
  open db use {
    D, replace_check, replace_result, delete_results, replace_state, replace_dashboard, find_checks,
  }

  -- What the calls of the driver do to the documents of the checks: a replacement takes no identifier
  -- away, the calls on the other collections change none of them, and Find gives them all.
  pub record IsDriver : Type 0 where
    pub keeps :
        (id : String) (c : CheckConfig) (d : D)
        → has_id id (documents d) ≡ true
        → has_id id (documents (replace_check c d).0) ≡ true
    pub apart_result : (r : CheckResult F) (d : D) → documents (replace_result r d).0 ≡ documents d
    pub apart_results : (t : Time) (d : D) → documents (delete_results t d).0 ≡ documents d
    pub apart_state : (s : State F) (d : D) → documents (replace_state s d).0 ≡ documents d
    pub apart_dashboard : (s : State F) (d : D) → documents (replace_dashboard s d).0 ≡ documents d
    pub finds : (d : D) (cs : List CheckConfig) → find_checks d ≡ some cs → cs ≡ documents d

  module _ (laws : IsDriver) (id : String) where
    abbrev Has : D → Type 0
    Has d = has_id id (documents d) ≡ true

    and_then-Has :
        (r : D × Bool) (next : D → D × Bool)
        → Has r.0
        → ((d : D) → Has d → Has (next d).0)
        → Has (and_then r next).0
    and_then-Has (d, true) next h k = k d h
    and_then-Has (d, false) next h k = h

    upsert_checks-Has : (cs : List CheckConfig) (d : D) → Has d → Has (upsert_checks db cs d).0
    unfolding upsert_checks
    upsert_checks-Has [] d h = h
    upsert_checks-Has (c ∷ cs) d h = elim (Bool-cases (is_blank c.id)) [
      | inl blank ↦ rw (blank, upsert_checks) (upsert_checks-Has cs d h)
      | inr set ↦
          rw (set, upsert_checks)
            (and_then-Has (replace_check c d) (λ d'. upsert_checks db cs d') (laws.keeps id c d h)
              (λ d' k. upsert_checks-Has cs d' k))
    ]

    same-Has : {d e : D} → documents e ≡ documents d → Has d → Has e
    same-Has {d} {e} same h = ap (has_id id) same ∙ h

    replace_results-Has :
        (rs : List (CheckResult F)) (d : D) → Has d → Has (replace_results db rs d).0
    unfolding replace_results
    replace_results-Has [] d h = h
    replace_results-Has (r ∷ rs) d h = elim (Bool-cases (is_blank r.id)) [
      | inl blank ↦ rw (blank, replace_results) (replace_results-Has rs d h)
      | inr set ↦
          rw (set, replace_results)
            (and_then-Has (replace_result r d) (λ d'. replace_results db rs d')
              (same-Has (laws.apart_result r d) h) (λ d' k. replace_results-Has rs d' k))
    ]

    delete_old-Has : (o : Option Time) (d : D) → Has d → Has (delete_old db o d).0
    delete_old-Has none d h = h
    delete_old-Has (some t) d h = ground (arith, h, laws.apart_results t d)

    -- A synchronisation takes no check out of the database.
    sync_state-Has :
        (days : ℤ) (now : Time) (s : State F) (d : D) → Has d → Has (sync_state db days now s d).0
    unfolding sync_state upsert_results
    sync_state-Has days now s d h =
        and_then-Has (upsert_checks db s.checks d) _ (upsert_checks-Has s.checks d h) (λ d1 h1.
          and_then-Has (upsert_results db days now s.results d1) _
            (and_then-Has (replace_results db s.results d1) (delete_old db (cutoff_of days now))
              (replace_results-Has s.results d1 h1) (delete_old-Has (cutoff_of days now)))
            (λ d2 h2.
              and_then-Has (replace_state s d2) _ (same-Has (laws.apart_state s d2) h2)
                (λ d3 h3. same-Has (laws.apart_dashboard s d3) h3)))

    abbrev pub kept_in : Option D → Bool
    kept_in none = false
    kept_in (some d) = has_id id (documents d)

    module _ (days : ℤ) where
      synced-kept_in :
          (now : Time) (h : HybridStore F D) (o : Option D)
          → kept_in o ≡ true
          → kept_in (synced (mongo_mirror db days now) h o).0.mirror ≡ true
      synced-kept_in now h none k = ground (arith, k)
      synced-kept_in now h (some d) k = sync_state-Has days now h.local.state d k

      finish-kept_in :
          (now : Time) (r : FileStore F × Bool) (h : HybridStore F D)
          → kept_in h.mirror ≡ true
          → kept_in (finish (mongo_mirror db days now) r h).0.mirror ≡ true
      unfolding sync_to_mongo
      finish-kept_in now (f, true) h k = synced-kept_in now (record h { local = f }) h.mirror k
      finish-kept_in now (f, false) h k = k

      call-kept_in :
          (now : Time) (c : Call F) (h : HybridStore F D)
          → kept_in h.mirror ≡ true
          → kept_in (call (mongo_mirror db days now) c h).0.mirror ≡ true
      unfolding call
      call-kept_in now c h k =
          finish-kept_in now (update c.is_written c.now (apply c.change) h.local) h k

      -- Calls, each with the time that its synchronisation reads.
      abbrev pub run_calls : List (Call F × Time) → HybridStore F D → HybridStore F D
      run_calls [] h = h
      run_calls ((c, now) ∷ cs) h = run_calls cs (call (mongo_mirror db days now) c h).0

      run_calls-kept_in :
          (cs : List (Call F × Time)) (h : HybridStore F D)
          → kept_in h.mirror ≡ true
          → kept_in (run_calls cs h).mirror ≡ true
      run_calls-kept_in [] h k = k
      run_calls-kept_in ((c, now) ∷ cs) h k =
          run_calls-kept_in cs (call (mongo_mirror db days now) c h).0 (call-kept_in now c h k)

      read_state-has_id :
          (now : Time) (d : D) (t : State F)
          → Has d
          → read_state db days now d ≡ some t
          → has_id id t.checks ≡ true
      unfolding read_state
      read_state-has_id now d t h e = elim (Option-cases (find_checks d)) [
        | inl failed ↦ ground (arith, failed, e)
        | inr (cs, found) ↦ ground (arith, found, e, h, laws.finds d cs found)
      ]

      not_empty : (t : State F) → has_id id t.checks ≡ true → is_empty_state t ≡ false
      unfolding is_empty_state
      not_empty t h = ground (arith, h)

      abbrev pub is_readable : Time → Option D → Bool
      is_readable now none = false
      is_readable now (some d) = not (is_none (read_state db days now d))

      read_of-has_id :
          (now : Time) (s : State F) (o : Option D)
          → kept_in o ≡ true
          → is_readable now o ≡ true
          → has_id id (read_of (mongo_mirror db days now) s o false).checks ≡ true
      read_of-has_id now s none k r = ground (arith, k)
      read_of-has_id now s (some d) k r = elim (Option-cases (read_state db days now d)) [
        | inl failed ↦ ground (arith, failed, r)
        | inr (t, found) ↦
            let there = read_state-has_id now d t k found in
            ground (arith, found, there, not_empty t there)
      ]

      abbrev pub delete_at : Time → Call F
      delete_at at = record { change = deleting id; now = at; is_written = true }

      -- The store after some calls and a DeleteCheck whose write succeeds.
      abbrev pub deleted_after :
          List (Call F × Time) → Time → Time → HybridStore F D → HybridStore F D
      deleted_after cs at now h =
          (call (mongo_mirror db days now) (delete_at at) (run_calls cs h)).0

      finish-local :
          (now : Time) (r : FileStore F × Bool) (h : HybridStore F D)
          → r.1 ≡ true
          → (finish (mongo_mirror db days now) r h).0.local ≡ r.0
      unfolding sync_to_mongo
      finish-local now (f, true) h e = elim (Option-cases h.mirror) [
        | inl off ↦ rw off refl
        | inr (d, on) ↦ rw on refl
      ]
      finish-local now (f, false) h e = cc

      deleted_after-local :
          (cs : List (Call F × Time)) (at now : Time) (h : HybridStore F D)
          → has_id id (deleted_after cs at now h).local.state.checks ≡ false
      unfolding call apply update delete_check
      deleted_after-local cs at now h =
          let g = run_calls cs h in
          ap (λ (f : FileStore F). has_id id f.state.checks)
            (finish-local now (update true at (apply (deleting id)) g.local) g refl)
          ∙ select-has_id id g.local.state.checks

      -- Where a check was once in the database, a DeleteCheck whose write succeeds takes it out of the
      -- file and the memory of the store, after any calls; but as long as the database is taken to be
      -- there and can be read, Snapshot answers with a check of that identifier, since a
      -- synchronisation deletes none. This is so if a replacement of a document takes no identifier
      -- away, writes to other collections leave the checks alone, and Find gives all of them.
      pub delete_check-comes_back :
          (cs : List (Call F × Time)) (at now later : Time) (h : HybridStore F D)
          → kept_in h.mirror ≡ true
          → (deleted_after cs at now h).mongo_down ≡ false
          → is_readable later (deleted_after cs at now h).mirror ≡ true
          → (has_id id (deleted_after cs at now h).local.state.checks ≡ false)
            × (has_id id (snapshot (mongo_mirror db days later) (deleted_after cs at now h)).checks
                ≡ true)
      unfolding snapshot
      delete_check-comes_back cs at now later h k up readable =
          let h' = deleted_after cs at now h in
          let k' = call-kept_in now (delete_at at) (run_calls cs h) (run_calls-kept_in cs h k) in
          (
            deleted_after-local cs at now h,
            rw up (read_of-has_id later h'.local.state h'.mirror k' readable),
          )
