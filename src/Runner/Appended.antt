-- ===== src/Runner/Appended.antt =====
-- What a run of the checks leaves in the store, backend/internal/monitoring/runner.go.
use healthops.Prelude.{
  ℕ, suc, ◌+◌, ◌-◌, ◌*◌, not, String, Bool, true, false, ◌&&◌, List, [], ◌∷◌, ◌++◌, ◌≡◌, refl, ap,
  ◌∙◌, arith, map, select, count, count-append, is_nil, is_blank, str_eq, ℤ, pos, if◌then◌else◌,
  inl, inr, Bool-cases, Option, some, Option-cases,
}
use healthops.Types.{Time, day, is_enabled, CheckConfig, CheckResult}
use healthops.FileStore.Operations.{
  FileStore, is_retained, place, sort_by_end, update, append_results, prune_results, set_last_run,
}
use healthops.Runner.Once.{
  Execution, new_result, executed, healthy_if_blank, execute_check, persist_results, run_once,
}

-- The executors leave the result's check alone, and the workers lose and double no result.
pub record IsFaithful {F : Type 0} (x : Execution F) : Type 0 where
  pub keeps_check :
      (c : CheckConfig) (r r' : CheckResult F) (e : Option String)
      → x.execute c r ≡ some (r', e)
      → r'.check_id ≡ r.check_id
  pub keeps_results :
      (p : CheckResult F → Bool) (rs : List (CheckResult F)) → count p (x.order rs) ≡ count p rs

count-enabled :
    (id : String) (q : CheckConfig → Bool) (cs : List CheckConfig)
    → ((c : CheckConfig) → q c ≡ str_eq c.id id)
    → count q (select is_enabled cs) ≡ count (λ c. is_enabled c && str_eq c.id id) cs
count-enabled id q [] h = refl
count-enabled id q (c ∷ cs) h = ground (arith, h c, count-enabled id q cs h)

none_enabled :
    (id : String) (cs : List CheckConfig)
    → is_nil (select is_enabled cs) ≡ true
    → count (λ c. is_enabled c && str_eq c.id id) cs ≡ 0
none_enabled id [] h = refl
none_enabled id (c ∷ cs) h = ground (arith, none_enabled id cs)

module _ {F : Type 0} where
  healthy_if_blank-status : (r : CheckResult F) → is_blank (healthy_if_blank r).status ≡ false
  healthy_if_blank-status r = elim (Bool-cases (is_blank r.status)) [
    | inl blank ↦ rw blank refl
    | inr filled ↦ rw filled filled
  ]

  count-map :
      (p : CheckResult F → Bool) (run : CheckConfig → CheckResult F) (cs : List CheckConfig)
      → count p (map run cs) ≡ count (λ c. p (run c)) cs
  count-map p run [] = refl
  count-map p run (c ∷ cs) = ground (arith, count-map p run cs)

  count-place :
      (p : CheckResult F → Bool) (r : CheckResult F) (xs : List (CheckResult F))
      → count p (place r xs) ≡ count p (r ∷ xs)
  count-place p r [] = refl
  count-place p r (x ∷ xs) = ground (arith, count-place p r xs)

  count-sort_by_end :
      (p : CheckResult F → Bool) (xs : List (CheckResult F)) → count p (sort_by_end xs) ≡ count p xs
  count-sort_by_end p [] = refl
  count-sort_by_end p (x ∷ xs) =
      rw (count-place p x (sort_by_end xs)) (ground (arith, count-sort_by_end p xs))

  count-select :
      (p q : CheckResult F → Bool) (xs : List (CheckResult F))
      → count p (select q xs) ≡ count (λ x. q x && p x) xs
  count-select p q [] = refl
  count-select p q (x ∷ xs) = ground (arith, count-select p q xs)

  just_ended :
      (days : ℕ) (r : CheckResult F) → is_retained (r.finished_at - suc days * day) r ≡ true
  just_ended days r = ground arith

  unwritten :
      (second_write : Bool) (now finished : Time) (retention_days : ℤ) (rs : List (CheckResult F))
      (f : FileStore F)
      → (persist_results false second_write now retention_days rs finished f).0 ≡ f
  unfolding persist_results update
  unwritten second_write now finished retention_days rs f = refl

  set_last_run-results :
      (ok : Bool) (now finished : Time) (f : FileStore F)
      → (update ok now (set_last_run finished) f).0.state.results ≡ f.state.results
  unfolding update set_last_run
  set_last_run-results true now finished f = refl
  set_last_run-results false now finished f = refl

  persisted :
      (p : CheckResult F → Bool) (second_write : Bool) (now finished : Time) (days : ℕ)
      (rs : List (CheckResult F)) (f : FileStore F)
      → let kept : CheckResult F → Bool = λ r. is_retained (now - suc days * day) r && p r in
        count p
          (persist_results true second_write now (pos (suc days)) rs finished f).0.state.results
        ≡ count kept f.state.results + count kept rs
  unfolding persist_results update append_results prune_results
  persisted p second_write now finished days rs f =
      let recent : CheckResult F → Bool = is_retained (now - suc days * day) in
      ap (count p) (
        set_last_run-results second_write now finished
          (update true now (append_results now rs (pos (suc days))) f).0)
      ∙ count-sort_by_end p (select recent (f.state.results ++ rs))
      ∙ count-select p recent (f.state.results ++ rs)
      ∙ count-append (λ r. recent r && p r) f.state.results rs

module _ {F : Type 0} (x : Execution F) (started finished : Time) where
  -- No result is without a status.
  execute_check-status :
      (c : CheckConfig) → is_blank (execute_check x started finished c).status ≡ false
  unfolding execute_check new_result
  execute_check-status c =
      let r : CheckResult F = new_result started c in
      healthy_if_blank-status (executed x c r (x.execute c r))

  execute_check-check_id :
      (c : CheckConfig) → IsFaithful x → (execute_check x started finished c).check_id ≡ c.id
  unfolding execute_check new_result
  execute_check-check_id c faithful =
      let r : CheckResult F = new_result started c in
      elim (Option-cases (x.execute c r)) [
        | inl unknown ↦ ground (arith, unknown)
        | inr ((r', e), left) ↦ ground (arith, left, faithful.keeps_check c r r' e left)
      ]

  -- A result that has just ended is kept, however few days results are kept.
  execute_check-is_retained :
      (days : ℕ) (c : CheckConfig)
      → is_retained (finished - suc days * day) (execute_check x started finished c) ≡ true
  unfolding execute_check
  execute_check-is_retained days c = just_ended days (execute_check x started finished c)

  -- Where the executors leave the check of a result alone and the workers lose and double none: after
  -- a run that is not skipped, in a store that keeps results for a positive number of days, there are
  -- of each identifier the results from before that are not too old and one for each enabled check
  -- that has it, if they could be written, also where the time of the run could not. If they could
  -- not, or no check is enabled, the results are as they were.
  pub run_once-appends :
      (first second_write : Bool) (days : ℕ) (f : FileStore F) (id : String)
      → IsFaithful x
      → let old = f.state.results in
        let recent : CheckResult F → Bool = is_retained (finished - suc days * day) in
        count
          (λ r. str_eq r.check_id id)
          (run_once x false first second_write started finished (pos (suc days)) f).0.state.results
        ≡ (if first && not (is_nil (select is_enabled f.state.checks))
            then count (λ r. recent r && str_eq r.check_id id) old
              + count (λ c. is_enabled c && str_eq c.id id) f.state.checks
            else count (λ r. str_eq r.check_id id) old)
  unfolding run_once
  run_once-appends first second_write days f id faithful =
      let p : CheckResult F → Bool = λ r. str_eq r.check_id id in
      let q : CheckResult F → Bool = λ r. is_retained (finished - suc days * day) r && p r in
      let run = execute_check x started finished in
      let enabled = select is_enabled f.state.checks in
      let rs = x.order (map run enabled) in
      let gathered : count q rs ≡ count (λ c. is_enabled c && str_eq c.id id) f.state.checks =
        faithful.keeps_results q (map run enabled)
        ∙ count-map q run enabled
        ∙ count-enabled id (λ c. q (run c)) f.state.checks
            (λ c. rw (execute_check-is_retained days c, execute_check-check_id c faithful) refl) in
      elim (Bool-cases (is_nil enabled)) [
        | inl idle ↦ rw idle (
            ap (count p) (set_last_run-results first finished finished f)
            ∙ ground (arith, none_enabled id f.state.checks idle))
        | inr busy ↦ elim (Bool-cases first) [
          | inl written ↦
              rw (busy, written)
                (persisted p second_write finished finished days rs f
                  ∙ ap (λ n. count q f.state.results + n) gathered)
          | inr lost ↦
              rw (busy, lost)
                (ap (λ g. count p g.state.results)
                  (unwritten second_write finished finished (pos (suc days)) rs f))
        ]
      ]
