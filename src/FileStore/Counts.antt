-- ===== src/FileStore/Counts.antt =====
-- What the summary of backend/internal/monitoring/service.go says of the checks and their results.
use healthops.Prelude.{
  ◌+◌, String, List, [], ◌∷◌, ◌++◌, ◌≡◌, refl, arith, map, if◌then◌else◌, length, length-append,
  str_eq, text_or, sym, ap, ◌∙◌, inl, inr, Bool-cases,
}
use mathlib.Core.List.{append-nil, append_assoc}
use healthops.Prelude.Maps.{Map, lookup, insert, lookup-insert}
use healthops.Types.{Time, CheckConfig, CheckResult}
use healthops.FileStore.Summary.{
  StatusCount, Summary, count_or_none, add_group_count, accumulate_count, no_result, or_result,
  latest_by_id, result_of, add_check, add_checks, empty_summary, build_summary,
}
use healthops.FileStore.Tally.{
  tally, Adds, statuses_apart, Adds-refl, Adds-trans, of_Adds, add_group_count-Adds, sum_of,
  length-map,
}

module _ {F : Type 0} where
  -- The last result of a check, or what stands for it.
  abbrev pub last_result : CheckResult F → String → List (CheckResult F) → CheckResult F
  last_result r id [] = r
  last_result r id (x ∷ xs) = last_result (if str_eq x.check_id id then x else r) id xs

  lookup-latest_by_id :
      (r : CheckResult F) (id : String) (rs : List (CheckResult F)) (m : Map (CheckResult F))
      → or_result r (lookup id (latest_by_id rs m)) ≡ last_result (or_result r (lookup id m)) id rs
  unfolding latest_by_id
  lookup-latest_by_id r id [] m = refl
  lookup-latest_by_id r id (x ∷ xs) m =
      rw (lookup-latest_by_id r id xs (insert x.check_id x m), lookup-insert x.check_id id x m)
        (elim (Bool-cases (str_eq x.check_id id)) [
          | inl same ↦ rw same refl
          | inr differs ↦ rw differs refl
        ])

  latest-add_checks :
      (m : Map (CheckResult F)) (cs : List CheckConfig) (s : Summary F)
      → (add_checks m cs s).latest ≡ s.latest ++ map (result_of m) cs
  unfolding add_checks add_check
  latest-add_checks m [] s = sym (append-nil s.latest)
  latest-add_checks m (c ∷ cs) s =
      rw (latest-add_checks m cs (add_check m c s))
        (append_assoc s.latest (result_of m c ∷ []) (map (result_of m) cs))

  -- The counts of a summary as a whole, and those of one server or application.
  abbrev pub whole : Summary F → StatusCount
  whole s = record {
    total = length s.latest;
    healthy = s.healthy;
    warning = s.warning;
    critical = s.critical;
    unknown = s.unknown;
  }

  abbrev statuses : Map (CheckResult F) → List CheckConfig → List String
  statuses m cs = map (λ r. r.status) (map (result_of m) cs)

  whole-add_check :
      (m : Map (CheckResult F)) (c : CheckConfig) (s : Summary F)
      → Adds (whole s) ((result_of m c).status ∷ []) (whole (add_check m c s))
  unfolding add_check accumulate_count
  whole-add_check m c s =
      ground
        (arith, statuses_apart (result_of m c).status, length-append s.latest (result_of m c ∷ []))

  whole-add_checks :
      (m : Map (CheckResult F)) (cs : List CheckConfig) (s : Summary F)
      → Adds (whole s) (statuses m cs) (whole (add_checks m cs s))
  unfolding add_checks
  whole-add_checks m [] s = ground arith
  whole-add_checks m (c ∷ cs) s =
      Adds-trans (whole s) (whole (add_check m c s)) (whole (add_checks m cs (add_check m c s)))
        ((result_of m c).status ∷ []) (statuses m cs) (whole-add_check m c s)
        (whole-add_checks m cs (add_check m c s))

  -- The last result of the check, or the one that says that it has not run.
  abbrev pub result_in : List (CheckResult F) → CheckConfig → CheckResult F
  result_in rs c = last_result (no_result c) c.id rs

  result_of-latest : (rs : List (CheckResult F)) → result_of (latest_by_id rs []) ≡ result_in rs
  unfolding lookup
  result_of-latest rs = λ i c. lookup-latest_by_id (no_result c) c.id rs [] i

  -- A loop that counts the checks by a name that each has.
  unfoldable add_groups :
      (CheckConfig → String)
      → Map (CheckResult F)
      → List CheckConfig
      → Map StatusCount
      → Map StatusCount
  add_groups group m [] groups = groups
  add_groups group m (c ∷ cs) groups =
      add_groups group m cs (add_group_count (group c) (result_of m c).status groups)

  -- The statuses of the checks whose group has the name.
  abbrev pub group_statuses :
      (CheckConfig → String)
      → String
      → (CheckConfig → CheckResult F)
      → List CheckConfig
      → List String
  group_statuses group k f [] = []
  group_statuses group k f (c ∷ cs) =
      (if str_eq (text_or (group c) "default") k then (f c).status ∷ [] else [])
      ++ group_statuses group k f cs

  add_groups-Adds :
      (group : CheckConfig → String) (k : String) (m : Map (CheckResult F)) (cs : List CheckConfig)
      (groups : Map StatusCount)
      → Adds
          (count_or_none (lookup k groups))
          (group_statuses group k (result_of m) cs)
          (count_or_none (lookup k (add_groups group m cs groups)))
  unfolding add_groups
  add_groups-Adds group k m [] groups = Adds-refl (count_or_none (lookup k groups))
  add_groups-Adds group k m (c ∷ cs) groups =
      let status = (result_of m c).status in
      let next = add_group_count (group c) status groups in
      Adds-trans (count_or_none (lookup k groups)) (count_or_none (lookup k next))
        (count_or_none (lookup k (add_groups group m cs next)))
        (if str_eq (text_or (group c) "default") k then status ∷ [] else [])
        (group_statuses group k (result_of m) cs) (add_group_count-Adds (group c) status k groups)
        (add_groups-Adds group k m cs next)

  accumulate_count-total :
      (r : CheckResult F) (s : Summary F) → (accumulate_count r s).total_checks ≡ s.total_checks
  unfolding accumulate_count
  accumulate_count-total r s = ground arith

  add_checks-groups :
      (m : Map (CheckResult F)) (cs : List CheckConfig) (s : Summary F)
      → ((add_checks m cs s).by_server ≡ add_groups (λ c. c.server) m cs s.by_server)
        × ((add_checks m cs s).by_application
            ≡ add_groups (λ c. c.application) m cs s.by_application)
        × ((add_checks m cs s).total_checks ≡ s.total_checks)
  unfolding add_checks add_groups add_check accumulate_count
  add_checks-groups m [] s = (refl, refl, refl)
  add_checks-groups m (c ∷ cs) s =
      let s' = add_check m c s in
      let later = add_checks-groups m cs s' in
      (later.0, later.1, omega (arith, later.2, accumulate_count-total (result_of m c) s))

  -- The summary's latest results are, check for check, the check's last result or, where it has
  -- none, the one that says that it has not run.
  build_summary-latest :
      (cs : List CheckConfig) (rs : List (CheckResult F)) (at : Time)
      → (build_summary cs rs at).latest ≡ map (result_in rs) cs
  unfolding build_summary
  build_summary-latest cs rs at =
      rw (← result_of-latest rs) (latest-add_checks (latest_by_id rs []) cs (empty_summary cs at))

  -- The summary's four numbers are the numbers of checks whose latest result is healthy, a warning,
  -- critical, and of another status; and their sum is the number of checks.
  build_summary-counts :
      (cs : List CheckConfig) (rs : List (CheckResult F)) (at : Time)
      → let s = build_summary cs rs at in
        (whole s ≡ tally (map (λ r. r.status) s.latest))
        × (s.healthy + s.warning + s.critical + s.unknown ≡ s.total_checks)
        × (s.total_checks ≡ length cs)
  unfolding build_summary
  build_summary-counts cs rs at =
      let m = latest_by_id rs [] in
      let s = add_checks m cs (empty_summary cs at) in
      let counted : whole s ≡ tally (map (λ r. r.status) s.latest) =
        of_Adds (statuses m cs) (whole s) (whole-add_checks m cs (empty_summary cs at))
        ∙ ap (λ rs'. tally (map (λ r. r.status) rs'))
            (sym (latest-add_checks m cs (empty_summary cs at))) in
      let total = (add_checks-groups m cs (empty_summary cs at)).2 in
      let sum : s.healthy + s.warning + s.critical + s.unknown ≡ length (statuses m cs) =
        sum_of (whole s) (statuses m cs)
          (of_Adds (statuses m cs) (whole s) (whole-add_checks m cs (empty_summary cs at))) in
      let many = length-map (λ r. r.status) (map (result_of m) cs) in
      (counted, omega (arith, sum, many, length-map (result_of m) cs, total), total)

  -- For every name, the summary's count of the server, and that of the application, of the name is
  -- that of the checks which have it, where a check that names none has the name default.
  build_summary-groups :
      (cs : List CheckConfig) (rs : List (CheckResult F)) (at : Time) (name : String)
      → let s = build_summary cs rs at in
        (count_or_none (lookup name s.by_server)
          ≡ tally (group_statuses (λ c. c.server) name (result_in rs) cs))
        × (count_or_none (lookup name s.by_application)
            ≡ tally (group_statuses (λ c. c.application) name (result_in rs) cs))
  unfolding build_summary lookup
  build_summary-groups cs rs at name =
      let m = latest_by_id rs [] in
      let groups = add_checks-groups m cs (empty_summary cs at) in
      rw (← result_of-latest rs, groups.0, groups.1)
        (
          of_Adds (group_statuses (λ c. c.server) name (result_of m) cs)
              (count_or_none (lookup name (add_groups (λ c. c.server) m cs [])))
              (add_groups-Adds (λ c. c.server) name m cs []),
          of_Adds (group_statuses (λ c. c.application) name (result_of m) cs)
              (count_or_none (lookup name (add_groups (λ c. c.application) m cs [])))
              (add_groups-Adds (λ c. c.application) name m cs []),
        )
