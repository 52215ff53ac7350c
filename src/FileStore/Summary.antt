-- ===== src/FileStore/Summary.antt =====
-- The summary of a state: buildSummary, accumulateCount, addGroupCount and filterResults of
-- backend/internal/monitoring/service.go. A `map` from identifiers that is only looked up, and a
-- `*time.Time` that is nil or zero, are a Map and an Option.
use healthops.Prelude.{
  ℕ, suc, ◌-◌, ◌*◌, String, false, not, ◌&&◌, ◌||◌, Option, none, some, List, [], ◌∷◌, ◌++◌,
  if◌then◌else◌, is_blank, text_or, str_eq, select, length, ℤ, pos, positive_or,
}
use healthops.Prelude.Maps.{Map, lookup, insert}
use healthops.Types.{Time, is_zero, before, day, is_enabled, CheckConfig, CheckResult}
use healthops.FileStore.Operations.{finished_or_started}

pub record StatusCount : Type 0 where
  pub total : ℕ
  pub healthy : ℕ
  pub warning : ℕ
  pub critical : ℕ
  pub unknown : ℕ

abbrev pub no_count : StatusCount
no_count = record { total = 0; healthy = 0; warning = 0; critical = 0; unknown = 0 }

pub record Summary (F : Type 0) : Type 0 where
  pub total_checks : ℕ
  pub enabled_checks : ℕ
  pub healthy : ℕ
  pub warning : ℕ
  pub critical : ℕ
  pub unknown : ℕ
  pub last_run_at : Option Time
  pub by_server : Map StatusCount
  pub by_application : Map StatusCount
  pub latest : List (CheckResult F)

-- The body of addGroupCount's switch, with the total.
abbrev pub add_status : String → StatusCount → StatusCount
add_status status c =
    let c' = record c { total = suc c.total } in
    if str_eq status "healthy"
    then record c' { healthy = suc c.healthy }
    else if str_eq status "warning"
    then record c' { warning = suc c.warning }
    else if str_eq status "critical"
    then record c' { critical = suc c.critical }
    else record c' { unknown = suc c.unknown }

abbrev pub count_or_none : Option StatusCount → StatusCount
count_or_none none = no_count
count_or_none (some c) = c

unfoldable pub add_group_count : String → String → Map StatusCount → Map StatusCount
add_group_count key status groups =
    let k = text_or key "default" in
    insert k (add_status status (count_or_none (lookup k groups))) groups

module _ {F : Type 0} where
  unfoldable pub accumulate_count : CheckResult F → Summary F → Summary F
  accumulate_count r s =
      if str_eq r.status "healthy"
      then record s { healthy = suc s.healthy }
      else if str_eq r.status "warning"
      then record s { warning = suc s.warning }
      else if str_eq r.status "critical"
      then record s { critical = suc s.critical }
      else record s { unknown = suc s.unknown }

  -- The result of a check without one.
  abbrev pub no_result : CheckConfig → CheckResult F
  no_result c = record {
    id = "";
    check_id = c.id;
    name = c.name;
    type = c.type;
    server = c.server;
    application = c.application;
    status = "unknown";
    healthy = false;
    message = "check has not run yet";
    duration_ms = pos 0;
    started_at = 0;
    finished_at = 0;
    metrics = [];
    tags = c.tags;
  }

  -- The loop that fills latestByID.
  unfoldable pub latest_by_id : List (CheckResult F) → Map (CheckResult F) → Map (CheckResult F)
  latest_by_id [] m = m
  latest_by_id (r ∷ rs) m = latest_by_id rs (insert r.check_id r m)

  abbrev pub or_result : CheckResult F → Option (CheckResult F) → CheckResult F
  or_result r none = r
  or_result r (some x) = x

  abbrev pub result_of : Map (CheckResult F) → CheckConfig → CheckResult F
  result_of m c = or_result (no_result c) (lookup c.id m)

  -- One round of the loop over the checks. `latest`, which the code sets at the end, grows with it.
  unfoldable pub add_check : Map (CheckResult F) → CheckConfig → Summary F → Summary F
  unfolding add_group_count accumulate_count
  add_check m c s =
      let r = result_of m c in
      let counted = accumulate_count r s in
      record counted {
        enabled_checks = if is_enabled c then suc s.enabled_checks else s.enabled_checks;
        by_server = add_group_count c.server r.status s.by_server;
        by_application = add_group_count c.application r.status s.by_application;
        latest = s.latest ++ r ∷ [];
      }

  unfoldable pub add_checks : Map (CheckResult F) → List CheckConfig → Summary F → Summary F
  unfolding add_check
  add_checks m [] s = s
  add_checks m (c ∷ cs) s = add_checks m cs (add_check m c s)

  abbrev pub empty_summary : List CheckConfig → Time → Summary F
  empty_summary checks last_run_at = record {
    total_checks = length checks;
    enabled_checks = 0;
    healthy = 0;
    warning = 0;
    critical = 0;
    unknown = 0;
    last_run_at = if is_zero last_run_at then none else some last_run_at;
    by_server = [];
    by_application = [];
    latest = [];
  }

  unfoldable pub build_summary : List CheckConfig → List (CheckResult F) → Time → Summary F
  unfolding add_checks latest_by_id
  build_summary checks results last_run_at =
      add_checks (latest_by_id results []) checks (empty_summary checks last_run_at)

  -- The results of the last days, 7 for none, and of one check where it is named.
  unfoldable pub filter_results : Time → List (CheckResult F) → String → ℤ → List (CheckResult F)
  filter_results now results check_id days =
      let cutoff = now - positive_or 7 days * day in
      select
        (λ r.
          (is_zero (finished_or_started r) || not (before (finished_or_started r) cutoff))
          && (is_blank check_id || str_eq r.check_id check_id))
        results
