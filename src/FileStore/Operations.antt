-- ===== src/FileStore/Operations.antt =====
-- FileStore of backend/internal/monitoring/store.go. A file is the state that it decodes to: what
-- was written without the fields that the tags of types.go and ssh_collector.go keep out of JSON,
-- the encrypted passwords. Each operation takes the time that it reads and whether its write, a rename of a whole
-- temporary file, succeeds. One call under the store's lock is one step. Copies of lists are the
-- lists.
use healthops.Prelude.{
  ◌-◌, ◌*◌, String, Bool, true, false, not, Option, none, some, List, [], ◌∷◌, ◌++◌, if◌then◌else◌,
  is_blank, str_eq, select, ◌||◌, ℤ, pos, negsuc, zero, suc, map,
}
use healthops.Blocks.{MysqlCheckConfig, SshCheckConfig, CheckRemediationConfig}
use healthops.Types.{Time, is_zero, before, day, CheckConfig, CheckResult}

pub record State (F : Type 0) : Type 0 where
  pub checks : List CheckConfig
  pub results : List (CheckResult F)
  pub last_run_at : Time
  pub updated_at : Time

-- What os.ReadFile and the decoder make of the file: no file, an error to read it, a text that does
-- not decode, or a state.
pub data Disk (F : Type 0) : Type 0 where
  missing unreadable garbled : Disk F
  holds : State F → Disk F

pub record FileStore (F : Type 0) : Type 0 where
  pub state : State F
  pub disk : Disk F

pub data Failure : Type 0 where
  path_required no_directory not_parsed not_written : Failure

-- What decoding an encoded check makes of it.
abbrev stored_mysql : Option MysqlCheckConfig → Option MysqlCheckConfig
stored_mysql none = none
stored_mysql (some b) = some (record b { password_enc = "" })

abbrev stored_ssh : Option SshCheckConfig → Option SshCheckConfig
stored_ssh none = none
stored_ssh (some b) = some (record b { password_enc = "" })

abbrev stored_remediation : Option CheckRemediationConfig → Option CheckRemediationConfig
stored_remediation none = none
stored_remediation (some r) = some (record r { ssh = stored_ssh r.ssh })

abbrev pub stored_check : CheckConfig → CheckConfig
stored_check c = record c {
  mysql = stored_mysql c.mysql;
  ssh = stored_ssh c.ssh;
  remediation = stored_remediation c.remediation;
}

pub data Opening (F : Type 0) : Type 0 where
  opened : FileStore F → Opening F
  refused : Failure → Opening F

-- The loop of UpsertCheck.
abbrev pub put_check : CheckConfig → List CheckConfig → List CheckConfig
put_check c [] = c ∷ []
put_check c (d ∷ ds) = if str_eq d.id c.id then c ∷ ds else d ∷ put_check c ds

module _ {F : Type 0} where
  abbrev pub empty_state : State F
  empty_state = record { checks = []; results = []; last_run_at = 0; updated_at = 0 }

  -- What decoding an encoded state makes of it.
  unfoldable pub stored : State F → State F
  stored s = record s { checks = map stored_check s.checks }

  abbrev seeded : List CheckConfig → Time → State F
  seeded checks now = record empty_state { checks = checks; updated_at = now }

  -- Writing the state that NewFileStore made.
  abbrev first_write : Bool → State F → Disk F → Opening F × Disk F
  first_write true s disk =
      (opened (record { state = s; disk = holds (stored s) }), holds (stored s))
  first_write false s disk = (refused not_written, disk)

  -- NewFileStore, with whether the directory could be made; and what is on the disk afterwards.
  unfoldable pub new_file_store :
      Bool → Bool → Time → String → List CheckConfig → Disk F → Opening F × Disk F
  new_file_store has_directory ok now path checks disk =
      if is_blank path
      then (refused path_required, disk)
      else if not has_directory
      then (refused no_directory, disk)
      else elim disk [
        | garbled ↦ (refused not_parsed, garbled)
        | missing ↦ first_write ok (seeded checks now) missing
        | unreadable ↦ first_write ok (seeded checks now) unreadable
        | holds s ↦ first_write ok (record s { updated_at = now }) (holds s)
      ]

  -- Update with a mutator that returns nil, and with whether it returned nil itself.
  unfoldable pub update : Bool → Time → (State F → State F) → FileStore F → FileStore F × Bool
  update ok now mutator f =
      let next = record (mutator f.state) { updated_at = now } in
      if ok then (record { state = next; disk = holds (stored next) }, true) else (f, false)

  unfoldable pub replace_checks : List CheckConfig → State F → State F
  replace_checks checks s = record s { checks = checks }

  unfoldable pub upsert_check : CheckConfig → State F → State F
  upsert_check c s = record s { checks = put_check c s.checks }

  unfoldable pub delete_check : String → State F → State F
  delete_check id s = record s { checks = select (λ c. not (str_eq c.id id)) s.checks }

  -- When a result counts as finished.
  abbrev pub finished_or_started : CheckResult F → Time
  finished_or_started r = if is_zero r.finished_at then r.started_at else r.finished_at

  abbrev pub is_retained : Time → CheckResult F → Bool
  is_retained cutoff r = is_zero (finished_or_started r) || before cutoff (finished_or_started r)

  -- sort.SliceStable by the time of the end: a result goes before the first that ended later.
  abbrev pub place : CheckResult F → List (CheckResult F) → List (CheckResult F)
  place r [] = r ∷ []
  place r (x ∷ xs) = if before x.finished_at r.finished_at then x ∷ place r xs else r ∷ x ∷ xs

  abbrev pub sort_by_end : List (CheckResult F) → List (CheckResult F)
  sort_by_end [] = []
  sort_by_end (r ∷ rs) = place r (sort_by_end rs)

  -- A time before the zero time, where all results are retained too, is the zero time here.
  unfoldable pub prune_results : Time → ℤ → List (CheckResult F) → List (CheckResult F)
  prune_results now (negsuc n) rs = rs
  prune_results now (pos zero) rs = rs
  prune_results now (pos (suc n)) rs = sort_by_end (select (is_retained (now - suc n * day)) rs)

  -- The mutator of AppendResults, with the time that pruneResults reads.
  unfoldable pub append_results : Time → List (CheckResult F) → ℤ → State F → State F
  unfolding prune_results
  append_results now rs retention_days s = record s {
    results = prune_results now retention_days (s.results ++ rs);
  }

  unfoldable pub set_last_run : Time → State F → State F
  set_last_run at s = record s { last_run_at = at }
