-- ===== src/Incidents/Lifecycle.antt =====
-- What each operation of incident_manager.go does on its branches.
use Prim.Native.Nat.{max}
use healthops.Prelude.{
  ℕ, ◌/◌, String, false, Option, none, some, ◌≡◌, ◌≢◌, sym, arith, str_eq, str_eq_iff, str_eq_refl,
  ◌∙◌, Option-cases, inl, inr, if◌then◌else◌,
}
use healthops.Prelude.Maps.{
  lookup, insert, lookup-insert, count_values, count_values-insert_old, find_value-of_zero,
  find_value-holds, find_value-insert_new, find_value-insert_skip,
}
use healthops.Types.{Time, second, Status, Incident}
use healthops.Incidents.Repo.{incident_exists, create, update, find_open, is_open_for}
use healthops.Incidents.Manager.{
  incident_created, Report, Manager, emit, generate_incident_id, severity_level,
  severity_has_increased, new_incident, alert_mutator, create_incident, update_incident,
  process_alert, resolve_mutator, auto_resolve_on_recovery,
}
use healthops.Incidents.Invariant.{Inv, find_open-stored}

-- An unknown severity ranks below a warning.
abbrev pub rank : Option ℕ → ℕ
rank none = 0
rank (some n) = n

-- A further alert takes the incident's severity to the higher of the two, with an unknown severity
-- below `warning` and `warning` below `critical`.
alert_mutator-severity :
    (now : Time) (a : Report) (i : Incident)
    → rank (severity_level (alert_mutator now a i).severity)
      ≡ max (rank (severity_level i.severity)) (rank (severity_level a.severity))
unfolding alert_mutator severity_has_increased
alert_mutator-severity now a i = ground arith

-- With no open incident for the check and no incident under the new identifier, an alert opens
-- one: there is no error, the incident is the check's open one, and the callback, if set, gets it.
pub process_alert_opens :
    (now : Time) (a : Report) (m : Manager)
    → find_open a.check_id m.repo ≡ none
    → lookup (generate_incident_id a.check_id now) m.repo.incidents ≡ none
    → let (m', e) = process_alert now a m in
      (e ≡ none)
      × (find_open a.check_id m'.repo ≡ some (new_incident now a))
      × (m'.events ≡ emit m.on_incident_created (incident_created (new_incident now a)) m.events)
unfolding process_alert create_incident create find_open new_incident
process_alert_opens now a m free fresh = ground (
  arith,
  str_eq_refl a.check_id,
  find_value-insert_new (is_open_for a.check_id) (generate_incident_id a.check_id now)
      (new_incident now a) m.repo.incidents,
)

-- Where the repository's invariant holds and the check has an open incident, an alert is no error,
-- calls nobody back, and rewrites that incident alone: its severity, message, metadata and time of
-- change.
process_alert_updates :
    (now : Time) (a : Report) (m : Manager) {i : Incident} (id : String)
    → Inv m.repo
    → find_open a.check_id m.repo ≡ some i
    → let (m', e) = process_alert now a m in
      (e ≡ none)
      × (m'.events ≡ m.events)
      × (lookup id m'.repo.incidents
          ≡ (if str_eq i.id id then some (alert_mutator now a i) else lookup id m.repo.incidents))
unfolding process_alert update_incident update
process_alert_updates now a m {i} id v found =
    let (at, named) = find_open-stored a.check_id m.repo v found in
    ground (arith, lookup-insert i.id id (alert_mutator now a i) m.repo.incidents)

module _ (now : Time) (check_id : String) (m : Manager) (v : Inv m.repo) where
  -- The incident after its check recovered.
  abbrev pub closed : Incident → Incident
  closed i = record i {
    status = Status.resolved;
    resolved_at = some now;
    resolved_by = "system";
    updated_at = now;
  }

  auto_resolve-incidents :
      {i : Incident}
      → find_open check_id m.repo ≡ some i
      → ((auto_resolve_on_recovery now check_id m).1 ≡ none)
        × ((auto_resolve_on_recovery now check_id m).0.repo.incidents
            ≡ insert i.id (closed i) m.repo.incidents)
  unfolding auto_resolve_on_recovery update resolve_mutator find_open
  auto_resolve-incidents {i} found =
      let (at, named) = find_open-stored check_id m.repo v found in
      ground (arith, find_value-holds (is_open_for check_id) m.repo.incidents {v = i})

  -- Where the repository's invariant holds and a check has an open incident, the check's recovery
  -- is no error, and afterwards the check has no open incident: the one that was open is kept,
  -- resolved by the system.
  pub auto_resolve_closes :
      {i : Incident}
      → find_open check_id m.repo ≡ some i
      → let (m', e) = auto_resolve_on_recovery now check_id m in
        (e ≡ none)
        × (find_open check_id m'.repo ≡ none)
        × (lookup i.id m'.repo.incidents ≡ some (closed i))
  unfolding find_open
  auto_resolve_closes {i} found =
      let (at, named) = find_open-stored check_id m.repo v found in
      let (fine, now_stored) = auto_resolve-incidents found in
      let live = find_value-holds (is_open_for check_id) m.repo.incidents {v = i} found in
      let none_left : count_values (is_open_for check_id) (insert i.id (closed i) m.repo.incidents)
          ≡ 0 =
        ground (
          arith,
          live,
          v.single check_id,
          count_values-insert_old (is_open_for check_id) i.id i (closed i) m.repo.incidents,
        ) in
      (
        fine,
        rw now_stored (find_value-of_zero (is_open_for check_id) _ none_left),
        rw now_stored
            (ground (arith, lookup-insert i.id i.id (closed i) m.repo.incidents, str_eq_refl i.id)),
      )

  pub find_open-none :
      find_open check_id m.repo ≡ none → (auto_resolve_on_recovery now check_id m).0 ≡ m
  unfolding auto_resolve_on_recovery
  find_open-none free = ground arith

  -- Where the repository's invariant holds, the recovery of a check leaves the open incident of
  -- every other check as it was.
  auto_resolve_other :
      (other_id : String)
      → check_id ≢ other_id
      → find_open other_id (auto_resolve_on_recovery now check_id m).0.repo
        ≡ find_open other_id m.repo
  unfolding find_open
  auto_resolve_other other_id ne = elim (Option-cases (find_open check_id m.repo)) [
    | inl free ↦ rw (find_open-none free)
    | inr (i, found) ↦
        let (at, named) = find_open-stored check_id m.repo v found in
        let (fine, now_stored) = auto_resolve-incidents found in
        let live = find_value-holds (is_open_for check_id) m.repo.incidents {v = i} found in
        let not_other : is_open_for other_id i ≡ false =
          ground (arith, live, str_eq_iff i.check_id check_id, str_eq_iff i.check_id other_id) in
        rw now_stored (
          find_value-insert_skip (is_open_for other_id) i.id i (closed i) m.repo.incidents at
            not_other (ground arith))
  ]

pub create_incident_exists :
    (now : Time) (a : Report) (m : Manager) {i : Incident}
    → lookup (generate_incident_id a.check_id now) m.repo.incidents ≡ some i
    → create_incident now a m ≡ (m, some incident_exists)
unfolding create_incident create new_incident
create_incident_exists now a m h = ground arith

same_second :
    (check_id : String) (t u : Time)
    → t / second ≡ u / second
    → generate_incident_id check_id t ≡ generate_incident_id check_id u
unfolding generate_incident_id
same_second check_id t u h = rw h

-- Identifiers have a resolution of one second. Where the repository's invariant holds and a check
-- has an open incident with the identifier of the second it was opened in, an alert that comes
-- after the check's recovery but within that second is an error: no incident is opened and nobody
-- is called back.
process_alert_collides :
    (opened closed_at now : Time) (a : Report) (m : Manager) {i : Incident}
    → Inv m.repo
    → find_open a.check_id m.repo ≡ some i
    → i.id ≡ generate_incident_id a.check_id opened
    → now / second ≡ opened / second
    → let m' = (auto_resolve_on_recovery closed_at a.check_id m).0 in
      process_alert now a m' ≡ (m', some incident_exists)
unfolding process_alert
process_alert_collides opened closed_at now a m {i} v found named same =
    let (fine, free, kept) = auto_resolve_closes closed_at a.check_id m v found in
    let id_same : i.id ≡ generate_incident_id a.check_id now =
      named ∙ sym (same_second a.check_id now opened same) in
    rw (free, process_alert)
      (create_incident_exists now a (auto_resolve_on_recovery closed_at a.check_id m).0
        {i = closed closed_at a.check_id m v i} (rw (← id_same) kept))
