-- ===== src/Incidents/Opened.antt =====
-- The open incident of a check after an alert and after its resolution, incident_manager.go.
use healthops.Prelude.{String, none, some, ◌≡◌, ◌∙◌, ap, sym, arith, inl, inr, Option-cases}
use healthops.Prelude.Maps.{
  lookup, insert, count_values, count_values-insert_old, find_value-of_zero, find_value-holds,
  find_value-insert_first,
}
use healthops.Types.{Time, Incident, Status}
use healthops.Incidents.Repo.{incident_exists, update, find_open, is_open_for}
use healthops.Incidents.Manager.{
  Report, Manager, generate_incident_id, new_incident, alert_mutator, update_incident,
  create_incident, process_alert, resolve_mutator, resolve_incident,
}
use healthops.Incidents.Invariant.{key, Inv, find_open-stored}
use healthops.Incidents.Lifecycle.{process_alert_opens, create_incident_exists}
use healthops.Incidents.Traces.{resolve_incident-repo}

pub process_alert-found :
    (now : Time) (a : Report) (m : Manager) {i : Incident}
    → Inv m.repo
    → find_open a.check_id m.repo ≡ some i
    → ((process_alert now a m).1 ≡ none)
      × (find_open a.check_id (process_alert now a m).0.repo ≡ some (alert_mutator now a i))
unfolding process_alert update_incident update find_open alert_mutator
process_alert-found now a m {i} v found =
    let (at, named) = find_open-stored a.check_id m.repo v found in
    ground (
      arith,
      find_value-holds (is_open_for a.check_id) m.repo.incidents {v = i} found,
      find_value-insert_first (is_open_for a.check_id) key i (alert_mutator now a i)
          m.repo.incidents v.keyed found at,
    )

pub resolve_incident-closes :
    (now : Time) (check_id by : String) (m : Manager) {i : Incident}
    → Inv m.repo
    → find_open check_id m.repo ≡ some i
    → find_open check_id (resolve_incident now i.id by m).0.repo ≡ none
unfolding update resolve_mutator find_open
resolve_incident-closes now check_id by m {i} v found =
    let (at, named) = find_open-stored check_id m.repo v found in
    let live = find_value-holds (is_open_for check_id) m.repo.incidents {v = i} found in
    let closed : Incident = record i {
      status = Status.resolved;
      resolved_at = some now;
      resolved_by = by;
      updated_at = now;
    } in
    let left : count_values (is_open_for check_id) (insert i.id closed m.repo.incidents) ≡ 0 =
      ground (
        arith,
        live,
        v.single check_id,
        count_values-insert_old (is_open_for check_id) i.id i closed m.repo.incidents,
      ) in
    ground (
      arith,
      live,
      resolve_incident-repo m v now i.id by,
      find_value-of_zero (is_open_for check_id) (insert i.id closed m.repo.incidents) left,
    )

process_alert-free :
    (now : Time) (a : Report) (m : Manager)
    → find_open a.check_id m.repo ≡ none
    → process_alert now a m ≡ create_incident now a m
unfolding process_alert
process_alert-free now a m free = rw (free, process_alert)

pub process_alert-open :
    (now : Time) (a : Report) (m : Manager)
    → Inv m.repo
    → (process_alert now a m).1 ≡ none
    → (i : Incident) × (find_open a.check_id (process_alert now a m).0.repo ≡ some i)
process_alert-open now a m v fine = elim (Option-cases (find_open a.check_id m.repo)) [
  | inr (i, found) ↦ (alert_mutator now a i, (process_alert-found now a m v found).1)
  | inl free ↦ elim (Option-cases (lookup (generate_incident_id a.check_id now) m.repo.incidents)) [
    | inl fresh ↦
        let (opened, found, told) = process_alert_opens now a m free fresh in
        (new_incident now a, found)
    | inr (i, taken) ↦
        let clash : none ≡ some incident_exists =
          sym fine
          ∙ ap (λ p. p.1) (process_alert-free now a m free)
          ∙ ap (λ p. p.1) (create_incident_exists now a m taken) in
        cc
  ]
]
