-- ===== src/Incidents/Final.antt =====
-- A resolved incident of incident_manager.go is final.
use healthops.Prelude.{
  String, Bool, true, false, some, List, [], ◌∷◌, ◌≡◌, ◌≢◌, inl, inr, arith, str_eq_iff,
  Option-cases, if◌then◌else◌,
}
use healthops.Prelude.Maps.{lookup, lookup-insert, find_value-holds}
use healthops.Types.{Time, Incident, is_resolved}
use healthops.Incidents.Repo.{
  Result, ok, Result-cases, Repo, create, update, find_open, is_open_for,
}
use healthops.Incidents.Manager.{
  Report, Manager, new_incident, create_incident, process_alert, acknowledge_mutator,
  acknowledge_incident, resolve_mutator, resolve_incident, auto_resolve_on_recovery, stored,
}
use healthops.Incidents.Invariant.{Inv, update-inv, find_open-stored}
use healthops.Incidents.Traces.{
  Op, alert, acknowledge, resolve, recover, prune, apply, run, apply-Inv, resolve_incident-repo,
}

abbrev pub is_prune : Op → Bool
is_prune (prune cutoff) = true
is_prune (alert now a) = false
is_prune (acknowledge now id by) = false
is_prune (resolve now id by) = false
is_prune (recover now check_id) = false

abbrev pub no_prune : List Op → Bool
no_prune [] = true
no_prune (o ∷ os) = if is_prune o then false else no_prune os

no_prune-cons :
    (o : Op) (os : List Op) → no_prune (o ∷ os) ≡ true → (is_prune o ≡ false) × (no_prune os ≡ true)
no_prune-cons o os h = ground arith

module _ (id : String) (i : Incident) where
  abbrev Holds : Repo → Type 0
  Holds r = lookup id r.incidents ≡ some i

  module _ (m : Manager) (at : Holds m.repo) where
    -- An update leaves the incident in place if it is of another one or is refused.
    stored-Holds :
        (key : String) (f : Incident → Result Incident)
        → ((x : Incident) → key ≡ id → f i ≢ ok x)
        → Holds (stored m (update key f m.repo)).0.repo
    stored-Holds key f refuses = elim (Result-cases (update key f m.repo)) [
      | inr (x, e) ↦ rw e at
      | inl (r, e) ↦
          let (j, j', found, made, same) = update-inv key f m.repo e in
          rw (e, same)
            (ground (
              arith,
              lookup-insert key id j' m.repo.incidents,
              str_eq_iff key id,
              made,
              found,
              refuses j',
            ))
    ]

    create_incident-Holds : (now : Time) (a : Report) → Holds (create_incident now a m).0.repo
    unfolding create_incident create
    create_incident-Holds now a = ground (
      arith,
      lookup-insert (new_incident now a).id id (new_incident now a) m.repo.incidents,
      str_eq_iff (new_incident now a).id id,
    )

    module _ (v : Inv m.repo) (final : is_resolved i.status ≡ true) where
      -- The incident that is found open is another one.
      open-other :
          (check_id : String) {j : Incident} → find_open check_id m.repo ≡ some j → j.id ≢ id
      unfolding find_open
      open-other check_id {j} found e =
          let (stored_at, named) = find_open-stored check_id m.repo v found in
          let live = find_value-holds (is_open_for check_id) m.repo.incidents {v = j} found in
          ground (arith, live, stored_at, at, e)

      resolve-Holds : (now : Time) (key by : String) → Holds (resolve_incident now key by m).0.repo
      resolve-Holds now key by = rw (resolve_incident-repo m v now key by) (
          stored-Holds key (resolve_mutator now by) (λ x e. unfold resolve_mutator in ground arith))

      alert-Holds : (now : Time) (a : Report) → Holds (process_alert now a m).0.repo
      unfolding process_alert
      alert-Holds now a = elim (Option-cases (find_open a.check_id m.repo)) [
        | inl free ↦ rw (free, process_alert) (create_incident-Holds now a)
        | inr (j, found) ↦
            let (stored_at, named) = find_open-stored a.check_id m.repo v found in
            rw (found, process_alert)
              (rw named (stored-Holds j.id _ (λ x e. absurd (open-other a.check_id found e))))
      ]

      recover-Holds :
          (now : Time) (check_id : String) → Holds (auto_resolve_on_recovery now check_id m).0.repo
      unfolding auto_resolve_on_recovery
      recover-Holds now check_id = elim (Option-cases (find_open check_id m.repo)) [
        | inl free ↦ rw (free, auto_resolve_on_recovery) at
        | inr (j, found) ↦
            let (stored_at, named) = find_open-stored check_id m.repo v found in
            rw (found, auto_resolve_on_recovery) (rw named (resolve-Holds now j.id "system"))
      ]

      apply-Holds : (o : Op) → is_prune o ≡ false → Holds (apply o m).repo
      unfolding apply
      apply-Holds (alert now a) h = alert-Holds now a
      apply-Holds (acknowledge now key by) h =
          unfold acknowledge_incident in
          stored-Holds key (acknowledge_mutator now by)
            (λ x e. unfold acknowledge_mutator in ground arith)
      apply-Holds (resolve now key by) h = resolve-Holds now key by
      apply-Holds (recover now check_id) h = recover-Holds now check_id
      apply-Holds (prune cutoff) h = cc

-- Where the repository's invariant holds, an incident that is resolved is changed by no operation
-- but the retention job: over every sequence of alerts, acknowledgements, resolutions and
-- recoveries it is stored as it was.
pub resolved_final :
    (os : List Op) (m : Manager) (id : String) (i : Incident)
    → Inv m.repo
    → lookup id m.repo.incidents ≡ some i
    → is_resolved i.status ≡ true
    → no_prune os ≡ true
    → lookup id (run os m).repo.incidents ≡ some i
unfolding run
resolved_final [] m id i v at final h = at
resolved_final (o ∷ os) m id i v at final h =
    let (kept, rest) = no_prune-cons o os h in
    resolved_final os (apply o m) id i (apply-Inv m v o) (apply-Holds id i m at v final o kept)
      final rest
