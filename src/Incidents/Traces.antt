-- ===== src/Incidents/Traces.antt =====
-- Sequences of operations of incident_manager.go and incident_repository.go.
use healthops.Prelude.{String, Bool, none, List, [], ◌∷◌, ◌≡◌, refl, inl, inr, arith, Option-cases}
use healthops.Types.{Time, Incident}
use healthops.Incidents.Repo.{
  Result, Result-cases, create, update, find_open, prune_before, new_repo,
}
use healthops.Incidents.Manager.{
  Report, Manager, new_incident, create_incident, process_alert, acknowledge_incident,
  resolve_mutator, resolve_incident, auto_resolve_on_recovery, stored,
}
use healthops.Incidents.Invariant.{
  Inv, Keeps, new_repo-Inv, update-Inv, create-Inv, prune_before-Inv, find_open-stored,
  generate_incident_id-ne, alert_mutator-Keeps, acknowledge_mutator-Keeps, resolve_mutator-Keeps,
}

-- One operation, at the time that the clock shows.
pub data Op : Type 0 where
  alert : Time → Report → Op
  acknowledge : Time → String → String → Op
  resolve : Time → String → String → Op
  recover : Time → String → Op
  prune : Time → Op

unfoldable pub apply : Op → Manager → Manager
apply (alert now a) m = (process_alert now a m).0
apply (acknowledge now id by) m = (acknowledge_incident now id by m).0
apply (resolve now id by) m = (resolve_incident now id by m).0
apply (recover now check_id) m = (auto_resolve_on_recovery now check_id m).0
apply (prune cutoff) m = record m { repo = prune_before cutoff m.repo }

unfoldable pub run : List Op → Manager → Manager
run [] m = m
run (o ∷ os) m = run os (apply o m)

module _ (m : Manager) (v : Inv m.repo) where
  stored-Inv :
      (id : String) (f : Incident → Result Incident)
      → Keeps f
      → Inv (stored m (update id f m.repo)).0.repo
  stored-Inv id f keep = elim (Result-cases (update id f m.repo)) [
    | inl (r, e) ↦ rw e (update-Inv id f m.repo keep v e)
    | inr (x, e) ↦ rw e v
  ]

  create_incident-Inv :
      (now : Time) (a : Report)
      → find_open a.check_id m.repo ≡ none
      → Inv (create_incident now a m).0.repo
  unfolding create_incident
  create_incident-Inv now a free = elim (Result-cases (create (new_incident now a) m.repo)) [
    | inl (r, e) ↦
        rw (e, create_incident)
          (create-Inv (new_incident now a) m.repo
            (unfold new_incident in generate_incident_id-ne a.check_id now)
            (unfold new_incident in refl) (unfold new_incident in free) v e)
    | inr (x, e) ↦ rw (e, create_incident) v
  ]

  pub process_alert-Inv : (now : Time) (a : Report) → Inv (process_alert now a m).0.repo
  unfolding process_alert
  process_alert-Inv now a = elim (Option-cases (find_open a.check_id m.repo)) [
    | inl free ↦ rw (free, process_alert) (unfold create_incident in create_incident-Inv now a free)
    | inr (i, found) ↦
        let (at, named) = find_open-stored a.check_id m.repo v found in
        rw (found, process_alert) (rw named (stored-Inv i.id _ (alert_mutator-Keeps now a)))
  ]

  pub resolve_incident-repo :
      (now : Time) (id by : String)
      → (resolve_incident now id by m).0.repo
        ≡ (stored m (update id (resolve_mutator now by) m.repo)).0.repo
  unfolding resolve_incident
  resolve_incident-repo now id by = ground arith

  resolve_incident-Inv : (now : Time) (id by : String) → Inv (resolve_incident now id by m).0.repo
  resolve_incident-Inv now id by =
      rw (resolve_incident-repo now id by) (stored-Inv id _ (resolve_mutator-Keeps now by))

  pub auto_resolve-Inv :
      (now : Time) (check_id : String) → Inv (auto_resolve_on_recovery now check_id m).0.repo
  unfolding auto_resolve_on_recovery
  auto_resolve-Inv now check_id = elim (Option-cases (find_open check_id m.repo)) [
    | inl free ↦ rw (free, auto_resolve_on_recovery) v
    | inr (i, found) ↦
        let (at, named) = find_open-stored check_id m.repo v found in
        rw (found, auto_resolve_on_recovery) (rw named (resolve_incident-Inv now i.id "system"))
  ]

  pub apply-Inv : (o : Op) → Inv (apply o m).repo
  unfolding apply
  apply-Inv (alert now a) = process_alert-Inv now a
  apply-Inv (acknowledge now id by) =
      unfold acknowledge_incident in stored-Inv id _ (acknowledge_mutator-Keeps now by)
  apply-Inv (resolve now id by) = resolve_incident-Inv now id by
  apply-Inv (recover now check_id) = auto_resolve-Inv now check_id
  apply-Inv (prune cutoff) = prune_before-Inv cutoff m.repo v

run-Inv : (os : List Op) (m : Manager) → Inv m.repo → Inv (run os m).repo
unfolding run
run-Inv [] m v = v
run-Inv (o ∷ os) m v = run-Inv os (apply o m) (apply-Inv m v o)

-- A manager over a new repository.
unfoldable pub start : Bool → Bool → Manager
start created resolved = record {
  repo = new_repo;
  on_incident_created = created;
  on_incident_resolved = resolved;
  events = [];
}

-- Whatever operations run one after the other from a new repository, the keys stay distinct and
-- are the incidents' identifiers, no identifier is blank, and every check has at most one incident
-- that is not resolved.
pub run_start-Inv :
    (created resolved : Bool) (os : List Op) → Inv (run os (start created resolved)).repo
unfolding start
run_start-Inv created resolved os = run-Inv os (start created resolved) new_repo-Inv
