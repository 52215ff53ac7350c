-- ===== src/Incidents/Invariant.antt =====
-- What holds of the incident repository between two operations, for incident_manager.go and
-- incident_repository.go.
use Prim.Native.String.{◌++◌}
use text.Mathlib.TextLemmas.{append-eq-nil_iff, cons≢nil}
use healthops.Prelude.{
  ◌≤◌, ◌/◌, sub_ℕ, print_ℤ, ◌∙◌, String, true, false, none, some, ◌≡◌, refl, subst, ◌≢◌, arith,
  is_blank, is_blank-ne, str_eq_iff,
}
use healthops.Prelude.Maps.{
  lookup, insert, lookup-insert, IsDistinct, IsKeyed, insert-IsDistinct, insert-IsKeyed,
  count_values, count_values-insert_old, count_values-insert_new, find_value-none,
  find_value-lookup, lookup-key, delete_values-IsDistinct, delete_values-IsKeyed,
  count_values-delete_values, lookup-delete_values,
}
use healthops.Types.{Time, second, Incident, is_resolved}
use healthops.Incidents.Repo.{
  Result, ok, Repo, create, update, find_open, is_open_for, is_prunable, prune_before, new_repo,
}
use healthops.Incidents.Manager.{
  Report, generate_incident_id, alert_mutator, acknowledge_mutator, resolve_mutator,
}

abbrev pub key : Incident → String
key i = i.id

-- Keys are distinct and are the incidents' identifiers, none is blank, and a check has at most one
-- incident that is not resolved.
pub record Inv (r : Repo) : Type 0 where
  pub distinct : IsDistinct r.incidents
  pub keyed : IsKeyed key r.incidents
  pub named : lookup "" r.incidents ≡ none
  pub single : (check_id : String) → count_values (is_open_for check_id) r.incidents ≤ 1

pub new_repo-Inv : Inv new_repo
unfolding new_repo IsDistinct IsKeyed lookup count_values
new_repo-Inv = record { distinct = tt; keyed = tt; named = refl; single = λ c. omega arith }

-- A mutator that leaves an incident's identity alone and reopens nothing.

abbrev pub Keeps : (Incident → Result Incident) → Type 0
Keeps f =
    (i i' : Incident)
    → f i ≡ ok i'
    → (i'.id ≡ i.id)
      × (i'.check_id ≡ i.check_id)
      × (is_resolved i.status ≡ true → is_resolved i'.status ≡ true)

pub update-inv :
    (id : String) (f : Incident → Result Incident) (r : Repo) {r' : Repo}
    → update id f r ≡ ok r'
    → (i : Incident) × (i' : Incident) × (lookup id r.incidents ≡ some i)
      × (f i ≡ ok i')
      × (r' ≡ record { incidents = insert id i' r.incidents })
unfolding update
update-inv id f r h = ground arith

-- What a written incident adds to the count of its check.
single-insert :
    (c : String) (i i' : Incident) (r : Repo)
    → lookup i.id r.incidents ≡ some i
    → i'.check_id ≡ i.check_id
    → (is_resolved i.status ≡ true → is_resolved i'.status ≡ true)
    → count_values (is_open_for c) r.incidents ≤ 1
    → count_values (is_open_for c) (insert i.id i' r.incidents) ≤ 1
single-insert c i i' r found same closed h =
    ground (arith, count_values-insert_old (is_open_for c) i.id i i' r.incidents)

pub update-Inv :
    (id : String) (f : Incident → Result Incident) (r : Repo) {r' : Repo}
    → Keeps f
    → Inv r
    → update id f r ≡ ok r'
    → Inv r'
update-Inv id f r {r'} keep v h =
    let (i, i', found, made, same) = update-inv id f r h in
    let (same_id, same_check, closed) = keep i i' made in
    let at_id : i.id ≡ id = lookup-key key id r.incidents v.keyed found in
    rw same (record {
      distinct = insert-IsDistinct id i' r.incidents v.distinct;
      keyed =
          subst (λ k. IsKeyed key (insert k i' r.incidents)) (same_id ∙ at_id)
            (insert-IsKeyed key i' r.incidents v.keyed);
      named = ground (arith, lookup-insert id "" i' r.incidents, str_eq_iff id "", v.named);
      single = λ c.
          subst (λ k. count_values (is_open_for c) (insert k i' r.incidents) ≤ 1) at_id
            (single-insert c i i' r (rw at_id found) same_check closed (v.single c));
    })

pub generate_incident_id-ne : (check_id : String) (t : Time) → generate_incident_id check_id t ≢ ""
unfolding generate_incident_id
generate_incident_id-ne check_id t h =
    let text : String = print_ℤ (sub_ℕ (t / second) 62_135_596_800) in
    let tail = ((append-eq-nil_iff {p = check_id} {q = "-" ++ text}).0 h).1 in
    cons≢nil ((append-eq-nil_iff {p = "-"} {q = text}).0 tail).0

pub create-Inv :
    (i : Incident) (r : Repo) {r' : Repo}
    → i.id ≢ ""
    → is_resolved i.status ≡ false
    → find_open i.check_id r ≡ none
    → Inv r
    → create i r ≡ ok r'
    → Inv r'
unfolding create find_open
create-Inv i r {r'} ne live free v h =
    let fresh : lookup i.id r.incidents ≡ none = ground arith in
    let same : r' ≡ record { incidents = insert i.id i r.incidents } = ground arith in
    rw same (record {
      distinct = insert-IsDistinct i.id i r.incidents v.distinct;
      keyed = insert-IsKeyed key i r.incidents v.keyed;
      named = ground (arith, lookup-insert i.id "" i r.incidents, str_eq_iff i.id "", v.named);
      single = λ c. ground (
        arith,
        count_values-insert_new (is_open_for c) i.id i r.incidents,
        find_value-none (is_open_for c) r.incidents,
        str_eq_iff i.check_id c,
        v.single c,
      );
    })

-- An open incident that is found is stored under its identifier, which is not blank.
pub find_open-stored :
    (check_id : String) (r : Repo) {i : Incident}
    → Inv r
    → find_open check_id r ≡ some i
    → (lookup i.id r.incidents ≡ some i) × (is_blank i.id ≡ false)
unfolding find_open
find_open-stored check_id r {i} v h =
    let found = find_value-lookup (is_open_for check_id) key r.incidents v.distinct v.keyed h in
    (found, is_blank-ne i.id (λ e. cc (v.named, found, e)))

pub prune_before-Inv : (cutoff : Time) (r : Repo) → Inv r → Inv (prune_before cutoff r)
unfolding prune_before
prune_before-Inv cutoff r v = record {
  distinct = delete_values-IsDistinct (is_prunable cutoff) r.incidents v.distinct;
  keyed = delete_values-IsKeyed (is_prunable cutoff) key r.incidents v.keyed;
  named =
      ground (arith, lookup-delete_values (is_prunable cutoff) "" r.incidents v.distinct, v.named);
  single = λ c. omega (
    arith,
    count_values-delete_values (is_prunable cutoff) (is_open_for c) r.incidents,
    v.single c,
  );
}

-- The manager's mutators.
pub alert_mutator-Keeps : (now : Time) (a : Report) → Keeps (λ i. ok (alert_mutator now a i))
unfolding alert_mutator
alert_mutator-Keeps now a i i' h = ground arith

pub acknowledge_mutator-Keeps : (now : Time) (by : String) → Keeps (acknowledge_mutator now by)
unfolding acknowledge_mutator
acknowledge_mutator-Keeps now by i i' h = ground arith

pub resolve_mutator-Keeps : (now : Time) (by : String) → Keeps (resolve_mutator now by)
unfolding resolve_mutator
resolve_mutator-Keeps now by i i' h = ground arith
