-- ===== src/Incidents/Repo.antt =====
-- backend/internal/monitoring/incident_repository.go. A method that changes the repository returns
-- the new one. A locked section is one step. The copies that the getters make are values here.
use healthops.Prelude.{
  String, Bool, not, ◌&&◌, Option, none, some, List, [], map, ◌≡◌, refl, ◌⊎◌, inl, inr, str_eq,
}
use healthops.Prelude.Maps.{Map, lookup, insert, find_value, delete_values}
use healthops.Types.{Time, before, Incident, is_resolved}

pub data Err : Type 0 where
  incident_exists incident_not_found : Err
  already_resolved acknowledge_resolved : Err

pub data Result (A : Type 0) : Type 0 where
  ok : A → Result A
  err : Err → Result A

pub record Repo : Type 0 where
  pub incidents : Map Incident

unfoldable pub new_repo : Repo
new_repo = record { incidents = [] }

unfoldable pub create : Incident → Repo → Result Repo
create i r = elim (lookup i.id r.incidents) [
  | some _ ↦ err incident_exists
  | none ↦ ok (record { incidents = insert i.id i r.incidents })
]

-- The mutator works on a copy: its error leaves the repository as it was.
unfoldable pub update : String → (Incident → Result Incident) → Repo → Result Repo
update id mutator r = elim (lookup id r.incidents) [
  | none ↦ err incident_not_found
  | some i ↦ elim (mutator i) [
    | err e ↦ err e
    | ok i' ↦ ok (record { incidents = insert id i' r.incidents })
  ]
]

-- A missing incident is the zero value and no error; here it is `none`.
unfoldable pub get : String → Repo → Option Incident
get id r = lookup id r.incidents

unfoldable pub list : Repo → List Incident
list r = map (λ e. e.1) r.incidents

abbrev pub is_open_for : String → Incident → Bool
is_open_for check_id i = str_eq i.check_id check_id && not (is_resolved i.status)

unfoldable pub find_open : String → Repo → Option Incident
find_open check_id r = find_value (is_open_for check_id) r.incidents

abbrev pub is_prunable : Time → Incident → Bool
is_prunable cutoff i = is_resolved i.status && before i.updated_at cutoff

unfoldable pub prune_before : Time → Repo → Repo
prune_before cutoff r = record { incidents = delete_values (is_prunable cutoff) r.incidents }

pub Result-cases : {A : Type 0} (r : Result A) → ((a : A) × (r ≡ ok a)) ⊎ ((e : Err) × (r ≡ err e))
Result-cases (ok a) = inl (a, refl)
Result-cases (err e) = inr (e, refl)
