-- ===== src/Incidents/Manager.antt =====
-- backend/internal/monitoring/incident_manager.go, over the in-memory repository. The clock's
-- reading is an argument `now`. A callback that is set leaves an event in `events`, newest first.
use Prim.Native.String.{◌++◌}
use healthops.Prelude.{
  ℕ, ◌/◌, String, Bool, true, false, Option, none, some, List, [], ◌∷◌, str_eq, is_blank, ltb,
  sub_ℕ, print_ℤ, if◌then◌else◌,
}
use healthops.Prelude.Maps.{Map, insert}
use healthops.Types.{
  Time, second, Metadata, Incident, open_status, acknowledged, resolved, is_resolved,
}
use healthops.Incidents.Repo.{
  Err, already_resolved, acknowledge_resolved, Result, ok, err, Repo, create, update, get,
  find_open,
}

pub data Event : Type 0 where
  incident_created incident_resolved : Incident → Event

pub record Manager : Type 0 where
  pub repo : Repo
  pub on_incident_created : Bool
  pub on_incident_resolved : Bool
  pub events : List Event

-- An alert as the manager gets it.
pub record Report : Type 0 where
  pub check_id : String
  pub check_name : String
  pub check_type : String
  pub severity : String
  pub message : String
  pub metadata : Metadata

-- Seconds from the zero time to 1970.
abbrev unix_epoch : ℕ
unix_epoch = 62_135_596_800

unfoldable pub generate_incident_id : String → Time → String
unfolding print_ℤ
generate_incident_id check_id t = check_id ++ "-" ++ print_ℤ (sub_ℕ (t / second) unix_epoch)

abbrev pub severity_level : String → Option ℕ
severity_level s =
    if str_eq s "warning" then some 1 else if str_eq s "critical" then some 2 else none

abbrev pub level_increased : Option ℕ → Option ℕ → Bool
level_increased none new = true
level_increased (some old) none = false
level_increased (some old) (some new) = ltb old new

unfoldable pub severity_has_increased : String → String → Bool
severity_has_increased old new = level_increased (severity_level old) (severity_level new)

-- `for k, v := range metadata { inc.Metadata[k] = v }`
insert_all : Map String → Map String → Map String
insert_all m [] = m
insert_all m ((k, v) ∷ more) = insert_all (insert k v m) more

abbrev pub entries : Metadata → Map String
entries none = []
entries (some m) = m

-- An absent map is made first.
unfoldable pub merge_metadata : Metadata → Metadata → Metadata
unfolding insert_all
merge_metadata old new = some (insert_all (entries old) (entries new))

unfoldable pub new_incident : Time → Report → Incident
new_incident now a = record {
  id = generate_incident_id a.check_id now;
  check_id = a.check_id;
  check_name = a.check_name;
  type = a.check_type;
  status = open_status;
  severity = a.severity;
  message = a.message;
  started_at = now;
  updated_at = now;
  resolved_at = none;
  acknowledged_at = none;
  acknowledged_by = "";
  resolved_by = "";
  metadata = a.metadata;
}

abbrev pub emit : Bool → Event → List Event → List Event
emit b e es = if b then e ∷ es else es

-- Each operation returns the manager and its error, if any.
unfoldable pub create_incident : Time → Report → Manager → Manager × Option Err
create_incident now a m =
    let i = new_incident now a in
    elim (create i m.repo) [
      | err e ↦ (m, some e)
      | ok r ↦ (
        record m { repo = r; events = emit m.on_incident_created (incident_created i) m.events },
        none,
      )
    ]

unfoldable pub alert_mutator : Time → Report → Incident → Incident
alert_mutator now a i = record i {
  severity = if severity_has_increased i.severity a.severity then a.severity else i.severity;
  message = a.message;
  metadata = merge_metadata i.metadata a.metadata;
  updated_at = now;
}

-- The repository's part of an operation, with the manager around it.
abbrev pub stored : Manager → Result Repo → Manager × Option Err
stored m (ok r) = (record m { repo = r }, none)
stored m (err e) = (m, some e)

unfoldable pub update_incident : Time → Incident → Report → Manager → Manager × Option Err
update_incident now i a m = stored m (update i.id (λ j. ok (alert_mutator now a j)) m.repo)

unfoldable pub process_alert : Time → Report → Manager → Manager × Option Err
unfolding update_incident create_incident
process_alert now a m = elim (find_open a.check_id m.repo) [
  | none ↦ create_incident now a m
  | some i ↦ if is_blank i.id then create_incident now a m else update_incident now i a m
]

unfoldable pub acknowledge_mutator : Time → String → Incident → Result Incident
acknowledge_mutator now by i =
    if is_resolved i.status
    then err acknowledge_resolved
    else ok (record i {
      status = acknowledged;
      acknowledged_at = some now;
      acknowledged_by = by;
      updated_at = now;
    })

unfoldable pub acknowledge_incident : Time → String → String → Manager → Manager × Option Err
acknowledge_incident now id by m = stored m (update id (acknowledge_mutator now by) m.repo)

unfoldable pub resolve_mutator : Time → String → Incident → Result Incident
resolve_mutator now by i =
    if is_resolved i.status
    then err already_resolved
    else ok
        (record i { status = resolved; resolved_at = some now; resolved_by = by; updated_at = now })

-- The callback gets the incident as it is read back.
abbrev pub notify_resolved : String → Manager → Manager
notify_resolved id m = elim (get id m.repo) [
  | none ↦ m
  | some i ↦ record m { events = emit m.on_incident_resolved (incident_resolved i) m.events }
]

unfoldable pub resolve_incident : Time → String → String → Manager → Manager × Option Err
resolve_incident now id by m = elim (update id (resolve_mutator now by) m.repo) [
  | err e ↦ (m, some e)
  | ok r ↦ (notify_resolved id (record m { repo = r }), none)
]

unfoldable pub auto_resolve_on_recovery : Time → String → Manager → Manager × Option Err
unfolding resolve_incident
auto_resolve_on_recovery now check_id m = elim (find_open check_id m.repo) [
  | none ↦ (m, none)
  | some i ↦ if is_blank i.id then (m, none) else resolve_incident now i.id "system" m
]
