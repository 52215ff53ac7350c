-- ===== src/Scenarios/Incidents.antt =====
-- A web check that fails twice in two seconds and recovers: incident_manager.go.
use healthops.Prelude.{◌*◌, ◌+◌, true, false, some, List, [], ◌∷◌, ◌≡◌, refl}
use healthops.Prelude.Maps.{lookup, find_value}
use healthops.Types.{Time, second, Incident}
use healthops.Incidents.Repo.{find_open, new_repo}
use healthops.Incidents.Manager.{Report, Manager, new_incident}
use healthops.Incidents.Invariant.{Inv}
use healthops.Incidents.Traces.{
  Op, alert, acknowledge, resolve, recover, apply, run, start, run_start-Inv,
}
use healthops.Incidents.Final.{resolved_final}
use healthops.Incidents.Lifecycle.{closed, process_alert_opens, auto_resolve_closes}

-- The zero time's first second of 1970.
abbrev pub epoch : Time
epoch = 62_135_596_800 * second

abbrev failing : Report
failing = record {
  check_id = "web";
  check_name = "Web";
  check_type = "api";
  severity = "warning";
  message = "status 500";
  metadata = some (("host", "a") ∷ []);
}

abbrev worse : Report
worse = record failing { severity = "critical"; message = "no answer" }

abbrev pub empty : Manager
empty = start true true

abbrev pub opened : Manager
opened = apply (alert epoch failing) empty

abbrev pub incident : Incident
incident = new_incident epoch failing

run_start-Inv_example :
    Inv (run (alert epoch failing ∷ recover (epoch + second) "web" ∷ []) (start true false)).repo
run_start-Inv_example =
    run_start-Inv true false (alert epoch failing ∷ recover (epoch + second) "web" ∷ [])

pub opened-Inv : Inv opened.repo
unfolding run
opened-Inv = run_start-Inv true true (alert epoch failing ∷ [])

pub opened-find_open : find_open "web" opened.repo ≡ some incident
unfolding apply
opened-find_open =
    (process_alert_opens epoch failing empty (unfold start new_repo find_open find_value in refl)
      (unfold start new_repo lookup in refl)).1

abbrev history : List Op
history =
    alert (epoch + 9 * second) worse
    ∷ acknowledge (epoch + 9 * second) "web-0" "ana"
    ∷ resolve (epoch + 10 * second) "web-0" "ana"
    ∷ []

abbrev recovered : Manager
recovered = apply (recover (epoch + second) "web") opened

recovered-Inv : Inv recovered.repo
unfolding run
recovered-Inv = run_start-Inv true true (alert epoch failing ∷ recover (epoch + second) "web" ∷ [])

resolved_final_example :
    lookup incident.id (run history recovered).repo.incidents
    ≡ some (closed (epoch + second) "web" opened opened-Inv incident)
unfolding apply
resolved_final_example =
    resolved_final history recovered incident.id
      (closed (epoch + second) "web" opened opened-Inv incident) recovered-Inv
      (auto_resolve_closes (epoch + second) "web" opened opened-Inv {i = incident}
        opened-find_open).2
      refl refl
