-- ===== src/Degraded/Outages.antt =====
-- An outage of the database, backend/internal/monitoring/degraded_mode.go.
use healthops.Prelude.{
  String, true, false, none, some, List, [], ◌∷◌, ◌≡◌, refl, arith, ap, ◌∙◌, not, ◌&&◌,
  if◌then◌else◌,
}
use healthops.Types.{Time, Incident}
use healthops.Incidents.Repo.{find_open}
use healthops.Incidents.Manager.{Manager, process_alert, auto_resolve_on_recovery}
use healthops.Incidents.Invariant.{Inv}
use healthops.Incidents.Lifecycle.{auto_resolve_closes}
use healthops.Incidents.Traces.{process_alert-Inv}
use healthops.Incidents.Opened.{process_alert-open}
use healthops.Degraded.Mode.{
  DegradedMode, database_alert, run_health_check, failing_checks, is_protected_endpoint,
  is_write_method, served, unavailable, middleware,
}

check-stays_degraded :
    (format : Time → String) (now : Time) (reason : String) (dm : DegradedMode)
    → dm.healthy ≡ false
    → run_health_check format now (some reason) dm ≡ dm
unfolding run_health_check
check-stays_degraded format now reason dm h = rw h refl

failing_checks-degraded :
    (format : Time → String) (checks : List (Time × String)) (dm : DegradedMode)
    → dm.healthy ≡ false
    → failing_checks format checks dm ≡ dm
failing_checks-degraded format [] dm h = refl
failing_checks-degraded format ((now, reason) ∷ more) dm h =
    ap (failing_checks format more) (check-stays_degraded format now reason dm h)
    ∙ failing_checks-degraded format more dm h

first_failure :
    (format : Time → String) (now : Time) (reason : String) (m : Manager) (dm : DegradedMode)
    → dm.healthy ≡ true
    → dm.incident_mgr ≡ some m
    → let dm' = run_health_check format now (some reason) dm in
      (dm'.healthy ≡ false)
      × (dm'.incident_mgr ≡ some (process_alert now (database_alert format now reason) m).0)
unfolding run_health_check
first_failure format now reason m dm h managed = ground (arith, h, managed)

first_success :
    (format : Time → String) (now : Time) (m : Manager) (dm : DegradedMode)
    → dm.incident_mgr ≡ some m
    → let dm' = run_health_check format now none dm in
      (dm'.healthy ≡ true) × (dm'.incident_mgr ≡ some (auto_resolve_on_recovery now "database" m).0)
unfolding run_health_check
first_success format now m dm managed = ground (arith, managed)

middleware-eq :
    (path method : String) (dm : DegradedMode)
    → middleware path method dm ≡ (
        if is_protected_endpoint path && is_write_method method && not dm.healthy
        then unavailable
        else served)
unfolding middleware
middleware-eq path method dm = ground arith

-- From a healthy database, with an incident manager whose repository's invariant holds, and if the
-- alert of the first failed check is no error: during an outage, however long, the database has an
-- open incident, and exactly the writes to protected paths are turned away. The first check that
-- passes leaves no open incident of the database and lets every request through.
pub failing_checks-outage :
    (format : Time → String) (start end : Time) (reason : String) (more : List (Time × String))
    (m : Manager) (dm : DegradedMode) (path method : String)
    → Inv m.repo
    → dm.healthy ≡ true
    → dm.incident_mgr ≡ some m
    → (process_alert start (database_alert format start reason) m).1 ≡ none
    → let during = failing_checks format ((start, reason) ∷ more) dm in
      let after = run_health_check format end none during in
      (i : Incident) × (m' : Manager) × (m'' : Manager) × (during.incident_mgr ≡ some m')
      × (find_open "database" m'.repo ≡ some i)
      × (middleware path method during
          ≡ (if is_protected_endpoint path && is_write_method method then unavailable else served))
      × (after.incident_mgr ≡ some m'')
      × (find_open "database" m''.repo ≡ none)
      × (middleware path method after ≡ served)
failing_checks-outage format start end reason more m dm path method v healthy managed fine =
    let m1 = (process_alert start (database_alert format start reason) m).0 in
    let dm1 = run_health_check format start (some reason) dm in
    let (down, alerted) = first_failure format start reason m dm healthy managed in
    let (i, found) = process_alert-open start (database_alert format start reason) m v fine in
    let open_one : find_open "database" m1.repo ≡ some i = unfold database_alert in found in
    let (closed, gone, kept) =
      auto_resolve_closes end "database" m1
        (process_alert-Inv m v start (database_alert format start reason)) open_one in
    let (up, resolved) = first_success format end m1 dm1 alerted in
    rw (failing_checks-degraded format more dm1 down) (
      i,
      m1,
      (auto_resolve_on_recovery end "database" m1).0,
      alerted,
      open_one,
      middleware-eq path method dm1 ∙ ground (arith, down),
      resolved,
      gone,
      middleware-eq path method (run_health_check format end none dm1) ∙ ground (arith, up),
    )
