-- ===== src/Degraded/Mode.antt =====
-- DegradedMode of backend/internal/monitoring/degraded_mode.go, with the incident manager over the
-- in-memory repository. The answer of a health check is an argument, as is the clock's reading;
-- `format` is time.Format with RFC 3339. The goroutine of the checks is a sequence of checks.
use Prim.Native.String.{◌++◌}
use text.Mathlib.Text.{starts_with}
use healthops.Prelude.{
  String, Bool, true, false, not, ◌||◌, Option, none, some, List, [], ◌∷◌, str_eq, if◌then◌else◌,
}
use healthops.Types.{Time}
use healthops.Incidents.Manager.{Report, Manager, process_alert, auto_resolve_on_recovery}

-- The zero time of a healthy database is `none`.
pub record DegradedMode : Type 0 where
  pub healthy : Bool
  pub degraded_since : Option Time
  pub last_error : String
  pub incident_mgr : Option Manager

unfoldable pub new_degraded_mode : Option Manager → DegradedMode
new_degraded_mode m = record {
  healthy = true;
  degraded_since = none;
  last_error = "";
  incident_mgr = m;
}

unfoldable pub database_alert : (Time → String) → Time → String → Report
database_alert format now reason = record {
  check_id = "database";
  check_name = "Database Connectivity";
  check_type = "system";
  severity = "critical";
  message = "Database unavailable: " ++ reason;
  metadata = some (("degradedSince", format now) ∷ ("error", reason) ∷ []);
}

abbrev alerted : Report → Time → Option Manager → Option Manager
alerted a now none = none
alerted a now (some m) = some (process_alert now a m).0

abbrev recovered : Time → Option Manager → Option Manager
recovered now none = none
recovered now (some m) = some (auto_resolve_on_recovery now "database" m).0

unfoldable pub run_health_check :
    (Time → String) → Time → Option String → DegradedMode → DegradedMode
run_health_check format now (some reason) dm =
    if dm.healthy
    then record {
      healthy = false;
      degraded_since = some now;
      last_error = reason;
      incident_mgr = alerted (database_alert format now reason) now dm.incident_mgr;
    }
    else dm
run_health_check format now none dm =
    let dm' =
      if dm.healthy
      then dm
      else record dm { healthy = true; degraded_since = none; last_error = "" } in
    record dm' { incident_mgr = recovered now dm.incident_mgr }

unfoldable pub set_incident_manager : Option Manager → DegradedMode → DegradedMode
set_incident_manager m dm = record dm { incident_mgr = m }

-- The checks of an outage, each with its time and its error.
abbrev pub failing_checks : (Time → String) → List (Time × String) → DegradedMode → DegradedMode
failing_checks format [] dm = dm
failing_checks format ((now, reason) ∷ more) dm =
    failing_checks format more (run_health_check format now (some reason) dm)

abbrev pub is_at_or_below : String → String → Bool
is_at_or_below path prefix = str_eq path prefix || starts_with path (prefix ++ "/")

unfoldable pub is_protected_endpoint : String → Bool
is_protected_endpoint path =
    is_at_or_below path "/api/v1/checks"
    || is_at_or_below path "/api/v1/config"
    || is_at_or_below path "/api/v1/servers"
    || is_at_or_below path "/api/v1/users"
    || is_at_or_below path "/api/v1/notification-channels"
    || is_at_or_below path "/api/v1/alert-rules"
    || is_at_or_below path "/api/v1/ai/config"

unfoldable pub is_write_method : String → Bool
is_write_method method =
    str_eq method "POST" || str_eq method "PUT" || str_eq method "DELETE" || str_eq method "PATCH"

-- A request reaches its handler, or is answered 503.
pub data Passage : Type 0 where
  served unavailable : Passage

unfoldable pub middleware : String → String → DegradedMode → Passage
middleware path method dm =
    if not (is_protected_endpoint path)
    then served
    else if not (is_write_method method)
    then served
    else if not dm.healthy
    then unavailable
    else served
