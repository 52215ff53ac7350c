-- ===== src/Scenarios/Windows.antt =====
-- Maintenance windows of one hour: maintenance.go.
use healthops.Prelude.{ℕ, ◌+◌, ◌*◌, true, none, [], pos}
use healthops.Types.{minute, day, CheckConfig}
use healthops.Calendar.{east}
use healthops.Maintenance.Window.{MaintenanceWindow, daily}

abbrev hour : ℕ
hour = 60 * minute

abbrev pub nightly : MaintenanceWindow
nightly = record {
  id = "mw-1";
  name = "Backups";
  description = "";
  start_time = 100 * day;
  end_time = 100 * day + hour;
  zone = east (2 * hour);
  check_ids = [];
  tags = [];
  servers = [];
  recurring = true;
  recurrence_rule = daily;
  created_at = 1;
  created_by = "ana";
  enabled = true;
}

abbrev pub web : CheckConfig
web = record {
  id = "web";
  name = "Web";
  type = "api";
  server = "a";
  application = "shop";
  interval_seconds = pos 60;
  retry_count = pos 1;
  retry_delay_seconds = pos 0;
  cooldown_seconds = pos 0;
  enabled = none;
  tags = [];
  failures_to_open = pos 2;
  successes_to_resolve = pos 1;
  target = "https://shop.example";
  host = "";
  port = pos 0;
  command = "";
  path = "";
  expected_status = pos 200;
  timeout_seconds = pos 5;
  freshness_seconds = pos 0;
  server_id = "";
  mysql = none;
  ssh = none;
  ssl = none;
  dns = none;
  ping = none;
  domain = none;
  heartbeat = none;
  remediation = none;
}
