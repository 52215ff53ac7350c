-- ===== src/Scenarios/Settings.antt =====
-- Configurations, the requests that write checks, and heartbeats: config.go, service.go and
-- check_heartbeat.go.
use healthops.Prelude.{ℕ, true, false, none, some, [], ◌∷◌, ◌≡◌, refl, pos}
use healthops.Blocks.{MysqlCheckConfig}
use healthops.Types.{CheckConfig}
use healthops.FileStore.Operations.{empty_state, holds}
use healthops.Scheduler.Timers.{new_check_scheduler}
use healthops.Config.Texts.{Library}
use healthops.Config.Secrets.{prepare_check_secrets, prepare_mysql, is_clear}
use healthops.Config.Sealed.{prepare_check_secrets-is_clear}
use healthops.Config.Writes.{Site, Request}
use healthops.Scenarios.Windows.{web}

-- Texts that need no change.
abbrev plain : Library
plain = record {
  trim_space = λ s. s;
  to_lower = λ s. s;
  to_upper = λ s. s;
  has_scheme = λ s. false;
  url_hosts = λ s. none;
  split_host = λ s. none;
}

abbrev db : MysqlCheckConfig
db = record {
  dsn_env = "";
  host = "db";
  port = pos 3306;
  username = "root";
  password = "hunter2";
  password_enc = "";
  has_password = false;
  database = "shop";
  connect_timeout_seconds = pos 3;
  query_timeout_seconds = pos 5;
  processlist_limit = pos 50;
  statement_limit = pos 20;
  host_user_limit = pos 20;
}

abbrev sql : CheckConfig
sql = record web { id = "sql"; type = "mysql"; mysql = some db }

prepare_check_secrets-is_clear_example :
    let c = (prepare_check_secrets (λ s. some "sealed") none none sql).0 in
    (is_clear c ≡ true) × (c.remediation ≡ sql.remediation)
unfolding prepare_check_secrets prepare_mysql
prepare_check_secrets-is_clear_example =
    prepare_check_secrets-is_clear (λ s. some "sealed") none none sql refl

abbrev site : Site ℕ
site = record {
  store = record {
    state = record empty_state { checks = web ∷ sql ∷ [] };
    disk = holds (record empty_state { checks = web ∷ sql ∷ [] });
  };
  scheduler = new_check_scheduler (pos 60);
  heartbeats = [];
}

abbrev asked : Request
asked = record { token = "tok"; encrypt = λ s. some "sealed"; is_written = true; now = 9 }

-- A new check that comes with the identifier of one that there is.
abbrev again : CheckConfig
again = record web { name = "Another"; retry_delay_seconds = pos 1 }
