-- ===== src/Config/Executors.antt =====
-- The types of checks: what ApplyDefaults and Validate of the executors in
-- backend/internal/monitoring/check_*.go do, and LookupCheckExecutor of check_registry.go on the
-- executors that the files register. What Register does to the heartbeats is in Heartbeat.
use healthops.Prelude.{
  ℕ, String, false, Option, none, some, [], if◌then◌else◌, text_or, str_eq, ℤ, pos, positive_or,
}
use healthops.Blocks.{
  SslCheckConfig, DnsCheckConfig, PingCheckConfig, DomainCheckConfig, HeartbeatCheckConfig,
  MysqlCheckConfig, SshCheckConfig,
}
use healthops.Types.{CheckConfig}

pub data Executor : Type 0 where
  api tcp process command log mysql ssh ssl dns ping domain heartbeat : Executor

-- Type, for each executor, by the registry.
unfoldable pub lookup_check_executor : String → Option Executor
lookup_check_executor t =
    if str_eq t "api"
    then some api
    else if str_eq t "tcp"
    then some tcp
    else if str_eq t "process"
    then some process
    else if str_eq t "command"
    then some command
    else if str_eq t "log"
    then some log
    else if str_eq t "mysql"
    then some mysql
    else if str_eq t "ssh"
    then some ssh
    else if str_eq t "ssl"
    then some ssl
    else if str_eq t "dns"
    then some dns
    else if str_eq t "ping"
    then some ping
    else if str_eq t "domain"
    then some domain
    else if str_eq t "heartbeat"
    then some heartbeat
    else none

-- `if x <= 0 { x = d }`
abbrev pub or_positive : ℕ → ℤ → ℤ
or_positive d z = pos (positive_or d z)

-- A nil pointer and a pointer to a new block.
abbrev pub block_or {ℓ} : {A : Type ℓ} → A → Option A → A
block_or d none = d
block_or d (some a) = a

abbrev pub new_ssl : SslCheckConfig
new_ssl = record {
  host = "";
  port = pos 0;
  server_name = "";
  warning_days = pos 0;
  critical_days = pos 0;
  insecure_skip_verify = false;
}

abbrev pub new_dns : DnsCheckConfig
new_dns = record {
  name = "";
  record_type = "";
  resolver = "";
  expected = [];
  must_not_contain = [];
}

abbrev pub new_ping : PingCheckConfig
new_ping = record {
  host = "";
  count = pos 0;
  max_packet_loss_percent = pos 0;
  max_avg_latency_ms = pos 0;
}

abbrev pub new_domain : DomainCheckConfig
new_domain = record { domain = ""; warning_days = pos 0; critical_days = pos 0; rdap_endpoint = "" }

abbrev pub new_heartbeat : HeartbeatCheckConfig
new_heartbeat = record { token = ""; expected_interval_seconds = pos 0; grace_seconds = pos 0 }

unfoldable pub ssl_defaults : SslCheckConfig → SslCheckConfig
ssl_defaults b = record b {
  port = or_positive 443 b.port;
  warning_days = or_positive 30 b.warning_days;
  critical_days = or_positive 7 b.critical_days;
}

unfoldable pub dns_defaults : DnsCheckConfig → DnsCheckConfig
dns_defaults b = record b { record_type = text_or b.record_type "A" }

unfoldable pub ping_defaults : PingCheckConfig → PingCheckConfig
ping_defaults b = record b {
  count = or_positive 3 b.count;
  max_packet_loss_percent = or_positive 50 b.max_packet_loss_percent;
}

unfoldable pub domain_defaults : DomainCheckConfig → DomainCheckConfig
domain_defaults b = record b {
  warning_days = or_positive 30 b.warning_days;
  critical_days = or_positive 7 b.critical_days;
}

-- With the token that GenerateHeartbeatToken would return.
unfoldable pub heartbeat_defaults : String → HeartbeatCheckConfig → HeartbeatCheckConfig
heartbeat_defaults new_token b = record b {
  token = text_or b.token new_token;
  grace_seconds = or_positive 60 b.grace_seconds;
}

unfoldable pub mysql_block_defaults : MysqlCheckConfig → MysqlCheckConfig
mysql_block_defaults b = record b {
  port = or_positive 3306 b.port;
  connect_timeout_seconds = or_positive 3 b.connect_timeout_seconds;
  query_timeout_seconds = or_positive 5 b.query_timeout_seconds;
  processlist_limit = or_positive 50 b.processlist_limit;
  statement_limit = or_positive 20 b.statement_limit;
  host_user_limit = or_positive 20 b.host_user_limit;
}

abbrev pub mysql_with : CheckConfig → Option MysqlCheckConfig → CheckConfig
mysql_with c none = c
mysql_with c (some b) = record c {
  mysql = some (mysql_block_defaults b);
  interval_seconds = or_positive 15 c.interval_seconds;
  timeout_seconds = or_positive 10 c.timeout_seconds;
}

unfoldable pub mysql_defaults : CheckConfig → CheckConfig
mysql_defaults c = mysql_with c c.mysql

abbrev pub ssh_with : CheckConfig → Option SshCheckConfig → CheckConfig
ssh_with c none = c
ssh_with c (some b) = record c { ssh = some (record b { port = or_positive 22 b.port }) }

unfoldable pub ssh_defaults : CheckConfig → CheckConfig
ssh_defaults c = ssh_with c c.ssh

-- ApplyDefaults, by executor.
unfoldable pub executor_defaults : String → Executor → CheckConfig → CheckConfig
unfolding ssl_defaults dns_defaults ping_defaults domain_defaults heartbeat_defaults mysql_defaults
    ssh_defaults
executor_defaults new_token mysql c = mysql_defaults c
executor_defaults new_token ssh c = ssh_defaults c
executor_defaults new_token ssl c = record c { ssl = some (ssl_defaults (block_or new_ssl c.ssl)) }
executor_defaults new_token dns c = record c { dns = some (dns_defaults (block_or new_dns c.dns)) }
executor_defaults new_token ping c = record c {
  ping = some (ping_defaults (block_or new_ping c.ping));
}
executor_defaults new_token domain c = record c {
  domain = some (domain_defaults (block_or new_domain c.domain));
}
executor_defaults new_token heartbeat c = record c {
  heartbeat = some (heartbeat_defaults new_token (block_or new_heartbeat c.heartbeat));
}
executor_defaults new_token api c = c
executor_defaults new_token tcp c = c
executor_defaults new_token process c = c
executor_defaults new_token command c = c
executor_defaults new_token log c = c
