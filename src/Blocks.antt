-- ===== src/Blocks.antt =====
-- The settings of a check that only its type reads: backend/internal/monitoring/check_plugin_types.go,
-- MySQLCheckConfig and CheckRemediationConfig of types.go and SSHCheckConfig of ssh_collector.go.
use healthops.Prelude.{String, Bool, Option, List, ℤ}
use healthops.Prelude.Maps.{Map}

pub record SslCheckConfig : Type 0 where
  pub host : String
  pub port : ℤ
  pub server_name : String
  pub warning_days : ℤ
  pub critical_days : ℤ
  pub insecure_skip_verify : Bool

pub record DnsCheckConfig : Type 0 where
  pub name : String
  pub record_type : String
  pub resolver : String
  pub expected : List String
  pub must_not_contain : List String

pub record PingCheckConfig : Type 0 where
  pub host : String
  pub count : ℤ
  pub max_packet_loss_percent : ℤ
  pub max_avg_latency_ms : ℤ

pub record DomainCheckConfig : Type 0 where
  pub domain : String
  pub warning_days : ℤ
  pub critical_days : ℤ
  pub rdap_endpoint : String

pub record HeartbeatCheckConfig : Type 0 where
  pub token : String
  pub expected_interval_seconds : ℤ
  pub grace_seconds : ℤ

pub record MysqlCheckConfig : Type 0 where
  pub dsn_env : String
  pub host : String
  pub port : ℤ
  pub username : String
  pub password : String
  pub password_enc : String
  pub has_password : Bool
  pub database : String
  pub connect_timeout_seconds : ℤ
  pub query_timeout_seconds : ℤ
  pub processlist_limit : ℤ
  pub statement_limit : ℤ
  pub host_user_limit : ℤ

pub record SshCheckConfig : Type 0 where
  pub host : String
  pub port : ℤ
  pub user : String
  pub key_path : String
  pub key_env : String
  pub password : String
  pub password_enc : String
  pub password_env : String
  pub has_password : Bool
  pub host_key_fingerprint : String
  pub metrics : List String

pub record CheckRemediationConfig : Type 0 where
  pub type : String
  pub command : String
  pub url : String
  pub method : String
  pub headers : Option (Map String)
  pub timeout_seconds : ℤ
  pub risk : String
  pub description : String
  pub ssh : Option SshCheckConfig
  pub action_ref : String
  pub max_attempts : ℤ
  pub cooldown_seconds : ℤ
  pub consecutive_failures_required : ℤ
  pub verify_after_seconds : ℤ
  pub notify_on_remediation : Bool
  pub escalate_on_exhaustion : Bool
