-- ===== src/Types.antt =====
-- The shared data of backend/internal/monitoring/types.go: check results, incidents, checks.
-- A `time.Time` is its nanoseconds since the zero time, so `IsZero` is `t == 0`; a `*bool` or a
-- `*time.Time` is an Option; float64 is the parameter `F`.
use healthops.Prelude.{ℕ, String, Bool, true, false, Option, none, some, List, ℤ, ◌==◌, ltb}
use healthops.Prelude.Maps.{Map}
use healthops.Blocks.{
  SslCheckConfig, DnsCheckConfig, PingCheckConfig, DomainCheckConfig, HeartbeatCheckConfig,
  MysqlCheckConfig, SshCheckConfig, CheckRemediationConfig,
}

abbrev pub Time : Type 0
Time = ℕ

abbrev pub is_zero : Time → Bool
is_zero t = t == 0

-- t.Before(u)
abbrev pub before : Time → Time → Bool
before t u = ltb t u

abbrev pub second : ℕ
second = 1_000_000_000

abbrev pub minute : ℕ
minute = 60_000_000_000

abbrev pub day : ℕ
day = 86_400_000_000_000

-- A nil map and a map.
abbrev pub Metadata : Type 0
Metadata = Option (Map String)

-- The incident's status: the three texts that the code writes, and any other.
pub data Status : Type 0 where
  open_status acknowledged resolved : Status
  other : String → Status

abbrev pub is_resolved : Status → Bool
is_resolved resolved = true
is_resolved open_status = false
is_resolved acknowledged = false
is_resolved (other s) = false

pub record Incident : Type 0 where
  pub id : String
  pub check_id : String
  pub check_name : String
  pub type : String
  pub status : Status
  pub severity : String
  pub message : String
  pub started_at : Time
  pub updated_at : Time
  pub resolved_at : Option Time
  pub acknowledged_at : Option Time
  pub acknowledged_by : String
  pub resolved_by : String
  pub metadata : Metadata

-- The fields of a check that the modelled code reads.
pub record CheckConfig : Type 0 where
  pub id : String
  pub name : String
  pub type : String
  pub server : String
  pub application : String
  pub interval_seconds : ℤ
  pub retry_count : ℤ
  pub retry_delay_seconds : ℤ
  pub cooldown_seconds : ℤ
  pub enabled : Option Bool
  pub tags : List String
  pub failures_to_open : ℤ
  pub successes_to_resolve : ℤ
  pub target : String
  pub host : String
  pub port : ℤ
  pub command : String
  pub path : String
  pub expected_status : ℤ
  pub timeout_seconds : ℤ
  pub freshness_seconds : ℤ
  pub server_id : String
  pub mysql : Option MysqlCheckConfig
  pub ssh : Option SshCheckConfig
  pub ssl : Option SslCheckConfig
  pub dns : Option DnsCheckConfig
  pub ping : Option PingCheckConfig
  pub domain : Option DomainCheckConfig
  pub heartbeat : Option HeartbeatCheckConfig
  pub remediation : Option CheckRemediationConfig

-- A nil pointer means enabled.
abbrev pub enabled_or_default : Option Bool → Bool
enabled_or_default none = true
enabled_or_default (some b) = b

abbrev pub is_enabled : CheckConfig → Bool
is_enabled c = enabled_or_default c.enabled

pub record CheckResult (F : Type 0) : Type 0 where
  pub id : String
  pub check_id : String
  pub name : String
  pub type : String
  pub server : String
  pub application : String
  pub status : String
  pub healthy : Bool
  pub message : String
  pub duration_ms : ℤ
  pub started_at : Time
  pub finished_at : Time
  pub metrics : Map F
  pub tags : List String
