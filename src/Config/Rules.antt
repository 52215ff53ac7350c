-- ===== src/Config/Rules.antt =====
-- The rules of the types of checks: Validate of the executors in
-- backend/internal/monitoring/check_*.go, and the host that ssl and ping checks go to.
use healthops.Prelude.{
  String, Bool, true, false, not, ◌&&◌, ◌||◌, Option, none, some, [], if◌then◌else◌, is_blank,
  text_or, mem_str, ◌∷◌, ℤ, is_positive, ltb_ℤ, List,
}
use healthops.Blocks.{DnsCheckConfig, SshCheckConfig, MysqlCheckConfig, HeartbeatCheckConfig}
use healthops.Types.{CheckConfig}
use healthops.Config.Texts.{Library}
use healthops.Config.Executors.{
  Executor, api, tcp, process, command, log, mysql, ssh, ssl, dns, ping, domain, heartbeat,
}

pub data RuleError : Type 0 where
  no_target no_port no_host no_command commands_disabled no_path no_freshness : RuleError
  no_block no_user no_auth no_name bad_record_type days_reversed no_interval : RuleError

-- `if bad { return error }` before the other rules.
abbrev reject : Bool → RuleError → Option RuleError → Option RuleError
reject true e rest = some e
reject false e rest = rest

abbrev field_or {ℓ} : {A : Type ℓ} → (A → String) → Option A → String
field_or f none = ""
field_or f (some b) = f b

-- parseHostFromTarget
unfoldable pub parse_host_from_target : Library → String → String
parse_host_from_target lib target =
    if is_blank target
    then ""
    else let plain : String = elim (lib.split_host target) [ none ↦ target | some host ↦ host ] in
      if lib.has_scheme target
      then elim (lib.url_hosts target) [
        | none ↦ plain
        | some (host, name) ↦ if is_blank host then plain else text_or name host
      ]
      else plain

-- resolveHost of the ssl and of the ping executor.
unfoldable pub ssl_host : Library → CheckConfig → String
unfolding parse_host_from_target
ssl_host lib c =
    text_or (text_or (field_or (λ b. b.host) c.ssl) c.host) (parse_host_from_target lib c.target)

unfoldable pub ping_host : CheckConfig → String
ping_host c = text_or (text_or (field_or (λ b. b.host) c.ping) c.host) c.target

abbrev record_types : List String
record_types = "A" ∷ "AAAA" ∷ "CNAME" ∷ "TXT" ∷ "MX" ∷ "NS" ∷ []

abbrev bad_type : Library → Option DnsCheckConfig → Bool
bad_type lib none = false
bad_type lib (some b) = not (mem_str (lib.to_upper b.record_type) record_types)

-- Of the key fields, and of the password fields, one is not blank.
abbrev has_auth : SshCheckConfig → Bool
has_auth b =
    not (is_blank b.key_path)
    || not (is_blank b.key_env)
    || not (is_blank b.password)
    || not (is_blank b.password_enc)
    || not (is_blank b.password_env)

abbrev validate_ssh : Option SshCheckConfig → Option RuleError
validate_ssh none = some no_block
validate_ssh (some b) =
    reject (is_blank b.host) no_host
      (reject (is_blank b.user) no_user (reject (not (has_auth b)) no_auth none))

abbrev validate_mysql : Option MysqlCheckConfig → Option RuleError
validate_mysql none = some no_block
validate_mysql (some b) =
    reject ((is_blank b.host || is_blank b.username) && is_blank b.dsn_env) no_auth none

abbrev reversed : {A : Type 0} → (A → ℤ) → (A → ℤ) → Option A → Bool
reversed critical warning none = false
reversed critical warning (some b) = ltb_ℤ (warning b) (critical b)

-- Validate of each executor.
abbrev validate_api : CheckConfig → Option RuleError
validate_api c = reject (is_blank c.target) no_target none

abbrev validate_tcp : CheckConfig → Option RuleError
validate_tcp c =
    reject (not (is_positive c.port)) no_port
      (reject (is_blank c.host && is_blank c.target) no_host none)

abbrev validate_process : CheckConfig → Option RuleError
validate_process c = reject (is_blank c.target) no_target none

abbrev validate_command : Bool → CheckConfig → Option RuleError
validate_command allowed c =
    reject (is_blank c.command) no_command (reject (not allowed) commands_disabled none)

abbrev validate_log : CheckConfig → Option RuleError
validate_log c =
    reject (is_blank c.path) no_path
      (reject (not (is_positive c.freshness_seconds)) no_freshness none)

unfoldable pub validate_ssl : Library → CheckConfig → Option RuleError
unfolding ssl_host
validate_ssl lib c =
    reject (is_blank (ssl_host lib c)) no_host
      (reject (reversed (λ b. b.critical_days) (λ b. b.warning_days) c.ssl) days_reversed none)

abbrev validate_dns : Library → CheckConfig → Option RuleError
validate_dns lib c =
    reject (is_blank (text_or (field_or (λ b. b.name) c.dns) c.target)) no_name
      (reject (bad_type lib c.dns) bad_record_type none)

unfoldable pub validate_ping : CheckConfig → Option RuleError
unfolding ping_host
validate_ping c = reject (is_blank (ping_host c)) no_host none

abbrev validate_domain : CheckConfig → Option RuleError
validate_domain c =
    reject (is_blank (text_or (field_or (λ b. b.domain) c.domain) c.target)) no_name
      (reject (reversed (λ b. b.critical_days) (λ b. b.warning_days) c.domain) days_reversed none)

abbrev validate_heartbeat : Option HeartbeatCheckConfig → Option RuleError
validate_heartbeat none = some no_block
validate_heartbeat (some b) =
    reject (not (is_positive b.expected_interval_seconds)) no_interval none

-- By executor, with whether the configuration allows command checks.
unfoldable pub executor_validate : Library → Bool → Executor → CheckConfig → Option RuleError
unfolding validate_ssl validate_ping
executor_validate lib allowed api c = validate_api c
executor_validate lib allowed tcp c = validate_tcp c
executor_validate lib allowed process c = validate_process c
executor_validate lib allowed command c = validate_command allowed c
executor_validate lib allowed log c = validate_log c
executor_validate lib allowed mysql c = validate_mysql c.mysql
executor_validate lib allowed ssh c = validate_ssh c.ssh
executor_validate lib allowed ssl c = validate_ssl lib c
executor_validate lib allowed dns c = validate_dns lib c
executor_validate lib allowed ping c = validate_ping c
executor_validate lib allowed domain c = validate_domain c
executor_validate lib allowed heartbeat c = validate_heartbeat c.heartbeat
