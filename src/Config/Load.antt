-- ===== src/Config/Load.antt =====
-- LoadConfig of backend/internal/monitoring/config.go on a decoded configuration: applyDefaults and
-- validate, of the configuration, its servers and its checks.
use healthops.Prelude.{
  ℕ, String, Bool, not, ◌&&◌, ◌||◌, Option, none, some, List, [], ◌∷◌, if◌then◌else◌, is_blank,
  text_or, mem_str, is_nil, ℤ, pos, suc, is_positive, ltb_ℤ, eqb_ℤ,
}
use healthops.Types.{CheckConfig, enabled_or_default}
use healthops.Config.Texts.{Library, NameError, validate_name, build_check_id}
use healthops.Config.Executors.{Executor, lookup_check_executor, executor_defaults, or_positive}
use healthops.Config.Rules.{RuleError, executor_validate}

pub record ServerConfig : Type 0 where
  pub addr : String
  pub read_timeout_seconds : ℤ
  pub write_timeout_seconds : ℤ
  pub idle_timeout_seconds : ℤ

pub record RemoteServer : Type 0 where
  pub id : String
  pub name : String
  pub host : String
  pub port : ℤ
  pub user : String
  pub key_path : String
  pub key_env : String
  pub password : String
  pub password_enc : String
  pub password_env : String
  pub enabled : Option Bool

pub record Config : Type 0 where
  pub server : ServerConfig
  pub retention_days : ℤ
  pub check_interval_seconds : ℤ
  pub workers : ℤ
  pub allow_command_checks : Bool
  pub servers : List RemoteServer
  pub checks : List CheckConfig

-- RemoteServer.applyDefaults
unfoldable pub server_defaults : RemoteServer → RemoteServer
server_defaults s = record s {
  port = or_positive 22 s.port;
  enabled = some (enabled_or_default s.enabled);
}

-- What CheckConfig.applyDefaults does before it calls the executor.
unfoldable pub common_defaults : Library → CheckConfig → CheckConfig
common_defaults lib c = record c {
  timeout_seconds = or_positive 5 c.timeout_seconds;
  expected_status = if eqb_ℤ c.expected_status (pos 0) then pos 200 else c.expected_status;
  enabled = some (enabled_or_default c.enabled);
  type = lib.to_lower (lib.trim_space c.type);
  server = text_or c.server "default";
  failures_to_open = or_positive 1 c.failures_to_open;
  successes_to_resolve = or_positive 1 c.successes_to_resolve;
}

abbrev pub run_executor : String → Option Executor → CheckConfig → CheckConfig
run_executor new_token none c = c
run_executor new_token (some x) c = executor_defaults new_token x c

-- CheckConfig.applyDefaults, with the token that a heartbeat check may get.
unfoldable pub check_defaults : Library → String → CheckConfig → CheckConfig
unfolding common_defaults
check_defaults lib new_token c =
    let c' = common_defaults lib c in run_executor new_token (lookup_check_executor c'.type) c'

-- The loop over the checks, with a new token for each by its place.
abbrev pub all_defaults : Library → (ℕ → String) → ℕ → List CheckConfig → List CheckConfig
all_defaults lib tokens n [] = []
all_defaults lib tokens n (c ∷ cs) =
    check_defaults lib (tokens n) c ∷ all_defaults lib tokens (suc n) cs

abbrev pub all_servers : List RemoteServer → List RemoteServer
all_servers [] = []
all_servers (s ∷ ss) = server_defaults s ∷ all_servers ss

unfoldable pub apply_defaults : Library → (ℕ → String) → Config → Config
unfolding server_defaults check_defaults
apply_defaults lib tokens c = record c {
  server = record {
    addr = text_or c.server.addr ":8080";
    read_timeout_seconds = or_positive 10 c.server.read_timeout_seconds;
    write_timeout_seconds = or_positive 10 c.server.write_timeout_seconds;
    idle_timeout_seconds = or_positive 60 c.server.idle_timeout_seconds;
  };
  retention_days = or_positive 7 c.retention_days;
  check_interval_seconds = or_positive 60 c.check_interval_seconds;
  workers = or_positive 8 c.workers;
  servers = all_servers c.servers;
  checks = all_defaults lib tokens 0 c.checks;
}

pub data ConfigError : Type 0 where
  bad_name : NameError → ConfigError
  no_host no_user no_auth : ConfigError
  no_server_id duplicate_server no_checks no_check_id duplicate_check unknown_server : ConfigError
  bad_interval bad_retry_count bad_retry_delay bad_cooldown unsupported_type : ConfigError
  bad_rule : RuleError → ConfigError

abbrev server_has_auth : RemoteServer → Bool
server_has_auth s =
    not (is_blank s.key_path)
    || not (is_blank s.key_env)
    || not (is_blank s.password)
    || not (is_blank s.password_enc)
    || not (is_blank s.password_env)

-- RemoteServer.validate
unfoldable pub validate_server : RemoteServer → Option ConfigError
unfolding validate_name
validate_server s = elim (validate_name s.name) [
  | some e ↦ some (bad_name e)
  | none ↦
      if is_blank s.host
      then some no_host
      else if is_blank s.user
      then some no_user
      else if server_has_auth s
      then none
      else some no_auth
]

-- CheckConfig.validate
unfoldable pub validate_check : Library → Bool → CheckConfig → Option ConfigError
unfolding validate_name lookup_check_executor executor_validate
validate_check lib allowed c = elim (validate_name c.name) [
  | some e ↦ some (bad_name e)
  | none ↦
      if is_positive c.interval_seconds && ltb_ℤ c.interval_seconds (pos 10)
      then some bad_interval
      else if ltb_ℤ c.retry_count (pos 0)
      then some bad_retry_count
      else if is_positive c.retry_count && ltb_ℤ c.retry_delay_seconds (pos 1)
      then some bad_retry_delay
      else if ltb_ℤ c.cooldown_seconds (pos 0)
      then some bad_cooldown
      else elim (lookup_check_executor c.type) [
        | none ↦ some unsupported_type
        | some x ↦ elim (executor_validate lib allowed x c) [
          | none ↦ none
          | some e ↦ some (bad_rule e)
        ]
      ]
]

-- The loop over the servers, after those with the identifiers `ids`: an error, or all identifiers.
pub data Servers : Type 0 where
  bad_servers : ConfigError → Servers
  server_ids : List String → Servers

unfoldable pub validate_servers : List String → List RemoteServer → Servers
unfolding validate_server
validate_servers ids [] = server_ids ids
validate_servers ids (s ∷ ss) =
    let rest = validate_servers (s.id ∷ ids) ss in
    if is_blank s.id
    then bad_servers no_server_id
    else if mem_str s.id ids
    then bad_servers duplicate_server
    else elim (validate_server s) [ some e ↦ bad_servers e | none ↦ rest ]

-- The identifier that a check has after the loop met it.
unfoldable pub with_id : Library → CheckConfig → CheckConfig
unfolding build_check_id
with_id lib c = record c { id = if is_blank c.id then build_check_id lib c else c.id }

-- The loop over the checks, after those with the identifiers `seen`: an error, or the checks with
-- their identifiers.
pub data Checks : Type 0 where
  bad_check : ConfigError → Checks
  good_checks : List CheckConfig → Checks

abbrev pub cons_check : CheckConfig → Checks → Checks
cons_check c (bad_check e) = bad_check e
cons_check c (good_checks cs) = good_checks (c ∷ cs)

unfoldable pub validate_checks :
    Library → Bool → List String → List String → List CheckConfig → Checks
unfolding with_id validate_check
validate_checks lib allowed servers seen [] = good_checks []
validate_checks lib allowed servers seen (c ∷ cs) =
    let c' = with_id lib c in
    let rest = validate_checks lib allowed servers (c'.id ∷ seen) cs in
    if is_blank c'.id
    then bad_check no_check_id
    else if mem_str c'.id seen
    then bad_check duplicate_check
    else if not (is_blank c'.server_id) && not (mem_str c'.server_id servers)
    then bad_check unknown_server
    else elim (validate_check lib allowed c') [ some e ↦ bad_check e | none ↦ cons_check c' rest ]

-- What LoadConfig makes of a decoded configuration.
pub data Loaded : Type 0 where
  config_error : ConfigError → Loaded
  loaded : Config → Loaded

unfoldable pub validate : Library → Config → Loaded
unfolding validate_servers validate_checks
validate lib c = elim (validate_servers [] c.servers) [
  | bad_servers e ↦ config_error e
  | server_ids ids ↦
      if is_nil c.checks
      then config_error no_checks
      else elim (validate_checks lib c.allow_command_checks ids [] c.checks) [
        | bad_check e ↦ config_error e
        | good_checks cs ↦ loaded (record c { checks = cs })
      ]
]

unfoldable pub load_config : Library → (ℕ → String) → Config → Loaded
unfolding apply_defaults validate
load_config lib tokens c = validate lib (apply_defaults lib tokens c)
