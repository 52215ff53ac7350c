-- ===== src/Config/Defaults.antt =====
-- applyDefaults of backend/internal/monitoring/config.go may be called again.
use healthops.Prelude.{
  ℕ, zero, suc, String, false, Option, none, some, ◌≡◌, refl, arith, is_blank, text_or, ℤ, pos,
  negsuc, eqb_ℤ, if◌then◌else◌, inl, inr, Option-cases, ◌∙◌, ap,
}
use healthops.Blocks.{
  SslCheckConfig, DnsCheckConfig, PingCheckConfig, DomainCheckConfig, HeartbeatCheckConfig,
  MysqlCheckConfig, SshCheckConfig,
}
use healthops.Types.{CheckConfig, enabled_or_default}
use healthops.Config.Texts.{Library}
use healthops.Config.Executors.{
  Executor, api, tcp, process, command, log, mysql, ssh, ssl, dns, ping, domain, heartbeat,
  lookup_check_executor, or_positive, mysql_defaults, ssh_defaults, executor_defaults, ssl_defaults,
  dns_defaults, ping_defaults, domain_defaults, heartbeat_defaults, mysql_block_defaults, block_or,
  mysql_with, ssh_with, new_ssl, new_dns, new_ping, new_domain, new_heartbeat,
}
use healthops.Config.Load.{common_defaults, run_executor, check_defaults}

or_positive-or_positive :
    (d e : ℕ) (z : ℤ) → or_positive d (or_positive (suc e) z) ≡ or_positive (suc e) z
or_positive-or_positive d e (pos zero) = refl
or_positive-or_positive d e (pos (suc n)) = refl
or_positive-or_positive d e (negsuc n) = refl

or_positive_idem :
    (d : ℕ) (z : ℤ) → or_positive (suc d) (or_positive (suc d) z) ≡ or_positive (suc d) z
or_positive_idem d (pos zero) = refl
or_positive_idem d (pos (suc n)) = refl
or_positive_idem d (negsuc n) = refl

status_idem :
    (z : ℤ)
    → let s = if eqb_ℤ z (pos 0) then pos 200 else z in (if eqb_ℤ s (pos 0) then pos 200 else s) ≡ s
status_idem z = ground arith

text_or_idem : (s d d' : String) → is_blank d ≡ false → text_or (text_or s d) d' ≡ text_or s d
text_or_idem String.[] String.[] d' h = ground (arith, h)
text_or_idem String.[] (String.◌∷◌ c d) d' h = refl
text_or_idem (String.◌∷◌ c s) d d' h = refl

ssl_defaults_idem : (b : SslCheckConfig) → ssl_defaults (ssl_defaults b) ≡ ssl_defaults b
unfolding ssl_defaults
ssl_defaults_idem b = λ i. record b {
  port = or_positive_idem 442 b.port i;
  warning_days = or_positive_idem 29 b.warning_days i;
  critical_days = or_positive_idem 6 b.critical_days i;
}

dns_defaults_idem : (b : DnsCheckConfig) → dns_defaults (dns_defaults b) ≡ dns_defaults b
unfolding dns_defaults
dns_defaults_idem b = λ i. record b { record_type = text_or_idem b.record_type "A" "A" refl i }

ping_defaults_idem : (b : PingCheckConfig) → ping_defaults (ping_defaults b) ≡ ping_defaults b
unfolding ping_defaults
ping_defaults_idem b = λ i. record b {
  count = or_positive_idem 2 b.count i;
  max_packet_loss_percent = or_positive_idem 49 b.max_packet_loss_percent i;
}

domain_defaults_idem :
    (b : DomainCheckConfig) → domain_defaults (domain_defaults b) ≡ domain_defaults b
unfolding domain_defaults
domain_defaults_idem b = λ i. record b {
  warning_days = or_positive_idem 29 b.warning_days i;
  critical_days = or_positive_idem 6 b.critical_days i;
}

heartbeat_defaults_idem :
    (t t' : String) (b : HeartbeatCheckConfig)
    → is_blank t ≡ false
    → heartbeat_defaults t' (heartbeat_defaults t b) ≡ heartbeat_defaults t b
unfolding heartbeat_defaults
heartbeat_defaults_idem t t' b h = λ i. record b {
  token = text_or_idem b.token t t' h i;
  grace_seconds = or_positive_idem 59 b.grace_seconds i;
}

mysql_block_defaults_idem :
    (b : MysqlCheckConfig) → mysql_block_defaults (mysql_block_defaults b) ≡ mysql_block_defaults b
unfolding mysql_block_defaults
mysql_block_defaults_idem b = λ i. record b {
  port = or_positive_idem 3305 b.port i;
  connect_timeout_seconds = or_positive_idem 2 b.connect_timeout_seconds i;
  query_timeout_seconds = or_positive_idem 4 b.query_timeout_seconds i;
  processlist_limit = or_positive_idem 49 b.processlist_limit i;
  statement_limit = or_positive_idem 19 b.statement_limit i;
  host_user_limit = or_positive_idem 19 b.host_user_limit i;
}

mysql_defaults_idem : (c : CheckConfig) → mysql_defaults (mysql_defaults c) ≡ mysql_defaults c
unfolding mysql_defaults
mysql_defaults_idem c = elim (Option-cases c.mysql) [
  | inl no_block ↦ ap mysql_defaults (ap (mysql_with c) no_block)
  | inr (b, block) ↦
      rw (block, mysql_defaults)
        (λ i. record c {
          mysql = some (mysql_block_defaults_idem b i);
          interval_seconds = or_positive_idem 14 c.interval_seconds i;
          timeout_seconds = or_positive_idem 9 c.timeout_seconds i;
        })
]

ssh_defaults_idem : (c : CheckConfig) → ssh_defaults (ssh_defaults c) ≡ ssh_defaults c
unfolding ssh_defaults
ssh_defaults_idem c = elim (Option-cases c.ssh) [
  | inl no_block ↦ ap ssh_defaults (ap (ssh_with c) no_block)
  | inr (b, block) ↦
      rw (block, ssh_defaults)
        (λ i. record c { ssh = some (record b { port = or_positive_idem 21 b.port i }) })
]

-- The same executor again, with another token.
executor_defaults_idem :
    (t t' : String) (x : Executor) (c : CheckConfig)
    → is_blank t ≡ false
    → executor_defaults t' x (executor_defaults t x c) ≡ executor_defaults t x c
unfolding executor_defaults
executor_defaults_idem t t' api c h = refl
executor_defaults_idem t t' tcp c h = refl
executor_defaults_idem t t' process c h = refl
executor_defaults_idem t t' command c h = refl
executor_defaults_idem t t' log c h = refl
executor_defaults_idem t t' mysql c h = mysql_defaults_idem c
executor_defaults_idem t t' ssh c h = ssh_defaults_idem c
executor_defaults_idem t t' ssl c h =
    ap (λ b. record c { ssl = some b }) (ssl_defaults_idem (block_or new_ssl c.ssl))
executor_defaults_idem t t' dns c h =
    ap (λ b. record c { dns = some b }) (dns_defaults_idem (block_or new_dns c.dns))
executor_defaults_idem t t' ping c h =
    ap (λ b. record c { ping = some b }) (ping_defaults_idem (block_or new_ping c.ping))
executor_defaults_idem t t' domain c h =
    ap (λ b. record c { domain = some b }) (domain_defaults_idem (block_or new_domain c.domain))
executor_defaults_idem t t' heartbeat c h =
    ap (λ b. record c { heartbeat = some b })
      (heartbeat_defaults_idem t t' (block_or new_heartbeat c.heartbeat) h)

common_defaults_idem :
    (lib : Library) (c : CheckConfig)
    → ((s : String)
        → lib.to_lower (lib.trim_space (lib.to_lower (lib.trim_space s)))
          ≡ lib.to_lower (lib.trim_space s))
    → common_defaults lib (common_defaults lib c) ≡ common_defaults lib c
unfolding common_defaults
common_defaults_idem lib c normal = λ i. record c {
  timeout_seconds = or_positive_idem 4 c.timeout_seconds i;
  expected_status = status_idem c.expected_status i;
  enabled = some (enabled_or_default c.enabled);
  type = normal c.type i;
  server = text_or_idem c.server "default" "default" refl i;
  failures_to_open = or_positive_idem 0 c.failures_to_open i;
  successes_to_resolve = or_positive_idem 0 c.successes_to_resolve i;
}

common_defaults-mysql_with :
    (lib : Library) (c : CheckConfig) (o : Option MysqlCheckConfig)
    → common_defaults lib c ≡ c
    → common_defaults lib (mysql_with c o) ≡ mysql_with c o
unfolding common_defaults
common_defaults-mysql_with lib c none h = h
common_defaults-mysql_with lib c (some b) h = λ i. record (h i) {
  mysql = some (mysql_block_defaults b);
  interval_seconds = or_positive 15 c.interval_seconds;
  timeout_seconds = or_positive-or_positive 5 9 c.timeout_seconds i;
}

common_defaults-ssh_with :
    (lib : Library) (c : CheckConfig) (o : Option SshCheckConfig)
    → common_defaults lib c ≡ c
    → common_defaults lib (ssh_with c o) ≡ ssh_with c o
unfolding common_defaults
common_defaults-ssh_with lib c none h = h
common_defaults-ssh_with lib c (some b) h =
    ap {A = CheckConfig} (λ d. record d { ssh = some (record b { port = or_positive 22 b.port }) })
      h

-- The executor's defaults leave what the common ones have set.
common_defaults-executor_defaults :
    (lib : Library) (t : String) (x : Executor) (c : CheckConfig)
    → common_defaults lib c ≡ c
    → common_defaults lib (executor_defaults t x c) ≡ executor_defaults t x c
unfolding common_defaults executor_defaults mysql_defaults ssh_defaults
common_defaults-executor_defaults lib t api c h = h
common_defaults-executor_defaults lib t tcp c h = h
common_defaults-executor_defaults lib t process c h = h
common_defaults-executor_defaults lib t command c h = h
common_defaults-executor_defaults lib t log c h = h
common_defaults-executor_defaults lib t mysql c h = common_defaults-mysql_with lib c c.mysql h
common_defaults-executor_defaults lib t ssh c h = common_defaults-ssh_with lib c c.ssh h
common_defaults-executor_defaults lib t ssl c h =
    ap {A = CheckConfig} (λ d. record d { ssl = some (ssl_defaults (block_or new_ssl c.ssl)) }) h
common_defaults-executor_defaults lib t dns c h =
    ap {A = CheckConfig} (λ d. record d { dns = some (dns_defaults (block_or new_dns c.dns)) }) h
common_defaults-executor_defaults lib t ping c h =
    ap {A = CheckConfig} (λ d. record d { ping = some (ping_defaults (block_or new_ping c.ping)) })
      h
common_defaults-executor_defaults lib t domain c h =
    ap {A = CheckConfig}
      (λ d. record d { domain = some (domain_defaults (block_or new_domain c.domain)) }) h
common_defaults-executor_defaults lib t heartbeat c h =
    ap {A = CheckConfig}
      (λ d. record d {
        heartbeat = some (heartbeat_defaults t (block_or new_heartbeat c.heartbeat));
      })
      h

executor_defaults-type :
    (t : String) (x : Executor) (c : CheckConfig) → (executor_defaults t x c).type ≡ c.type
unfolding executor_defaults mysql_defaults ssh_defaults
executor_defaults-type t mysql c = ground arith
executor_defaults-type t ssh c = ground arith
executor_defaults-type t api c = refl
executor_defaults-type t tcp c = refl
executor_defaults-type t process c = refl
executor_defaults-type t command c = refl
executor_defaults-type t log c = refl
executor_defaults-type t ssl c = refl
executor_defaults-type t dns c = refl
executor_defaults-type t ping c = refl
executor_defaults-type t domain c = refl
executor_defaults-type t heartbeat c = refl

-- The same, for a type that may have no executor.
run_executor-settled :
    (lib : Library) (t t' : String) (o : Option Executor) (c : CheckConfig)
    → common_defaults lib c ≡ c
    → is_blank t ≡ false
    → let d = run_executor t o c in
      (common_defaults lib d ≡ d) × (d.type ≡ c.type) × (run_executor t' o d ≡ d)
run_executor-settled lib t t' none c settled h = (settled, refl, refl)
run_executor-settled lib t t' (some x) c settled h = (
  common_defaults-executor_defaults lib t x c settled,
  executor_defaults-type t x c,
  executor_defaults_idem t t' x c h,
)

-- The defaults of a check, applied again, change nothing, and a heartbeat check keeps the token that
-- it got, where a text in lower case and without space around it is one for which ToLower and
-- TrimSpace change nothing.
check_defaults_idem :
    (lib : Library) (t t' : String) (c : CheckConfig)
    → ((s : String)
        → lib.to_lower (lib.trim_space (lib.to_lower (lib.trim_space s)))
          ≡ lib.to_lower (lib.trim_space s))
    → is_blank t ≡ false
    → check_defaults lib t' (check_defaults lib t c) ≡ check_defaults lib t c
unfolding check_defaults
check_defaults_idem lib t t' c normal h =
    let c' = common_defaults lib c in
    let same = common_defaults_idem lib c normal in
    let o = lookup_check_executor c'.type in
    let d = run_executor t o c' in
    let (settled, type, again) = run_executor-settled lib t t' o c' same h in
    ap (λ b. run_executor t' (lookup_check_executor b.type) b) settled
    ∙ ap (λ k. run_executor t' (lookup_check_executor k) d) type
    ∙ again

mysql_with-timeout :
    (c : CheckConfig) (o : Option MysqlCheckConfig) (e : ℕ) (z : ℤ)
    → c.timeout_seconds ≡ or_positive (suc e) z
    → (mysql_with c o).timeout_seconds ≡ or_positive (suc e) z
mysql_with-timeout c none e z h = h
mysql_with-timeout c (some b) e z h = ap (or_positive 10) h ∙ or_positive-or_positive 10 e z

executor_defaults-timeout :
    (t : String) (x : Executor) (c : CheckConfig) (e : ℕ) (z : ℤ)
    → c.timeout_seconds ≡ or_positive (suc e) z
    → (executor_defaults t x c).timeout_seconds ≡ or_positive (suc e) z
unfolding executor_defaults mysql_defaults ssh_defaults
executor_defaults-timeout t mysql c e z h = mysql_with-timeout c c.mysql e z h
executor_defaults-timeout t ssh c e z h = ground (arith, h)
executor_defaults-timeout t api c e z h = h
executor_defaults-timeout t tcp c e z h = h
executor_defaults-timeout t process c e z h = h
executor_defaults-timeout t command c e z h = h
executor_defaults-timeout t log c e z h = h
executor_defaults-timeout t ssl c e z h = h
executor_defaults-timeout t dns c e z h = h
executor_defaults-timeout t ping c e z h = h
executor_defaults-timeout t domain c e z h = h
executor_defaults-timeout t heartbeat c e z h = h

-- A check without a positive timeout gets one of 5 seconds, whatever its type: the 10 seconds that
-- the defaults of mysql checks are to give are never given.
check_defaults-timeout :
    (lib : Library) (t : String) (c : CheckConfig)
    → (check_defaults lib t c).timeout_seconds ≡ or_positive 5 c.timeout_seconds
unfolding check_defaults common_defaults
check_defaults-timeout lib t c =
    let c' = common_defaults lib c in
    elim (Option-cases (lookup_check_executor c'.type)) [
      | inl unknown ↦ ap (λ o. (run_executor t o c').timeout_seconds) unknown
      | inr (x, found) ↦
          ap (λ o. (run_executor t o c').timeout_seconds) found
          ∙ executor_defaults-timeout t x c' 4 c.timeout_seconds refl
    ]
