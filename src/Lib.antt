-- ===== src/Lib.antt =====
-- Healthops: checks of services, the rules that turn their results into alerts, and the incidents
-- that alerts open. This library models the core of the backend and proves what makes it correct.
--
-- How the parts interact. The scheduler runs each check with its retries and hands the results to
-- the service. The service counts failures and successes in a row, asks the alert engine for the
-- alerts of the results, and, outside of maintenance and past the thresholds, passes them to the
-- incident manager; a check that is healthy for long enough has its incident resolved. The manager
-- keeps its incidents in a repository, and queues them for analysis. MySQL samples go through
-- rules of their own. Requests from outside pass a rate limiter. The checks come from a configuration
-- that seeds the state file, and from requests, which store, schedule and register them; incidents
-- start remediations, which have guards and cooldowns of their own.
--
-- Which file models what (paths from the repository's root, under backend/internal):
--   Types, Alerts/Rules: monitoring/types.go, and IsEnabled of monitoring/config.go
--   Incidents/Repo: monitoring/incident_repository.go; create is CreateIncident, update is
--     UpdateIncident, find_open is FindOpenIncident
--   Incidents/Manager: monitoring/incident_manager.go; one function for each method
--   Incidents/Invariant, Traces, Final, Lifecycle, Opened: the repository's invariant, sequences of
--     operations, resolved incidents, each operation on its branches
--   Alerts/Conditions, Engine, Validation, Defaults: monitoring/alert_rules.go; evaluate_in is the
--     method evaluate, whose two Boolean arguments are a Mode; Expected says what it is to give
--   MysqlRules: monitoring/mysql_rules.go and monitoring/mysql_models.go
--   Calendar, Maintenance: monitoring/maintenance.go and what it uses of Go's time package
--   Service: handleAlertResults of monitoring/service.go and all that it calls
--   Scheduler: monitoring/scheduler.go; Timers has the timers and loops, Retry has runCheck,
--     and Quiet the runs during a cooldown
--   AiQueue: monitoring/ai/queue.go; Storage: util/jsonl/jsonl.go
--   Outbox: monitoring/notify/outbox.go; its data is the field events
--   Notify: monitoring/notify/dispatcher.go; Dispatcher has the filters of channels, cooldowns and
--     flushBatch, Rounds the calls around a flush, Sending sendToChannel, Digest sendDigest
--   Runner: monitoring/runner.go; Once has RunOnce, RunCheck and executeCheck, Mysql the incidents of
--     runMySQL
--   Degraded: monitoring/degraded_mode.go
--   RateLimit: httpx/ratelimit.go
--   Remediation: monitoring/remediation/engine.go and types.go; the guards are decide and
--     decide_manual, and execute is begin_attempt and finish_attempt, between which other calls may come;
--     Redact has redactAndCap, and Lowered its loop on ASCII
--   FileStore: monitoring/store.go, and the summaries of monitoring/service.go
--   Blocks, Config: monitoring/config.go, validation.go, secrets.go, the defaults and rules in
--     monitoring/check_*.go, and the requests of monitoring/service.go that write checks
--   Heartbeat: monitoring/check_heartbeat.go
--   Users: monitoring/users.go and monitoring/auth.go; Login has what a login's token opens
--   StatusPages: monitoring/status_page.go
--   Hybrid: monitoring/hybrid_store.go, over FileStore; Mongo has SyncState and ReadState of
--     monitoring/mongo.go over the calls of the MongoDB driver, which are parameters
--   Automation: monitoring/automation/engine.go and types.go
--   Prelude: lists, maps, text and Go's integers; Floats: float64 as a parameter
--   Scenarios: runs on concrete data, one module for each group of parts
--
-- State is passed explicitly. A method that holds a lock from its first line to its last is one
-- step. A map is a list of pairs, and its order stands for the order in which a range meets the
-- entries. An error is a value of a sum, without its text. A time is a number of nanoseconds from
-- Go's zero time. A call reads the clock once, and the reading is an argument. Whether a write of
-- a file succeeds is an argument too.
--
-- Bounds. Go's int and int64 are unbounded here: counters, durations and tokens that would overflow
-- 64 bits are not considered. The conversion to int32 of the number of remediations at once wraps. Loops recurse on their lists, on the number of attempts that are left,
-- or on how many items may still be claimed. The redaction of outputs has fuel, of which one more than
-- there are equals signs in a text of ASCII is enough; on other texts, where ToLower may change the
-- length, the code may panic at a slice that is out of range, which the model does not show.
-- The printing of decimals has fuel for twenty digits, more than a 64-bit number has.
--
-- Not modelled: float64 is a parameter with its operations, about which nothing is assumed but what
-- a theorem names; time zones with daylight saving time; log output; JSON; the MongoDB
-- repositories, the set-up of the MongoMirror and its dashboard, and all other calls of drivers and of
-- the network; the HTTP handlers but those that write checks and those of users; the executions of
-- checks and of remediations and the sending of notifications, whose answers are arguments;
-- analytics. What strings (ToLower, EqualFold), net and net/url do on Unicode, Encrypt, bcrypt,
-- HMAC, base64 and the answers of the AI are parameters.
pub mod Prelude
pub mod Floats
pub mod Types
pub mod AiQueue
pub mod Alerts
pub mod Automation
pub mod Blocks
pub mod Calendar
pub mod Config
pub mod Degraded
pub mod FileStore
pub mod Heartbeat
pub mod Hybrid
pub mod Incidents
pub mod Maintenance
pub mod MysqlRules
pub mod Notify
pub mod Outbox
pub mod RateLimit
pub mod Remediation
pub mod Runner
pub mod Scenarios
pub mod Scheduler
pub mod Service
pub mod StatusPages
pub mod Storage
pub mod Users
