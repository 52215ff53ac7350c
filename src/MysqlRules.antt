-- ===== src/MysqlRules.antt =====
-- backend/internal/monitoring/mysql_rules.go and the deltas of mysql_models.go: rules that open
-- after some breaches in a row and close after some recoveries in a row.
pub mod Samples
pub mod Engine
pub mod Streaks
pub mod Alternation
