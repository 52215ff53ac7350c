-- ===== src/Alerts.antt =====
-- backend/internal/monitoring/alert_rules.go: rules, their conditions, and the engine with its
-- cooldowns. The data types are those of types.go.
pub mod Rules
pub mod Conditions
pub mod Engine
pub mod Validation
pub mod ForIncidents
pub mod Expected
pub mod Cooldown
pub mod Defaults
pub mod Metrics
