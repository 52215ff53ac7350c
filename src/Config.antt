-- ===== src/Config.antt =====
-- The configuration, backend/internal/monitoring/config.go and validation.go, and the defaults and
-- rules of each type of check, check_*.go: texts (Texts), types of checks (Executors, Rules),
-- loading (Load), secrets (Secrets, Sealed); that the defaults are safe to apply again (Defaults), what is accepted (Accepted), the
-- identifiers that are built (Slugs, Identifiers), and the API's writes of checks (Writes, Overwrites).
pub mod Texts
pub mod Executors
pub mod Rules
pub mod Load
pub mod Secrets
pub mod Sealed
pub mod Writes
pub mod Overwrites
pub mod Slugs
pub mod Defaults
pub mod Identifiers
pub mod Accepted
