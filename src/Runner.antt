-- ===== src/Runner.antt =====
-- backend/internal/monitoring/runner.go: what the samples of a MySQL check do to its incidents
-- (Mysql), how rules of one check share an incident (Shared), and a run of the checks (Once) with what
-- it leaves in the store (Appended).
pub mod Mysql
pub mod Once
pub mod Shared
pub mod Appended
