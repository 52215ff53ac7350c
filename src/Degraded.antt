-- ===== src/Degraded.antt =====
-- backend/internal/monitoring/degraded_mode.go: the health of the database and the writes that are
-- turned away (Mode), and an outage from its first failed health check to its end (Outages).
pub mod Mode
pub mod Outages
