-- ===== src/Heartbeat.antt =====
-- Heartbeats, backend/internal/monitoring/check_heartbeat.go: the store of tokens and the check
-- (Pings), and what the store holds after any operations (Counts).
pub mod Pings
pub mod Counts
