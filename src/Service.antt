-- ===== src/Service.antt =====
-- The part of backend/internal/monitoring/service.go that turns check results into incidents: it
-- ties the alert engine, the maintenance windows and the incident manager together.
pub mod Handler
pub mod Trackers
pub mod Thresholds
pub mod Recovery
