-- ===== src/Maintenance.antt =====
-- backend/internal/monitoring/maintenance.go: windows of planned downtime and their store.
pub mod Window
pub mod Recurrence
pub mod Store
