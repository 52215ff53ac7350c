-- ===== src/Incidents.antt =====
-- backend/internal/monitoring/incident_manager.go and incident_repository.go: the life of an
-- incident. `Repo` is the in-memory store and `Manager` the operations over it.
pub mod Opened
pub mod Repo
pub mod Manager
pub mod Invariant
pub mod Lifecycle
pub mod Traces
pub mod Final
