-- ===== src/Automation.antt =====
-- Suggested actions that people approve or reject, backend/internal/monitoring/automation: the
-- engine's operations (Engine), sequences of them (Calls), what the audit log holds (Audited), and how often an action
-- waits in the queue (Pending), and late approvals (Late).
pub mod Engine
pub mod Calls
pub mod Audited
pub mod Pending
pub mod Late
