-- ===== src/Scenarios.antt =====
-- Runs of the modelled code on concrete data, at which the theorems with conditions are applied.
pub mod Numbers
pub mod Incidents
pub mod Alerts
pub mod Mysql
pub mod Windows
pub mod Runs
pub mod Samples
pub mod Outages
pub mod Sweeps
pub mod Queues
pub mod Ticks
pub mod Notices
pub mod Repairs
pub mod States
pub mod Settings
pub mod Accounts
pub mod Pages
pub mod Mirror
pub mod Suggestions
