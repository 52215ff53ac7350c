-- ===== src/FileStore.antt =====
-- The state that backend/internal/monitoring/store.go keeps in a file: its operations (Operations),
-- how memory and file agree (Reopen), checks as a map (Checks), retained results (Retention), and
-- the summary that service.go builds of a state (Summary, Tally, Counts).
pub mod Operations
pub mod Reopen
pub mod Checks
pub mod Retention
pub mod Summary
pub mod Tally
pub mod Counts
