-- ===== src/Scheduler.antt =====
-- When checks run, backend/internal/monitoring/scheduler.go: the timers and the running loops
-- (Timers), one run of a check with its retries (Retry), the runs in a cooldown (Quiet), and saves
-- of a check (Loops).
pub mod Timers
pub mod Retry
pub mod Quiet
pub mod Loops
