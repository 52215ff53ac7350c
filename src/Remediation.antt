-- ===== src/Remediation.antt =====
-- Automatic remediation, backend/internal/monitoring/remediation: its data (Data), the guards
-- (Guards) and the execution of an attempt (Engine), the redaction of outputs (Redact, Lowered,
-- Occurrences, Redaction), and what bounds the attempts (Cooldown, Attempts, Races).
pub mod Data
pub mod Redact
pub mod Lowered
pub mod Guards
pub mod Engine
pub mod Attempts
pub mod Cooldown
pub mod Races
pub mod Occurrences
pub mod Redaction
