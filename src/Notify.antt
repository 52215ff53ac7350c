-- ===== src/Notify.antt =====
-- Who is told of an incident, backend/internal/monitoring/notify/dispatcher.go: the filters of the
-- channels, what is remembered of notifications and the flush of a batch (Dispatcher), how often a
-- channel is told of an incident (Once), and the calls around a flush (Rounds); what is written down
-- of a notification (Sending), of a digest (Digest) and of a whole flush (Trail).
pub mod Digest
pub mod Dispatcher
pub mod Once
pub mod Rounds
pub mod Sending
pub mod Trail
