-- ===== src/Outbox.antt =====
-- The notifications to send, backend/internal/monitoring/notify/outbox.go: the outbox and its
-- operations (Operations), and the life of one notification (Delivery).
pub mod Operations
pub mod Delivery
