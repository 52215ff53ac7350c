-- ===== src/AiQueue.antt =====
-- The queue of incidents to analyse, backend/internal/monitoring/ai/queue.go: its items and its
-- operations (Items, Operations), what a claim returns (Claims), that an incident is never
-- queued twice and that memory and disk agree (Traces).
pub mod Items
pub mod Operations
pub mod Claims
pub mod Traces
