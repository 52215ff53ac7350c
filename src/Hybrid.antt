-- ===== src/Hybrid.antt =====
-- The store over a file and MongoDB, backend/internal/monitoring/hybrid_store.go: its operations
-- (Operations), the MongoMirror of mongo.go (Mongo), what becomes of a deleted check (Deleted), and
-- the start (Startup).
pub mod Operations
pub mod Mongo
pub mod Deleted
pub mod Startup
