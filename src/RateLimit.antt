-- ===== src/RateLimit.antt =====
-- The per-client limit on requests, backend/internal/httpx/ratelimit.go: the limiter and the two
-- handlers that ask it (Limiter), and how many requests it lets through (Quota).
pub mod Limiter
pub mod Quota
pub mod Steps
