-- ===== src/Users.antt =====
-- Users and what their requests may do, backend/internal/monitoring/users.go and auth.go: the store
-- (Store), which users and administrators there are after any calls (Admins, Names), tokens
-- (Tokens, Signed), the guard of the API (Access, Guarded), and the handlers (Handlers, Login).
pub mod Store
pub mod Names
pub mod Admins
pub mod Tokens
pub mod Signed
pub mod Access
pub mod Guarded
pub mod Handlers
pub mod Login
