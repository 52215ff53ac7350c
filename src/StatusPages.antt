-- ===== src/StatusPages.antt =====
-- Status pages, backend/internal/monitoring/status_page.go and status_page_api.go: the store of
-- pages (Store), that their slugs are unique (Pages, Slugs), and what goes wrong with identifiers and with
-- refused updates (Lost).
pub mod Store
pub mod Pages
pub mod Slugs
pub mod Lost
