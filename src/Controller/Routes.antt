-- ===== src/Controller/Routes.antt =====
-- internal/controller/authz_routes.go: the classification of every route, and its lookup.
pub mod Rules
pub mod Table
pub mod Lookup
