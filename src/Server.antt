-- ===== src/Server.antt =====
-- internal/server: the HTTP layer.
pub mod Jobs
pub mod Queries
