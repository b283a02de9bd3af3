-- ===== src/Server.antt =====
-- services/jrip-server: the HTTP server in front of the repository.
pub mod Authorization
