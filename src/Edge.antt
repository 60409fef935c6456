-- ===== src/Edge.antt =====
-- cmd/edge-service: the security service edge.
pub mod Abuse
pub mod Middleware
pub mod Server
