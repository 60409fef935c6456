-- ===== src/Journey.antt =====
-- What a client does with two services: it logs in at cmd/auth-service, and uses the token at another.
pub mod Token
pub mod Search
pub mod Transfer
