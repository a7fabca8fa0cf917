-- ===== src/Transport.antt =====
-- cirque-server: who may connect, and how fast a client is listened to.
pub mod Throttler
pub mod Limiter
