-- ===== src/Redis.antt =====
-- internal/redis: the limiter of the redis client, and the client that reconnects.
pub mod Limiter
pub mod Client
pub mod Protocol
