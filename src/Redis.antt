-- ===== src/Redis.antt =====
-- internal/redis/client.go: the cache of real-time counters.
pub mod Cache
pub mod Server
pub mod Keys
pub mod Percentile
pub mod Client
pub mod Mock
