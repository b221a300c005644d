-- ===== src/Espn.antt =====
-- The ESPN client of infras/espn/espn.go: its configuration, the relay pool, and the retries.
pub mod Backoff
pub mod Relay
pub mod Request
pub mod Urls
