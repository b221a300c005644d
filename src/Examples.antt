-- ===== src/Examples.antt =====
-- The theorems at concrete inputs.
mod Scheduler
mod Espn
mod Ingest
mod Jobs
mod Http
pub mod Feeds
pub mod Reads
mod Detail
mod Endpoints
