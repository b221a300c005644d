-- ===== src/Scheduler.antt =====
pub mod Fanout
pub mod Jobs
pub mod Worker
