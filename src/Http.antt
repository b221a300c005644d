-- ===== src/Http.antt =====
pub mod Failure
pub mod Auth
pub mod Pages
pub mod Server
pub mod Limiter
