-- ===== src/Ingest.antt =====
pub mod Result
pub mod Json
pub mod Parse
pub mod Store
pub mod Db
pub mod Resolve
pub mod News
pub mod Injuries
pub mod Transactions
pub mod Feed
pub mod Teams
pub mod Scoreboard
pub mod Nhl
pub mod Success
pub mod Endpoints
