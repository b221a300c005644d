-- ===== src/Reads.antt =====
-- The read side: the lists behind the HTTP endpoints.
pub mod Ordering
pub mod Listing
pub mod Sql
pub mod Filters
pub mod Competitors
pub mod Events
pub mod Detail
pub mod Requests
