-- ===== src/Jobs.antt =====
-- The background jobs of backend/app/jobs.
pub mod Claim
pub mod Authorize
pub mod Deliver
pub mod Outbox
pub mod Maintenance
mod Tests
