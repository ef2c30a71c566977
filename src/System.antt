-- ===== src/System.antt =====
-- The handlers and the jobs together, over the tables of backend/app/db/models.py: what every transaction
-- keeps, and what any sequence of them leads to.
pub mod Requests
mod Tests
pub mod Execution
pub mod Keeps
pub mod Effects
pub mod Reminders
pub mod Steps
pub mod Handlers
pub mod Series
pub mod Splitting
pub mod Jobs
pub mod History
