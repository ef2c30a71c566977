-- ===== src/Api.antt =====
-- The HTTP handlers of backend/app/api/router.py, each the body of its transaction.
pub mod Validation
pub mod Profile
pub mod Tags
pub mod NoteHandlers
pub mod Queries
pub mod Series
pub mod TrashGroups
