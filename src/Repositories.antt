-- ===== src/Repositories.antt =====
-- The owner-scoped repositories: src/dext_competition/repositories.
pub mod Snapshots
pub mod Plans
pub mod History
mod Tests
