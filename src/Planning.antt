-- ===== src/Planning.antt =====
-- Preparation plans: src/dext_competition/planning and src/dext_competition/contracts/plan.py.
pub mod Types
pub mod Card
pub mod Templates
pub mod Scheduler
pub mod Validation
pub mod Generator
mod Tests
