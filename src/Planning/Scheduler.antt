-- ===== src/Planning/Scheduler.antt =====
-- planning/scheduler.py: the calendar ranges of the phases and the tasks that are placed in them.
mod Ranges
mod Placing
pub mod Partition
pub mod DueDate
pub mod Steps
pub mod Placement
pub mod Contents
pub mod Budget
unfoldable pub use Ranges.{allocate_ranges, available_due_date, eligible}
pub use Placing.{Progress, ScheduledPlan}
unfoldable pub use Placing.{optional_budget, schedule_plan}
