-- ===== src/Router.antt =====
-- The evidence router (minority_prophet/evidence_router.py): its values and their checks, the plan
-- of dispatches, one dispatch, and what holds over any sequence of calls.
pub mod Types
pub mod Checks
pub mod Plan
pub mod Site
pub mod Dispatch
pub mod Collect
pub mod Grouped
pub mod Partition
pub mod Assigned
pub mod Caps
pub mod Accepted
pub mod Calls
pub mod Once
pub mod Unsent
pub mod Schedule
pub mod Permitted
pub mod Fresh
