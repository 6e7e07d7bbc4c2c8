-- ===== src/Service.antt =====
-- service/service.go: the scheduler.
pub mod State
pub mod Scheduling
pub mod Create
pub mod Finish
pub mod Remove
pub mod Pull
pub mod Periodic
pub mod Restore
pub mod Calls
pub mod Invariant
pub mod Listing
pub mod Pages
pub mod Log
pub mod Shown
pub mod Logged
pub mod History
pub mod Locks
pub mod Changes
pub mod Steps
pub mod Ends
pub mod Preserve
pub mod Loops
pub mod Runs
pub mod Told
pub mod Deletes
pub mod Starts
pub mod Pulls
pub mod Creates
pub mod Retries
pub mod Ticks
pub mod Reach
pub mod Restored
pub mod Messages
pub mod Begun
pub mod Outcomes
pub mod Failures
