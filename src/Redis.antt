-- ===== src/Redis.antt =====
-- The Redis backend (jobbackendprovider/redisprovider): its writes, its writer and its events.
pub mod Ops
pub mod Client
pub mod Execute
pub mod Partly
pub mod Writer
pub mod Kept
pub mod Turns
pub mod Runs
pub mod Deleting
pub mod Saves
pub mod Lasting
pub mod Delivered
pub mod Provider
pub mod Load
pub mod Loaded
pub mod Restart
pub mod Exists
pub mod Found
pub mod Mirror
pub mod Service
