-- ===== src/Backend.antt =====
-- The backends (jobbackendprovider): the in-memory one, its file, and the writer of the Redis one.
pub mod Files
pub mod InMemory
pub mod Stored
pub mod Mirror
pub mod Saved
pub mod Restarted
pub mod Cycle
pub mod Synced
