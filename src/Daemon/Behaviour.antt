-- ===== src/Daemon/Behaviour.antt =====
-- What the operations of crates/vb-daemon/src/lib.rs do to the daemon, as their callers see it.
pub mod Counts
pub mod Pruning
pub mod Sessions
pub mod Permissions
pub mod Registration
pub mod Discovery
pub mod Streams
pub mod Messages
pub mod Snapshot
