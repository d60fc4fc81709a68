-- ===== src/Daemon.antt =====
-- crates/vb-daemon/src/lib.rs: the bridge daemon.
pub mod Hex
pub mod Terminal
pub mod Agent
pub mod State
pub mod Board
pub mod Envelope
pub mod Requests
pub mod TerminalStream
pub mod Dispatch
pub mod Passive
pub mod Heartbeat
pub mod Outbox
pub mod Invariant
pub mod History
pub mod Behaviour
