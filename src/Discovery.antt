-- ===== src/Discovery.antt =====
-- crates/vb-host/src/agent_discovery.rs: the agents' transcripts, read line by line. A transcript is
-- a text of JSON lines; parsing one belongs to the JSON library and is a parameter.
pub mod Status
pub mod Metadata
pub mod Turns
pub mod Poller
pub mod Active
