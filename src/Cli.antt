-- ===== src/Cli.antt =====
-- crates/vb-daemon/src/main.rs: the parts of the command line program that only compute.
pub mod Base64
pub mod Quote
pub mod Words
pub mod Jsonc
pub mod Args
pub mod Log
pub mod Wsl
pub mod Names
pub mod Profile
