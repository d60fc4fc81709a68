-- ===== src/Examples.antt =====
-- Runs of the definitions on concrete inputs.
pub mod Wire
pub mod Bridge
pub mod Cli
pub mod Host
