-- ===== src/Transport.antt =====
-- crates/vb-transport/src/lib.rs: one HID message, and what can go wrong in sending it.
pub mod Windows
use vibe_bridge.Base.{ℕ, Bool, List, Option, Text}
use vibe_bridge.Protocol.{Cmd}

pub record HidMessage : Type 0 where
  pub cmd : Cmd
  pub sid : ℕ
  pub payload : List ℕ

pub data TransportError : Type 0 where
  not_connected : TransportError
  io : Text → TransportError
  decode : Text → TransportError
  timeout : TransportError

pub record HidTransport (W : Type 0) : Type 0 where
  pub is_connected : W → Bool
  -- The answer of `send`, `none` for `Ok(())`, and the world after it.
  pub send : HidMessage → W → Option TransportError × W
