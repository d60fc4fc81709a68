-- ===== src/Daemon/State.antt =====
-- crates/vb-daemon/src/lib.rs: the daemon's state, and what its handlers answer.
use vibe_bridge.Base.{ℕ, List, [], ◌++◌, Option, none, Text}
use vibe_bridge.Base.Map.{insert}
use vibe_bridge.Core.{AgentActivity, BoardSid}
use vibe_bridge.Protocol.{Cmd}
use vibe_bridge.Transport.{HidMessage}
use vibe_bridge.Daemon.Agent.{Key, key_dec, RegisteredAgent}

-- `BridgeDaemon`, less its poller, whose answers are arguments of the operations that ask it.
pub record BridgeDaemon : Type 0 where
  pub registered : List (Key × RegisteredAgent)
  pub activities : List AgentActivity
  pub pending_board_sessions : List Key
  pub passive_missing_counts : List (Key × ℕ)
  pub board_outbox : List HidMessage
  pub focused_board_sid : Option BoardSid

-- `BridgeDaemon::new`.
unfoldable pub new_daemon : BridgeDaemon
new_daemon = record {
  registered = [];
  activities = [];
  pending_board_sessions = [];
  passive_missing_counts = [];
  board_outbox = [];
  focused_board_sid = none;
}

-- The error texts, by what they report.
pub data DaemonError : Type 0 where
  invalid_json : DaemonError
  missing_payload : Text → DaemonError
  unknown_message_type : Text → DaemonError
  unknown_agent_kind : Text → DaemonError
  unknown_parent_kind : DaemonError
  agent_id_required : DaemonError
  unknown_turn_role : Text → DaemonError
  data_hex_invalid : DaemonError
  no_registered_agent : Key → DaemonError
  poll_failed : Text → DaemonError
  response_with_sid_0 : DaemonError
  response_failed : ℕ → DaemonError
  response_without_pending : DaemonError
  pending_agent_disappeared : DaemonError
  permission_with_sid_0 : DaemonError
  invalid_permission_payload : DaemonError
  permission_unknown_sid : ℕ → DaemonError
  unsupported_board_message : Cmd → DaemonError

-- `Result<_, String>`.
pub data Result {ℓ} (A : Type ℓ) : Type ℓ where
  ok : A → Result A
  err : DaemonError → Result A

abbrev pub push_outbox : BridgeDaemon → List HidMessage → BridgeDaemon
push_outbox d msgs = record d { board_outbox = d.board_outbox ++ msgs }

-- The writes through `get_mut(&key)`, as one store of the changed agent.
abbrev pub put_agent : BridgeDaemon → Key → RegisteredAgent → BridgeDaemon
put_agent d key a = record d { registered = insert key_dec key a d.registered }
