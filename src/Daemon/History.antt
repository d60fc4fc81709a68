-- ===== src/Daemon/History.antt =====
-- All that can happen to the daemon of crates/vb-daemon/src/lib.rs. Its threads take turns under one
-- lock, so that a history is a list of events, each the work that a thread does while it holds the
-- lock; a flush of the outbox is an event of its own.
pub mod Consistent
use vibe_bridge.Base.{List, [], ◌∷◌, Option, Text, trim}
use vibe_bridge.Core.{AgentSession}
use vibe_bridge.Transport.{HidTransport, HidMessage}
use vibe_bridge.Daemon.State.{BridgeDaemon, Result, new_daemon}
use vibe_bridge.Daemon.Board.{handle_board_message}
use vibe_bridge.Daemon.Envelope.{RegistrationEnvelope}
use vibe_bridge.Daemon.Dispatch.{Polled, handle_json_line}
use vibe_bridge.Daemon.Passive.{
  DiscoveredTurn, ingest_discovered_turns, prune_missing_passive_sessions,
  register_discovered_sessions,
}
use vibe_bridge.Daemon.Heartbeat.{heartbeat_round}
use vibe_bridge.Daemon.Outbox.{flush_board_outbox}

-- `W` is the state of the outside world, which a flush meets.
pub data Event (W : Type 0) : Type 0 where
  -- A client's line, and what the poller would answer (`handle_client_shared`).
  line : Text → Result Polled → Event W
  -- What the board sent.
  board : HidMessage → Event W
  heartbeat : Event W
  -- A round of the discovery thread.
  discovered : List AgentSession → List DiscoveredTurn → Event W
  flush : W → Event W

-- The discovery thread's calls, in their order.
unfoldable pub discovery_round :
    BridgeDaemon → List AgentSession → List DiscoveredTurn → BridgeDaemon
discovery_round d sessions turns =
    let registered = (register_discovered_sessions d sessions).0 in
    let ingested = (ingest_discovered_turns registered turns).0 in
    (prune_missing_passive_sessions ingested sessions).0

module _ {W : Type 0} (parse : Text → Option RegistrationEnvelope) (hid : HidTransport W) where
  unfoldable pub step : BridgeDaemon → Event W → BridgeDaemon
  step d (line text polled) = (handle_json_line parse d polled (trim text)).0
  step d (board msg) = (handle_board_message d msg).0
  step d heartbeat = heartbeat_round d
  step d (discovered sessions turns) = discovery_round d sessions turns
  step d (flush w) = (flush_board_outbox hid d w).0

  unfoldable pub run : BridgeDaemon → List (Event W) → BridgeDaemon
  run d [] = d
  run d (e ∷ es) = run (step d e) es
