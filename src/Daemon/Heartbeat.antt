-- ===== src/Daemon/Heartbeat.antt =====
-- crates/vb-daemon/src/lib.rs: what the heartbeat thread of `run_tcp_hid_daemon` puts into the outbox
-- in each round, while the board is connected.
use vibe_bridge.Base.{List, [], ◌∷◌, none, some}
use vibe_bridge.Core.{BoardSid, broadcast}
use vibe_bridge.Protocol.{Cmd}
use vibe_bridge.Transport.{HidMessage}
use vibe_bridge.Daemon.Agent.{Key, RegisteredAgent}
use vibe_bridge.Daemon.State.{BridgeDaemon, push_outbox}

abbrev pub beat : BoardSid → HidMessage
beat sid = record { cmd = Cmd.session_heartbeat; sid = sid; payload = [] }

-- One for each agent that has a session id.
unfoldable pub beats : List (Key × RegisteredAgent) → List HidMessage
beats [] = []
beats ((key, a) ∷ more) = elim a.board_sid [ none ↦ beats more | some sid ↦ beat sid ∷ beats more ]

unfoldable pub heartbeat_round : BridgeDaemon → BridgeDaemon
heartbeat_round d = push_outbox d (beat broadcast ∷ beats d.registered)
