-- ===== src/Daemon/TerminalStream.antt =====
-- crates/vb-daemon/src/lib.rs: "terminal.stream" of `handle_json_line`, the bytes of a terminal.
use vibe_bridge.Base.{
  ℕ, Bool, false, not, ◌&&◌, List, [], ◌∷◌, none, some, Text, is_empty, if◌then◌else◌,
}
use vibe_bridge.Base.Map.{lookup, contains_key, keys_where}
use vibe_bridge.Protocol.{Cmd}
use vibe_bridge.Daemon.Hex.{hex_decode}
use vibe_bridge.Daemon.Terminal.{append_terminal_bytes}
use vibe_bridge.Daemon.Agent.{Key, key_dec, RegisteredAgent, sid_eq, is_some}
use vibe_bridge.Daemon.State.{
  BridgeDaemon, ok, err, no_registered_agent, data_hex_invalid, push_outbox, put_agent,
}
use vibe_bridge.Daemon.Board.{key_eq}
use vibe_bridge.Daemon.Requests.{Reply, terminal_stream_accepted, sid_or_broadcast}

-- The bytes reach one agent: they join its buffer, and go to the board at once if it is focused.
unfoldable pub mirror_to : List ℕ → BridgeDaemon → Key → BridgeDaemon
mirror_to bytes d key = elim (lookup key_dec key d.registered) [
  | none ↦ d
  | some a ↦
      let updated = record a { terminal = append_terminal_bytes a.terminal bytes } in
      let live =
        if is_some a.board_sid && sid_eq a.board_sid d.focused_board_sid
        then record { cmd = Cmd.vt100_stream; sid = sid_or_broadcast a.board_sid; payload = bytes }
          ∷ []
        else [] in
      push_outbox (put_agent d key updated) live
]

unfoldable pub mirror_all : List ℕ → BridgeDaemon → List Key → BridgeDaemon
mirror_all bytes d [] = d
mirror_all bytes d (key ∷ keys) = mirror_all bytes (mirror_to bytes d key) keys

abbrev pub is_attached_to : Key → Key → RegisteredAgent → Bool
is_attached_to key attached_key a = elim a.attached_terminal [
  | none ↦ false
  | some parent ↦ key_eq parent key
]

unfoldable pub stream_bytes : BridgeDaemon → Key → List ℕ → Reply
stream_bytes d key bytes =
    if not (contains_key key_dec key d.registered)
    then (d, err (no_registered_agent key))
    else if is_empty bytes
    then (d, ok terminal_stream_accepted)
    else (
      mirror_all bytes d (key ∷ keys_where (is_attached_to key) d.registered),
      ok terminal_stream_accepted,
    )

-- "terminal.stream".
unfoldable pub terminal_stream : BridgeDaemon → Key → Text → Reply
unfolding stream_bytes
terminal_stream d key data_hex = elim (hex_decode data_hex) [
  | none ↦ (d, err data_hex_invalid)
  | some bytes ↦ stream_bytes d key bytes
]
