-- ===== src/Daemon/Agent/Messages.antt =====
-- crates/vb-daemon/src/lib.rs: the messages that tell the board about an agent. Each wants a board
-- session, `agent.board_sid?`.
use vibe_bridge.Base.{
  ℕ, Bool, ◌&&◌, List, [], ◌∷◌, ◌++◌, Option, none, some, Text, codes, is_empty, last?, ◌==◌,
  if◌then◌else◌,
}
use vibe_bridge.Core.{
  AgentKind, AgentStatus, BoardSid, TokenUsage, ConversationTurn, PermissionRequest,
  PermissionDecision, TurnRole,
}
use vibe_bridge.Core.Labels.{agent_kind_as_str}
use vibe_bridge.Protocol.{
  Cmd, SessionStateByte, session_state_byte, TurnRoleByte, PermissionDecisionByte,
}
use vibe_bridge.Protocol.Payloads.{
  encode_agent_meta, encode_token_usage, encode_turn_append, encode_permission_request,
}
use vibe_bridge.Transport.{HidMessage}
use vibe_bridge.Daemon.Terminal.{terminal_snapshot}
use vibe_bridge.Daemon.Agent.{RegisteredAgent, is_some}

unfoldable pub agent_kind_byte : AgentKind → ℕ
agent_kind_byte AgentKind.claude = 0
agent_kind_byte AgentKind.codex = 1
agent_kind_byte AgentKind.terminal = 0xFF
agent_kind_byte AgentKind.unknown = 0xFF

unfoldable pub status_byte : AgentStatus → SessionStateByte
status_byte AgentStatus.running = SessionStateByte.run
status_byte AgentStatus.waiting_input = SessionStateByte.wait
status_byte AgentStatus.idle = SessionStateByte.connected
status_byte AgentStatus.done = SessionStateByte.done
status_byte AgentStatus.error = SessionStateByte.error
status_byte AgentStatus.unknown = SessionStateByte.connected

unfoldable pub turn_role_byte : TurnRole → TurnRoleByte
turn_role_byte TurnRole.user = TurnRoleByte.user
turn_role_byte TurnRole.assistant = TurnRoleByte.assistant
turn_role_byte TurnRole.tool = TurnRoleByte.tool
turn_role_byte TurnRole.system = TurnRoleByte.system

unfoldable pub permission_decision_from_byte : PermissionDecisionByte → PermissionDecision
permission_decision_from_byte PermissionDecisionByte.allow = PermissionDecision.allow
permission_decision_from_byte PermissionDecisionByte.deny = PermissionDecision.deny
permission_decision_from_byte PermissionDecisionByte.always = PermissionDecision.always

-- `Some(HidMessage { cmd, sid: agent.board_sid?.raw(), payload })`.
abbrev pub message_to : Option BoardSid → Cmd → List ℕ → Option HidMessage
message_to none cmd payload = none
message_to (some sid) cmd payload = some (record { cmd = cmd; sid = sid; payload = payload })

-- `if let Some(msg) = .. { out.push(msg) }`.
abbrev pub push_some : Option HidMessage → List HidMessage
push_some none = []
push_some (some msg) = msg ∷ []

unfoldable pub meta_message_for_agent : RegisteredAgent → Option HidMessage
meta_message_for_agent a =
    message_to a.board_sid Cmd.agent_meta (encode_agent_meta (agent_kind_byte a.kind) a.cwd [])

unfoldable pub status_message_for_agent : RegisteredAgent → Option HidMessage
status_message_for_agent a =
    message_to a.board_sid Cmd.status_update (session_state_byte (status_byte a.status) ∷ [])

is_default_usage : TokenUsage → Bool
is_default_usage u = u.input == 0 && u.output == 0 && u.cost_cents == 0

unfoldable pub token_message_for_agent : RegisteredAgent → Option HidMessage
unfolding is_default_usage
token_message_for_agent a =
    if is_default_usage a.usage
    then none
    else message_to a.board_sid Cmd.token_usage (encode_token_usage a.usage)

unfoldable pub turn_message_for_agent : RegisteredAgent → ConversationTurn → Option HidMessage
turn_message_for_agent a turn =
    message_to a.board_sid Cmd.turn_append (encode_turn_append (turn_role_byte turn.role) turn.text)

unfoldable pub permission_message_for_agent :
    RegisteredAgent → PermissionRequest → Option HidMessage
permission_message_for_agent a p =
    message_to a.board_sid Cmd.permission_req
      (encode_permission_request p.req_id p.tool p.args_summary)

unfoldable pub permission_messages : RegisteredAgent → List PermissionRequest → List HidMessage
permission_messages a [] = []
permission_messages a (p ∷ ps) =
    push_some (permission_message_for_agent a p) ++ permission_messages a ps

-- The last turn, which is sent for launched agents only.
unfoldable pub last_turn_message : RegisteredAgent → Option HidMessage
last_turn_message a =
    if a.from_launch
    then elim (last? a.turns) [ none ↦ none | some turn ↦ turn_message_for_agent a turn ]
    else none

unfoldable pub board_sync_messages : RegisteredAgent → List HidMessage
unfolding permission_messages last_turn_message
board_sync_messages a =
    push_some (meta_message_for_agent a)
    ++ (push_some (status_message_for_agent a)
        ++ (push_some (token_message_for_agent a)
            ++ (push_some (last_turn_message a) ++ permission_messages a a.pending_permissions)))

-- `b"\\x1b[2J\\x1b[H"`.
abbrev pub screen_clear : List ℕ
screen_clear = 0x1B ∷ (codes "[2J" ++ (0x1B ∷ codes "[H"))

-- An SGR sequence, `\\x1b[..m`.
abbrev sgr : Text → Text
sgr style = 0x1B ∷ b'[' ∷ (style ++ codes "m")

abbrev crlf : Text
crlf = 0x0D ∷ 0x0A ∷ []

unfoldable pub render_passive_placeholder : RegisteredAgent → Text
render_passive_placeholder a =
    let reset = sgr (codes "0") in
    let dim = sgr (codes "90") in
    let name = if is_empty a.name then a.agent_id else a.name in
    sgr (codes "1")
    ++ (sgr (codes "36")
        ++ (agent_kind_as_str a.kind
            ++ (reset
                ++ (codes "  "
                    ++ (sgr (codes "33")
                        ++ (name
                            ++ (reset
                                ++ (crlf
                                    ++ (dim
                                        ++ (codes
                                              "No live terminal capture for this passive session."
                                            ++ (reset
                                                ++ (crlf
                                                    ++ (dim
                                                        ++ (codes
                                                            "Open a Vibe-captured Windows Terminal profile for 1:1 replay."
                                                            ++ (reset ++ crlf)))))))))))))))

-- What is shown of an agent without any captured bytes.
replay_without_bytes : RegisteredAgent → Option HidMessage
replay_without_bytes a =
    if is_some a.attached_terminal
    then none
    else if a.from_launch
    then message_to a.board_sid Cmd.vt100_stream screen_clear
    else message_to a.board_sid Cmd.vt100_stream (screen_clear ++ render_passive_placeholder a)

unfoldable pub terminal_replay_message_for_agent : RegisteredAgent → Option HidMessage
unfolding replay_without_bytes
terminal_replay_message_for_agent a =
    let snapshot = terminal_snapshot a.terminal in
    if is_empty snapshot
    then replay_without_bytes a
    else message_to a.board_sid Cmd.vt100_stream (screen_clear ++ snapshot)
