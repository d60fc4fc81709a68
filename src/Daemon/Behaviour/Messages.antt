-- ===== src/Daemon/Behaviour/Messages.antt =====
-- What crates/vb-daemon/src/lib.rs tells the board of an agent.
use vibe_bridge.Base.{◌≡◌, List, [], ◌∷◌, some, All, All-append, arith}
use vibe_bridge.Core.{BoardSid, PermissionRequest}
use vibe_bridge.Transport.{HidMessage}
use vibe_bridge.Daemon.Agent.{RegisteredAgent}
use vibe_bridge.Daemon.Agent.Messages.{
  push_some, meta_message_for_agent, status_message_for_agent, token_message_for_agent,
  turn_message_for_agent, permission_message_for_agent, permission_messages, last_turn_message,
  board_sync_messages,
}

abbrev pub IsFor : BoardSid → HidMessage → Type 0
IsFor sid m = m.sid ≡ sid

module _ (a : RegisteredAgent) (sid : BoardSid) (has : a.board_sid ≡ some sid) where
  meta-IsFor : All (IsFor sid) (push_some (meta_message_for_agent a))
  unfolding meta_message_for_agent
  meta-IsFor = ground arith

  status-IsFor : All (IsFor sid) (push_some (status_message_for_agent a))
  unfolding status_message_for_agent
  status-IsFor = ground arith

  token-IsFor : All (IsFor sid) (push_some (token_message_for_agent a))
  unfolding token_message_for_agent
  token-IsFor = ground arith

  last_turn-IsFor : All (IsFor sid) (push_some (last_turn_message a))
  unfolding last_turn_message turn_message_for_agent
  last_turn-IsFor = ground arith

  permissions-IsFor : (ps : List PermissionRequest) → All (IsFor sid) (permission_messages a ps)
  unfolding permission_messages permission_message_for_agent
  permissions-IsFor [] = tt
  permissions-IsFor (p ∷ ps) = ground (arith, permissions-IsFor ps)

-- Every message that describes an agent that has a session to the board bears that session's id.
pub sync-IsFor :
    (a : RegisteredAgent) (sid : BoardSid)
    → a.board_sid ≡ some sid
    → All (IsFor sid) (board_sync_messages a)
unfolding board_sync_messages
sync-IsFor a sid has =
    All-append _ (push_some (meta_message_for_agent a)) _ (meta-IsFor a sid has) (
      All-append _ (push_some (status_message_for_agent a)) _ (status-IsFor a sid has) (
        All-append _ (push_some (token_message_for_agent a)) _ (token-IsFor a sid has) (
          All-append _ (push_some (last_turn_message a)) _ (last_turn-IsFor a sid has)
            (permissions-IsFor a sid has a.pending_permissions))))
