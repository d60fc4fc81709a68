-- ===== src/Daemon/Board.antt =====
-- crates/vb-daemon/src/lib.rs: what the daemon does on a message from the board, and the board
-- session that it asks for. The log lines on stderr are left out.
use vibe_bridge.Base.{
  ℕ, Bool, true, false, not, ◌&&◌, List, [], ◌∷◌, ◌++◌, Option, none, some, length, take, get_or,
  is_empty, retain, any, ◌==◌, if◌then◌else◌, ite,
}
use vibe_bridge.Base.Map.{lookup, insert, modify, keys_where, find_where}
use vibe_bridge.Core.{BoardSid, broadcast}
use vibe_bridge.Protocol.{
  Cmd, session_status_byte, SessionStatusByte, PermissionDecisionByte, plugin_hint_max,
}
use vibe_bridge.Protocol.Payloads.{decode_permission_response}
use vibe_bridge.Transport.{HidMessage}
use vibe_bridge.Daemon.Agent.{Key, key_dec, key_of, RegisteredAgent, sid_eq, is_some}
use vibe_bridge.Daemon.Agent.Messages.{
  board_sync_messages, terminal_replay_message_for_agent, push_some, permission_decision_from_byte,
}
use vibe_bridge.Daemon.State.{
  BridgeDaemon, Result, ok, err, response_with_sid_0, response_failed, response_without_pending,
  pending_agent_disappeared, permission_with_sid_0, invalid_permission_payload,
  permission_unknown_sid, unsupported_board_message, put_agent,
}
use native.Mathlib.Decide.{ℕ_discrete}

abbrev pub key_eq : Key → Key → Bool
key_eq a b = ite (key_dec a b) true false

unfoldable pub enqueue_board_session_request : BridgeDaemon → RegisteredAgent → BridgeDaemon
enqueue_board_session_request d a =
    if any (λ pending. key_eq pending (key_of a)) d.pending_board_sessions then d else record d {
      pending_board_sessions = d.pending_board_sessions ++ (key_of a ∷ []);
      board_outbox =
          d.board_outbox
          ++ (record {
            cmd = Cmd.request_session;
            sid = broadcast;
            payload = take plugin_hint_max (if is_empty a.name then a.agent_id else a.name);
          }
              ∷ []);
    }

abbrev pub detach : RegisteredAgent → RegisteredAgent
detach a = record a { board_sid = none }

unfoldable pub detach_all : List Key → List (Key × RegisteredAgent) → List (Key × RegisteredAgent)
detach_all [] m = m
detach_all (k ∷ ks) m = detach_all ks (modify key_dec k detach m)

-- `keep.map_or(true, |keep_key| *key != keep_key)`.
abbrev pub not_kept : Option Key → Key → Bool
not_kept none key = true
not_kept (some keep_key) key = not (key_eq key keep_key)

abbrev pub is_stale : BoardSid → Option Key → Key → RegisteredAgent → Bool
is_stale sid keep key a = sid_eq a.board_sid (some sid) && not_kept keep key

-- The new state, and the number of agents that lost the session id.
unfoldable pub clear_board_sid_owners : BridgeDaemon → BoardSid → Option Key → BridgeDaemon × ℕ
clear_board_sid_owners d sid keep =
    let stale_keys = keys_where (is_stale sid keep) d.registered in
    (
      record d {
        registered = detach_all stale_keys d.registered;
        focused_board_sid =
            if not (is_some keep) && sid_eq d.focused_board_sid (some sid)
            then none
            else d.focused_board_sid;
      },
      length stale_keys,
    )

abbrev pub board_sid_of : Option RegisteredAgent → Option BoardSid
board_sid_of none = none
board_sid_of (some a) = a.board_sid

-- The agent at `key` gets the id: `old_sid` is what it had, `d` the state with the other owners
-- cleared.
unfoldable pub bind_agent :
    BridgeDaemon
    → BoardSid
    → Key
    → Option BoardSid
    → Option RegisteredAgent
    → BridgeDaemon × Result (Unit {0})
bind_agent d sid key old_sid none = (d, err pending_agent_disappeared)
bind_agent d sid key old_sid (some a) =
    let bound = record a { board_sid = some sid } in
    (
      record d {
        registered = insert key_dec key bound d.registered;
        focused_board_sid =
            if is_some old_sid && sid_eq d.focused_board_sid old_sid
            then some sid
            else d.focused_board_sid;
        board_outbox = d.board_outbox ++ board_sync_messages bound;
      },
      ok tt,
    )

-- From `pop_front` on: the queue of pending requests is matched here.
unfoldable pub accept_response :
    BridgeDaemon → BoardSid → List Key → BridgeDaemon × Result (Unit {0})
accept_response d sid [] = (d, err response_without_pending)
accept_response d sid (key ∷ rest) =
    let old_sid = board_sid_of (lookup key_dec key d.registered) in
    let cleared =
      (clear_board_sid_owners (record d { pending_board_sessions = rest }) sid (some key)).0 in
    bind_agent cleared sid key old_sid (lookup key_dec key cleared.registered)

unfoldable pub handle_session_response :
    BridgeDaemon → ℕ → List ℕ → BridgeDaemon × Result (Unit {0})
unfolding accept_response bind_agent
handle_session_response d sid payload =
    let status = get_or payload 0 (session_status_byte SessionStatusByte.ok) in
    if sid == 0
    then (d, err response_with_sid_0)
    else if not (status == session_status_byte SessionStatusByte.ok)
        && not (status == session_status_byte SessionStatusByte.created)
    then (d, err (response_failed status))
    else accept_response d sid d.pending_board_sessions

unfoldable pub handle_session_invalid : BridgeDaemon → ℕ → List ℕ → BridgeDaemon × Result (Unit {0})
handle_session_invalid d sid payload =
    if sid == broadcast then (d, ok tt) else ((clear_board_sid_owners d sid none).0, ok tt)

-- `terminal_replay_message_for_key`.
unfoldable pub replay_for_key : BridgeDaemon → Key → Option HidMessage
replay_for_key d key = elim (lookup key_dec key d.registered) [
  | none ↦ none
  | some a ↦ terminal_replay_message_for_agent a
]

-- The replay of the owner that was found, if any.
unfoldable pub replay_of : BridgeDaemon → Option (Key × RegisteredAgent) → List HidMessage
unfolding replay_for_key
replay_of d none = []
replay_of d (some (key, a)) = push_some (replay_for_key d key)

unfoldable pub focus_board_sid : BridgeDaemon → ℕ → BridgeDaemon
unfolding replay_of
focus_board_sid d sid = if sid == 0 then d else record d {
  focused_board_sid = some sid;
  board_outbox =
      d.board_outbox
      ++ replay_of d (find_where (λ key a. sid_eq a.board_sid (some sid)) d.registered);
}

-- The writes to the agent that owns the id.
unfoldable pub resolve_pending : ℕ → PermissionDecisionByte → RegisteredAgent → RegisteredAgent
resolve_pending req_id decision a = record a {
  pending_permissions = retain (λ p. not (p.req_id == req_id)) a.pending_permissions;
  resolved_permissions =
      insert ℕ_discrete req_id (permission_decision_from_byte decision) a.resolved_permissions;
}

unfoldable pub resolve_owner :
    BridgeDaemon
    → ℕ
    → ℕ × PermissionDecisionByte
    → Option (Key × RegisteredAgent)
    → BridgeDaemon × Result (Unit {0})
resolve_owner d sid (req_id, decision) none = (d, err (permission_unknown_sid sid))
resolve_owner d sid (req_id, decision) (some (key, a)) =
    (put_agent d key (resolve_pending req_id decision a), ok tt)

unfoldable pub resolve_decoded :
    BridgeDaemon → ℕ → Option (ℕ × PermissionDecisionByte) → BridgeDaemon × Result (Unit {0})
resolve_decoded d sid none = (d, err invalid_permission_payload)
resolve_decoded d sid (some response) =
    resolve_owner d sid response (find_where (λ key a. sid_eq a.board_sid (some sid)) d.registered)

unfoldable pub handle_permission_response :
    BridgeDaemon → ℕ → List ℕ → BridgeDaemon × Result (Unit {0})
unfolding resolve_decoded resolve_owner resolve_pending
handle_permission_response d sid payload =
    if sid == 0
    then (d, err permission_with_sid_0)
    else resolve_decoded d sid (decode_permission_response payload)

unfoldable pub dispatch_board_message :
    BridgeDaemon → Cmd → ℕ → List ℕ → BridgeDaemon × Result (Unit {0})
dispatch_board_message d Cmd.session_response sid payload = handle_session_response d sid payload
dispatch_board_message d Cmd.session_focus sid payload = (focus_board_sid d sid, ok tt)
dispatch_board_message d Cmd.permission_res sid payload = handle_permission_response d sid payload
dispatch_board_message d Cmd.session_invalid sid payload = handle_session_invalid d sid payload
dispatch_board_message d Cmd.encoder_event sid payload = (d, ok tt)
dispatch_board_message d Cmd.key_event sid payload = (d, ok tt)
dispatch_board_message d cmd sid payload = (d, err (unsupported_board_message cmd))

unfoldable pub handle_board_message : BridgeDaemon → HidMessage → BridgeDaemon × Result (Unit {0})
unfolding dispatch_board_message
handle_board_message d msg = dispatch_board_message d msg.cmd msg.sid msg.payload
