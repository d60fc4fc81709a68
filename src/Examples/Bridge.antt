-- ===== src/Examples/Bridge.antt =====
-- Examples for crates/vb-daemon: a daemon that has discovered one session, and what may happen next.
use vibe_bridge.Base.{
  ℕ, ◌≤◌, ◌≡◌, ◌≢◌, refl, ◌⊎◌, inl, inr, Bool, true, false, List, [], ◌∷◌, ◌++◌, Option, none, some,
  Text, codes, if◌then◌else◌, ℕ_discrete, ◌==◌, ◌+◌, arith,
}
use vibe_bridge.Base.Map.{lookup, insert}
use vibe_bridge.Core.{AgentKind, AgentStatus, AgentSession}
use vibe_bridge.Core.Labels.{decision_as_str}
use vibe_bridge.Protocol.{Cmd, PermissionDecisionByte, session_status_byte}
use vibe_bridge.Protocol.Payloads.{encode_permission_response}
use vibe_bridge.Transport.{HidTransport, not_connected}
use vibe_bridge.Daemon.Agent.{Key, key_dec, RegisteredAgent, from_session, sid_eq}
use vibe_bridge.Daemon.Agent.Messages.{
  permission_decision_from_byte, terminal_replay_message_for_agent, push_some,
}
use vibe_bridge.Daemon.State.{BridgeDaemon, ok, new_daemon}
use vibe_bridge.Daemon.Board.{
  handle_session_response, handle_session_invalid, handle_permission_response, focus_board_sid,
  enqueue_board_session_request, accept_response, bind_agent, clear_board_sid_owners, detach_all,
}
use vibe_bridge.Daemon.Envelope.{RegistrationEnvelope}
use vibe_bridge.Daemon.Requests.{
  register, agent_registered, permission_poll, permission_decision, permission_pending,
}
use vibe_bridge.Daemon.Passive.{register_discovered_sessions, register_session}
use vibe_bridge.Daemon.Outbox.{flush_board_outbox}
use vibe_bridge.Daemon.Outbox.Delivery.{Delivered, flush-Delivered}
use vibe_bridge.Daemon.History.{board, heartbeat, discovered, flush, run}
use vibe_bridge.Daemon.History.Consistent.{new_daemon-Inv, history_consistent}
use vibe_bridge.Daemon.Invariant.{Inv}
use vibe_bridge.Daemon.Invariant.Registering.{register_discovered-Inv}
use vibe_bridge.Daemon.Invariant.BoardMessages.{session_response-Inv}
use vibe_bridge.Daemon.Behaviour.Sessions.{
  Bound, without_sid, session_response_binds, session_invalid_detaches, focus_shows_owner,
  refusal_serves_first,
}
use vibe_bridge.Daemon.Behaviour.Permissions.{decision_delivered_once}
use vibe_bridge.Daemon.Behaviour.Registration.{Kept, register_asks_once, reregister_keeps}
use vibe_bridge.Daemon.Behaviour.Pruning.{prune_all, prune_thrice_missing}
use vibe_bridge.Base.{ite, any, All, ◌≤◌, ◌⊎◌}
use vibe_bridge.Daemon.Hex.{hex_encode}
use vibe_bridge.Daemon.Agent.Messages.{board_sync_messages}
use vibe_bridge.Daemon.State.{err, response_failed, no_registered_agent}
use vibe_bridge.Daemon.Board.{key_eq}
use vibe_bridge.Daemon.Dispatch.{Polled, DaemonSnapshot, poll_once}
use vibe_bridge.Daemon.Requests.{terminal_stream_accepted, session_abort, session_abort_accepted}
use vibe_bridge.Daemon.TerminalStream.{terminal_stream}
use vibe_bridge.Daemon.Behaviour.Streams.{receives, with_bytes, stream_reaches}
use vibe_bridge.Daemon.Behaviour.Snapshot.{Descending, is_listed, snapshot_lists, abort_removes}
use vibe_bridge.Daemon.Behaviour.Messages.{IsFor, sync-IsFor}

-- A transport whose second send fails.
abbrev failing : HidTransport ℕ
failing = record {
  is_connected = λ sent. true;
  send = λ msg sent. if sent == 1 then (some not_connected, sent) else (none, sent + 1);
}

abbrev no_parse : Text → Option RegistrationEnvelope
no_parse text = none

abbrev session : AgentSession
session = record {
  agent_id = codes "a1";
  kind = AgentKind.codex;
  name = codes "one";
  cwd = codes "/src";
  transcript_path = [];
  status = AgentStatus.running;
  terminal_hwnd = none;
}

abbrev agent : RegisteredAgent
agent = from_session session

abbrev its_key : Key
its_key = (AgentKind.codex, codes "a1")

abbrev waiting : BridgeDaemon
waiting = (register_discovered_sessions new_daemon (session ∷ [])).0

waiting-Inv : Inv waiting
waiting-Inv = register_discovered-Inv new_daemon (session ∷ []) new_daemon-Inv

-- The board answers with session 7.
abbrev bound : BridgeDaemon
bound = (handle_session_response waiting 7 []).0

bound-Inv : Inv bound
bound-Inv = session_response-Inv waiting 7 [] waiting-Inv

abbrev bound_agent : RegisteredAgent
bound_agent = record agent { board_sid = some 7 }

found_bound : lookup key_dec its_key bound.registered ≡ some bound_agent
unfolding lookup insert vibe_bridge.Base.Map.keys_where ℕ_discrete register_discovered_sessions
    register_session new_daemon handle_session_response accept_response bind_agent
    clear_board_sid_owners detach_all session_status_byte from_session enqueue_board_session_request
    key_dec sid_eq
found_bound = refl

history_consistent_example : Inv (
    run no_parse failing new_daemon (
      discovered (session ∷ []) []
      ∷ board (record { cmd = Cmd.session_response; sid = 7; payload = [] })
      ∷ heartbeat
      ∷ flush 0
      ∷ []))
history_consistent_example = history_consistent no_parse failing (
    discovered (session ∷ []) []
    ∷ board (record { cmd = Cmd.session_response; sid = 7; payload = [] })
    ∷ heartbeat
    ∷ flush 0
    ∷ [])

flush-Delivered_example :
    let (d', sent) = flush_board_outbox failing bound 0 in
    Delivered bound.board_outbox d'.board_outbox sent.log sent.failed
    × (d' ≡ record bound { board_outbox = d'.board_outbox })
flush-Delivered_example = flush-Delivered failing bound 0 refl

session_response_binds_example :
    let (d', answer) = handle_session_response waiting 7 [] in
    (answer ≡ ok tt) × Bound waiting d' 7 its_key []
unfolding register_discovered_sessions register_session new_daemon session_status_byte from_session
    enqueue_board_session_request lookup
session_response_binds_example =
    session_response_binds waiting 7 [] its_key [] waiting-Inv refl (λ e. absurd (omega arith))
      (inl refl)

focus_shows_owner_example : focus_board_sid bound 7 ≡ record bound {
  focused_board_sid = some 7;
  board_outbox = bound.board_outbox ++ push_some (terminal_replay_message_for_agent bound_agent);
}
unfolding from_session
focus_shows_owner_example = focus_shows_owner bound 7 its_key bound_agent bound-Inv found_bound refl

decision_delivered_once_example :
    let (d1, answer) =
      handle_permission_response bound 7
        (encode_permission_response 3 PermissionDecisionByte.allow) in
    let (d2, first) = permission_poll d1 its_key 3 in
    let (d3, second) = permission_poll d2 its_key 3 in
    (answer ≡ ok tt)
    × (first
        ≡ ok (
            permission_decision 3
              (decision_as_str (permission_decision_from_byte PermissionDecisionByte.allow))))
    × (second ≡ ok (permission_pending 3 false))
    × (d3 ≡ d2)
unfolding from_session
decision_delivered_once_example =
    decision_delivered_once bound 7 its_key bound_agent 3 PermissionDecisionByte.allow bound-Inv
      (omega arith) found_bound refl

register_asks_once_example :
    let d1 = (register new_daemon agent).0 in
    let d2 = (register d1 agent).0 in
    (d2.board_outbox ≡ d1.board_outbox) × (d2.pending_board_sessions ≡ d1.pending_board_sessions)
unfolding from_session
register_asks_once_example = register_asks_once new_daemon agent refl

stream_reaches_example :
    let (d', answer) = terminal_stream bound its_key (hex_encode (65 ∷ [])) in
    (answer ≡ ok terminal_stream_accepted)
    × (lookup key_dec its_key d'.registered ≡ (
        if receives bound its_key its_key
        then with_bytes (65 ∷ []) (lookup key_dec its_key bound.registered)
        else lookup key_dec its_key bound.registered))
unfolding from_session
stream_reaches_example =
    stream_reaches bound its_key its_key bound_agent (65 ∷ []) bound-Inv found_bound refl
      (ground arith) refl

abbrev polled_session : Polled
polled_session = record { sessions = session ∷ []; activities = [] }

snapshot_lists_example :
    (snap : DaemonSnapshot) × ((poll_once bound (ok polled_session)).1 ≡ ok snap)
    × Descending snap.sessions
    × (is_listed its_key snap.sessions ≡ true)
unfolding key_dec ℕ_discrete
snapshot_lists_example = snapshot_lists bound polled_session its_key bound-Inv refl

abort_removes_example :
    let (d', answer) = session_abort bound its_key in
    (answer ≡ ok session_abort_accepted)
    × (lookup key_dec its_key d'.registered
        ≡ ite (key_dec its_key its_key) none (lookup key_dec its_key bound.registered))
    × (any (λ k. key_eq k its_key) d'.pending_board_sessions ≡ false)
    × (session_abort d' its_key ≡ (d', err (no_registered_agent its_key)))
abort_removes_example = abort_removes bound its_key its_key bound-Inv (ground (arith, found_bound))

sync-IsFor_example : All (IsFor 7) (board_sync_messages bound_agent)
unfolding from_session
sync-IsFor_example = sync-IsFor bound_agent 7 refl

-- The board refuses the session of the agent that waits, and then grants session 8.
refusal_serves_first_example :
    let (d1, first) = handle_session_response waiting 7 (4 ∷ []) in
    let (d2, second) = handle_session_response d1 8 [] in
    (first ≡ err (response_failed 4)) × (second ≡ ok tt) × Bound waiting d2 8 its_key []
unfolding session_status_byte register_discovered_sessions register_session new_daemon from_session
    enqueue_board_session_request lookup
refusal_serves_first_example =
    refusal_serves_first waiting 7 (4 ∷ []) 8 [] its_key [] waiting-Inv refl
      (λ e. absurd (omega arith)) (λ e. ground arith) (λ e. absurd (omega arith)) (inl refl)

session_invalid_detaches_example :
    let (d', answer) = handle_session_invalid bound 7 [] in
    (answer ≡ ok tt)
    × ((j : Key)
        → lookup key_dec j d'.registered ≡ without_sid 7 (lookup key_dec j bound.registered))
    × ((j : Key) (b : RegisteredAgent)
        → lookup key_dec j d'.registered ≡ some b
        → sid_eq b.board_sid (some 7) ≡ false)
    × (d' ≡ record bound {
      registered = d'.registered;
      focused_board_sid =
          if sid_eq bound.focused_board_sid (some 7) then none else bound.focused_board_sid;
    })
session_invalid_detaches_example =
    session_invalid_detaches bound 7 [] bound-Inv (λ e. absurd (omega arith))

reregister_keeps_example :
    let (d', answer) = register bound agent in
    (answer ≡ ok agent_registered)
    × ((b : RegisteredAgent) × (lookup key_dec its_key d'.registered ≡ some b)
        × Kept bound_agent agent b)
    × ((req_id : ℕ)
        → (permission_poll d' its_key req_id).1 ≡ (permission_poll bound its_key req_id).1)
    × ((j : Key) → its_key ≢ j → lookup key_dec j d'.registered ≡ lookup key_dec j bound.registered)
    × (d' ≡ record bound { registered = d'.registered; activities = d'.activities })
unfolding from_session
reregister_keeps_example = reregister_keeps bound agent bound_agent found_bound refl

-- Two snapshots without the session, one with it, and three without it: the last one removes it.
abbrev snapshots : List (List AgentSession)
snapshots = [] ∷ [] ∷ (session ∷ []) ∷ [] ∷ [] ∷ [] ∷ []

prune_thrice_missing_example : lookup key_dec its_key (prune_all bound snapshots).registered ≡ none
unfolding handle_session_response session_status_byte register_discovered_sessions lookup new_daemon
    enqueue_board_session_request clear_board_sid_owners detach_all vibe_bridge.Base.Map.keys_where
    insert sid_eq from_session key_dec ℕ_discrete vibe_bridge.Base.Map.remove
prune_thrice_missing_example =
    prune_thrice_missing bound snapshots its_key bound_agent bound-Inv tt found_bound refl
