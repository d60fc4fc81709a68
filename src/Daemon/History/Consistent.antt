-- ===== src/Daemon/History/Consistent.antt =====
-- No history of the daemon of crates/vb-daemon/src/lib.rs breaks the invariant of its table.
use vibe_bridge.Base.{
  ◌≡◌, refl, List, [], ◌∷◌, Option, none, some, Text, codes, Option-cases, trim, inl, inr,
}
use vibe_bridge.Base.Map.{lookup}
use vibe_bridge.Core.{AgentSession}
use vibe_bridge.Daemon.Agent.{Key}
use vibe_bridge.Daemon.State.{BridgeDaemon, Result, ok, err, new_daemon}
use vibe_bridge.Daemon.Envelope.{
  RegistrationEnvelope, TurnPayload, into_registered_agent, into_agent_activity, parse_kind,
  parse_role,
}
use vibe_bridge.Daemon.Requests.{
  Reply, register, activity, token_update, turn_append, permission_request, permission_resolve,
  permission_poll, session_abort,
}
use vibe_bridge.Daemon.TerminalStream.{terminal_stream}
use vibe_bridge.Daemon.Dispatch.{
  Polled, poll_once, snapshot_reply, handle_request, handle_typed, message_type_of, MessageType,
  agent_register, agent_activity, daemon_snapshot, token_update_type, turn_append_type,
  permission_request_type, permission_resolve_type, permission_poll_type, terminal_stream_type,
  session_abort_type, other_type, handle_json_line, with_payload, with_result, with_key,
}
use vibe_bridge.Daemon.Passive.{DiscoveredTurn}
use vibe_bridge.Daemon.Heartbeat.{heartbeat_round}
use vibe_bridge.Transport.{HidTransport}
use vibe_bridge.Daemon.Outbox.{flush_board_outbox}
use vibe_bridge.Daemon.History.{
  Event, line, board, heartbeat, discovered, flush, discovery_round, step, run,
}
use vibe_bridge.Daemon.Invariant.{Inv}
use vibe_bridge.Daemon.Invariant.Agents.{into_registered_agent-IsFresh}
use vibe_bridge.Daemon.Invariant.Registering.{register-Inv, register_discovered-Inv}
use vibe_bridge.Daemon.Invariant.Requests.{
  activity-Inv, token_update-Inv, turn_append-Inv, permission_request-Inv, permission_resolve-Inv,
  permission_poll-Inv, terminal_stream-Inv, session_abort-Inv, ingest-Inv, prune-Inv,
}
use vibe_bridge.Daemon.Invariant.BoardMessages.{branch-Inv, board_message-Inv}

pub new_daemon-Inv : Inv new_daemon
unfolding new_daemon lookup
new_daemon-Inv = record {
  distinct = tt;
  agents = tt;
  exclusive = λ j k a b sid found _ _ _. absurd (cc);
  known = tt;
  once = tt;
}

with_payload-Inv :
    {P : Type 0} (d : BridgeDaemon) (what : Text) (o : Option P) (go : P → Reply)
    → Inv d
    → ((p : P) → Inv (go p).0)
    → Inv (with_payload d what o go).0
with_payload-Inv d what none go v each = v
with_payload-Inv d what (some p) go v each = each p

with_result-Inv :
    {A : Type 0} (d : BridgeDaemon) (r : Result A) (go : A → Reply)
    → Inv d
    → ((a : A) → r ≡ ok a → Inv (go a).0)
    → Inv (with_result d r go).0
with_result-Inv d (err e) go v each = v
with_result-Inv d (ok a) go v each = each a refl

with_key-Inv :
    (d : BridgeDaemon) (kind agent_id : Text) (go : Key → Reply)
    → Inv d
    → ((key : Key) → Inv (go key).0)
    → Inv (with_key d kind agent_id go).0
with_key-Inv d kind agent_id go v each =
    with_result-Inv d (parse_kind kind) _ v (λ k e. each (k, agent_id))

snapshot-Inv :
    (d : BridgeDaemon) (polled : Result Polled)
    → Inv d
    → Inv (snapshot_reply (poll_once d polled)).0
unfolding snapshot_reply poll_once
snapshot-Inv d (err e) v = v
snapshot-Inv d (ok polled) v = v

typed-Inv :
    (t : MessageType) (d : BridgeDaemon) (polled : Result Polled) (request : RegistrationEnvelope)
    → Inv d
    → Inv (handle_typed t d polled request).0
unfolding handle_typed
typed-Inv agent_register d polled request v =
    with_payload-Inv d (codes "agent.register") request.agent
      (λ p. with_result d (into_registered_agent p) (register d)) v
      (λ p.
        with_result-Inv d (into_registered_agent p) (register d) v
          (λ a e. register-Inv d a v (into_registered_agent-IsFresh p a e)))
typed-Inv agent_activity d polled request v =
    with_payload-Inv d (codes "agent.activity") request.activity
      (λ p. with_result d (into_agent_activity p) (activity d)) v
      (λ p.
        with_result-Inv d (into_agent_activity p) (activity d) v
          (λ event e. activity-Inv d event v))
typed-Inv daemon_snapshot d polled request v = snapshot-Inv d polled v
typed-Inv token_update_type d polled request v =
    with_payload-Inv d (codes "token.update") request.token
      (λ p. with_key d p.kind p.agent_id (λ key. token_update d key p)) v
      (λ p.
        with_key-Inv d p.kind p.agent_id (λ key. token_update d key p) v
          (λ key. token_update-Inv d key p v))
typed-Inv permission_request_type d polled request v =
    with_payload-Inv d (codes "permission.request") request.permission
      (λ p. with_key d p.kind p.agent_id (λ key. permission_request d key p)) v
      (λ p.
        with_key-Inv d p.kind p.agent_id (λ key. permission_request d key p) v
          (λ key. permission_request-Inv d key p v))
typed-Inv permission_resolve_type d polled request v =
    with_payload-Inv d (codes "permission.resolve") request.resolve
      (λ p. with_key d p.kind p.agent_id (λ key. permission_resolve d key p.req_id)) v
      (λ p.
        with_key-Inv d p.kind p.agent_id (λ key. permission_resolve d key p.req_id) v
          (λ key. permission_resolve-Inv d key p.req_id v))
typed-Inv permission_poll_type d polled request v =
    with_payload-Inv d (codes "permission.poll") request.poll
      (λ p. with_key d p.kind p.agent_id (λ key. permission_poll d key p.req_id)) v
      (λ p.
        with_key-Inv d p.kind p.agent_id (λ key. permission_poll d key p.req_id) v
          (λ key. permission_poll-Inv d key p.req_id v))
typed-Inv terminal_stream_type d polled request v =
    with_payload-Inv d (codes "terminal.stream") request.stream
      (λ p. with_key d p.kind p.agent_id (λ key. terminal_stream d key p.data_hex)) v
      (λ p.
        with_key-Inv d p.kind p.agent_id (λ key. terminal_stream d key p.data_hex) v
          (λ key. terminal_stream-Inv d key p.data_hex v))
typed-Inv session_abort_type d polled request v =
    with_payload-Inv d (codes "session.abort") request.abort
      (λ p. with_key d p.kind p.agent_id (λ key. session_abort d key)) v
      (λ p.
        with_key-Inv d p.kind p.agent_id (λ key. session_abort d key) v
          (λ key. session_abort-Inv d key v))
typed-Inv turn_append_type d polled request v =
    let run_turn = λ (p : TurnPayload) (key : Key).
      with_result d (parse_role p.role) (λ role. turn_append d key role p) in
    with_payload-Inv d (codes "turn.append") request.turn
      (λ p. with_key d p.kind p.agent_id (run_turn p)) v
      (λ p. with_key-Inv d p.kind p.agent_id (run_turn p) v (λ key.
        with_result-Inv d (parse_role p.role) (λ role. turn_append d key role p) v
          (λ role e. turn_append-Inv d key role p v)))
typed-Inv other_type d polled request v = v

request-Inv :
    (d : BridgeDaemon) (polled : Result Polled) (request : RegistrationEnvelope)
    → Inv d
    → Inv (handle_request d polled request).0
unfolding handle_request
request-Inv d polled request v = typed-Inv (message_type_of request.message_type) d polled request v

discovery-Inv :
    (d : BridgeDaemon) (sessions : List AgentSession) (turns : List DiscoveredTurn)
    → Inv d
    → Inv (discovery_round d sessions turns)
unfolding discovery_round
discovery-Inv d sessions turns v =
    prune-Inv _ sessions (ingest-Inv _ turns (register_discovered-Inv d sessions v))

module _ {W : Type 0} (parse : Text → Option RegistrationEnvelope) (hid : HidTransport W) where
  json_line-Inv :
      (d : BridgeDaemon) (polled : Result Polled) (text : Text)
      → Inv d
      → Inv (handle_json_line parse d polled text).0
  unfolding handle_json_line
  json_line-Inv d polled text v = elim (Option-cases (parse text)) [
    | inl bad ↦ rw (handle_json_line, bad) v
    | inr (request, good) ↦ rw (handle_json_line, good) (request-Inv d polled request v)
  ]

  step-Inv : (d : BridgeDaemon) (e : Event W) → Inv d → Inv (step parse hid d e)
  unfolding step heartbeat_round flush_board_outbox
  step-Inv d (line text polled) v = json_line-Inv d polled (trim text) v
  step-Inv d (board msg) v = board_message-Inv d msg v
  step-Inv d heartbeat v = v
  step-Inv d (discovered sessions turns) v = discovery-Inv d sessions turns v
  step-Inv d (flush w) v = branch-Inv (hid.is_connected w) _ _ v v

  run-Inv : (es : List (Event W)) (d : BridgeDaemon) → Inv d → Inv (run parse hid d es)
  unfolding run
  run-Inv [] d v = v
  run-Inv (e ∷ es) d v = run-Inv es (step parse hid d e) (step-Inv d e v)

  -- Whatever the clients, the board, the discovery and the transport do, and in whatever order: in
  -- the daemon's table every agent stands under its own key, none has the session id 0, no two have
  -- the same one, every terminal buffer is well formed, no agent keeps more than 50 turns, and no
  -- permission request waits while a decision for it is held; every agent in the queue for a session
  -- is registered and stands in it once.
  pub history_consistent : (es : List (Event W)) → Inv (run parse hid new_daemon es)
  history_consistent es = run-Inv es new_daemon new_daemon-Inv
