-- ===== src/Daemon/Dispatch.antt =====
-- crates/vb-daemon/src/lib.rs: `poll_once`, and `handle_json_line` as the choice of the handler.
-- What the agent poller answers is an argument; so is `parse`, the reading of a line by `serde_json`.
use vibe_bridge.Base.{
  ℕ, Bool, true, false, ◌&&◌, ◌||◌, List, [], ◌∷◌, ◌++◌, Option, none, some, Text, codes, text_eq,
  length, any, ltb, ◌==◌, if◌then◌else◌,
}
use vibe_bridge.Core.{AgentSession, AgentActivity}
use vibe_bridge.Daemon.Agent.{Key, RegisteredAgent, to_session}
use vibe_bridge.Daemon.State.{
  BridgeDaemon, Result, ok, err, invalid_json, missing_payload, unknown_message_type,
}
use vibe_bridge.Daemon.Board.{key_eq}
use vibe_bridge.Daemon.Envelope.{
  RegistrationEnvelope, parse_kind, parse_role, into_registered_agent, into_agent_activity,
}
use vibe_bridge.Daemon.Requests.{
  Reply, snapshot, register, activity, token_update, turn_append, permission_request,
  permission_resolve, permission_poll, session_abort,
}
use vibe_bridge.Daemon.TerminalStream.{terminal_stream}

-- `AgentPollSnapshot` of crates/vb-host/src/agent_discovery.rs, less the turns.
pub record Polled : Type 0 where
  pub sessions : List AgentSession
  pub activities : List AgentActivity

pub record DaemonSnapshot : Type 0 where
  pub sessions : List AgentSession
  pub activities : List AgentActivity
  pub registered_agents : ℕ

-- The byte order of texts.
unfoldable pub text_lt : Text → Text → Bool
text_lt s [] = false
text_lt [] (y ∷ ys) = true
text_lt (x ∷ xs) (y ∷ ys) = ltb x y || x == y && text_lt xs ys

-- The stable sort by `b.agent_id.cmp(&a.agent_id)`.
unfoldable pub insert_session : AgentSession → List AgentSession → List AgentSession
unfolding text_lt
insert_session s [] = s ∷ []
insert_session s (t ∷ ts) =
    if text_lt s.agent_id t.agent_id then t ∷ insert_session s ts else s ∷ t ∷ ts

unfoldable pub sort_sessions : List AgentSession → List AgentSession
unfolding insert_session
sort_sessions [] = []
sort_sessions (s ∷ ss) = insert_session s (sort_sessions ss)

abbrev pub session_key : AgentSession → Key
session_key s = (s.kind, s.agent_id)

-- The registered agents that the poll did not find are appended in the map's order.
unfoldable pub add_registered : List AgentSession → List (Key × RegisteredAgent) → List AgentSession
add_registered sessions [] = sessions
add_registered sessions ((key, a) ∷ more) =
    add_registered
      (if any (λ s. key_eq (session_key s) (a.kind, a.agent_id)) sessions
        then sessions
        else sessions ++ (to_session a ∷ []))
      more

unfoldable pub poll_once : BridgeDaemon → Result Polled → BridgeDaemon × Result DaemonSnapshot
poll_once d (err e) = (d, err e)
poll_once d (ok polled) =
    let activities = d.activities ++ polled.activities in
    (
      record d { activities = activities },
      ok (record {
        sessions = sort_sessions (add_registered polled.sessions d.registered);
        activities = activities;
        registered_agents = length d.registered;
      }),
    )

-- "daemon.snapshot".
unfoldable pub snapshot_reply : BridgeDaemon × Result DaemonSnapshot → Reply
snapshot_reply (d, err e) = (d, err e)
snapshot_reply (d, ok s) =
    (d, ok (snapshot (length s.sessions) (length s.activities) s.registered_agents))

-- `ok_or_else(..)?` on the payload, and `?` on its conversion.
abbrev pub with_payload {ℓ} : {P : Type ℓ} → BridgeDaemon → Text → Option P → (P → Reply) → Reply
with_payload d what none run = (d, err (missing_payload what))
with_payload d what (some p) run = run p

abbrev pub with_result {ℓ} : {A : Type ℓ} → BridgeDaemon → Result A → (A → Reply) → Reply
with_result d (err e) run = (d, err e)
with_result d (ok a) run = run a

-- `parse_kind(&payload.kind)?`, and the key that the payload names.
abbrev pub with_key : BridgeDaemon → Text → Text → (Key → Reply) → Reply
with_key d kind agent_id run = with_result d (parse_kind kind) (λ k. run (k, agent_id))

-- The message types that `handle_json_line` tells apart.
pub data MessageType : Type 0 where
  agent_register agent_activity daemon_snapshot token_update_type turn_append_type : MessageType
  permission_request_type permission_resolve_type permission_poll_type : MessageType
  terminal_stream_type session_abort_type other_type : MessageType

unfoldable pub message_type_of : Text → MessageType
message_type_of t =
    if text_eq t (codes "agent.register")
    then agent_register
    else if text_eq t (codes "agent.activity")
    then agent_activity
    else if text_eq t (codes "daemon.snapshot")
    then daemon_snapshot
    else if text_eq t (codes "token.update")
    then token_update_type
    else if text_eq t (codes "turn.append")
    then turn_append_type
    else if text_eq t (codes "permission.request")
    then permission_request_type
    else if text_eq t (codes "permission.resolve")
    then permission_resolve_type
    else if text_eq t (codes "permission.poll")
    then permission_poll_type
    else if text_eq t (codes "terminal.stream")
    then terminal_stream_type
    else if text_eq t (codes "session.abort")
    then session_abort_type
    else other_type

unfoldable pub handle_typed :
    MessageType → BridgeDaemon → Result Polled → RegistrationEnvelope → Reply
unfolding snapshot_reply
handle_typed agent_register d polled request =
    with_payload d (codes "agent.register") request.agent
      (λ p. with_result d (into_registered_agent p) (register d))
handle_typed agent_activity d polled request =
    with_payload d (codes "agent.activity") request.activity
      (λ p. with_result d (into_agent_activity p) (activity d))
handle_typed daemon_snapshot d polled request = snapshot_reply (poll_once d polled)
handle_typed token_update_type d polled request =
    with_payload d (codes "token.update") request.token
      (λ p. with_key d p.kind p.agent_id (λ key. token_update d key p))
handle_typed turn_append_type d polled request =
    with_payload d (codes "turn.append") request.turn (λ p.
      with_key d p.kind p.agent_id
        (λ key. with_result d (parse_role p.role) (λ role. turn_append d key role p)))
handle_typed permission_request_type d polled request =
    with_payload d (codes "permission.request") request.permission
      (λ p. with_key d p.kind p.agent_id (λ key. permission_request d key p))
handle_typed permission_resolve_type d polled request =
    with_payload d (codes "permission.resolve") request.resolve
      (λ p. with_key d p.kind p.agent_id (λ key. permission_resolve d key p.req_id))
handle_typed permission_poll_type d polled request =
    with_payload d (codes "permission.poll") request.poll
      (λ p. with_key d p.kind p.agent_id (λ key. permission_poll d key p.req_id))
handle_typed terminal_stream_type d polled request =
    with_payload d (codes "terminal.stream") request.stream
      (λ p. with_key d p.kind p.agent_id (λ key. terminal_stream d key p.data_hex))
handle_typed session_abort_type d polled request =
    with_payload d (codes "session.abort") request.abort
      (λ p. with_key d p.kind p.agent_id (λ key. session_abort d key))
handle_typed other_type d polled request = (d, err (unknown_message_type request.message_type))

unfoldable pub handle_request : BridgeDaemon → Result Polled → RegistrationEnvelope → Reply
unfolding handle_typed message_type_of
handle_request d polled request =
    handle_typed (message_type_of request.message_type) d polled request

unfoldable pub handle_json_line :
    (Text → Option RegistrationEnvelope) → BridgeDaemon → Result Polled → Text → Reply
handle_json_line parse d polled line = elim (parse line) [
  | none ↦ (d, err invalid_json)
  | some request ↦ handle_request d polled request
]
