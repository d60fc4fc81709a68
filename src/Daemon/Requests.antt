-- ===== src/Daemon/Requests.antt =====
-- crates/vb-daemon/src/lib.rs: `handle_json_line`, one function for each message type, on the agent
-- that the request names. The log lines on stderr are left out.
use vibe_bridge.Base.{
  ℕ, ◌-◌, Bool, true, false, not, ◌&&◌, ◌||◌, List, [], ◌∷◌, ◌++◌, Option, none, some, Text, length,
  drop, retain, any, ltb, ◌==◌, if◌then◌else◌, ℕ_discrete,
}
use vibe_bridge.Base.Map.{lookup, remove, contains_key}
use vibe_bridge.Core.{
  AgentActivity, AgentActivityKind, BoardSid, broadcast, TurnRole, ConversationTurn,
  PermissionRequest,
}
use vibe_bridge.Core.Labels.{decision_as_str}
use vibe_bridge.Transport.{HidMessage}
use vibe_bridge.Daemon.Agent.{
  Key, key_dec, key_of, RegisteredAgent, sid_eq, is_some, is_transport_only_terminal,
}
use vibe_bridge.Daemon.Agent.Messages.{
  board_sync_messages, status_message_for_agent, token_message_for_agent,
  permission_message_for_agent, terminal_replay_message_for_agent, push_some,
}
use vibe_bridge.Daemon.State.{
  BridgeDaemon, Result, ok, err, no_registered_agent, push_outbox, put_agent,
}
use vibe_bridge.Daemon.Board.{key_eq, enqueue_board_session_request}
use vibe_bridge.Daemon.Envelope.{TokenUpdatePayload, TurnPayload, PermissionRequestPayload}

-- The JSON answers, by their `type` and further fields.
pub data Response : Type 0 where
  agent_registered activity_accepted token_accepted turn_accepted permission_queued : Response
  terminal_stream_accepted session_abort_accepted : Response
  snapshot : ℕ → ℕ → ℕ → Response
  permission_resolved : ℕ → Response
  permission_decision : ℕ → Text → Response
  permission_pending : ℕ → Bool → Response

abbrev pub Reply : Type 0
Reply = BridgeDaemon × Result Response

-- `MAX_RETAINED_TURNS_PER_AGENT` of crates/vb-host/src/agent_discovery.rs.
abbrev pub max_retained_turns_per_agent : ℕ
max_retained_turns_per_agent = 50

-- What a registration takes over from the agent that has its key.
unfoldable pub merge_existing : RegisteredAgent → RegisteredAgent → RegisteredAgent
merge_existing existing agent = record agent {
  board_sid = existing.board_sid;
  usage = existing.usage;
  turns = existing.turns;
  pending_permissions = existing.pending_permissions;
  resolved_permissions = existing.resolved_permissions;
  from_hook = true;
  terminal = existing.terminal;
  attached_terminal =
      if is_some agent.attached_terminal
      then agent.attached_terminal
      else existing.attached_terminal;
  from_launch = agent.from_launch || existing.from_launch;
}

-- What the board hears of a registration. `was_already_bound` says that the key had a session.
unfoldable pub announce : BridgeDaemon → RegisteredAgent → Bool → BridgeDaemon
announce d agent was_already_bound =
    if was_already_bound
    then d
    else if is_some agent.board_sid
    then push_outbox d (board_sync_messages agent)
    else if is_transport_only_terminal agent
    then d
    else enqueue_board_session_request d agent

abbrev pub seen : RegisteredAgent → AgentActivity
seen agent = record {
  agent_id = agent.agent_id;
  kind = agent.kind;
  activity = AgentActivityKind.seen;
  status = agent.status;
  transcript_path = [];
}

unfoldable pub register_merged : BridgeDaemon → RegisteredAgent → Bool → BridgeDaemon
unfolding announce
register_merged d agent was_already_bound =
    put_agent
      (announce (record d { activities = d.activities ++ (seen agent ∷ []) }) agent
        was_already_bound)
      (key_of agent) agent

-- "agent.register".
unfoldable pub register : BridgeDaemon → RegisteredAgent → Reply
unfolding register_merged
register d agent = elim (lookup key_dec (key_of agent) d.registered) [
  | none ↦ (register_merged d agent false, ok agent_registered)
  | some existing ↦ (
    register_merged d (merge_existing existing agent) (is_some existing.board_sid),
    ok agent_registered,
  )
]

-- "agent.activity": an unknown agent is no error.
unfoldable pub activity : BridgeDaemon → AgentActivity → Reply
activity d event =
    let key : Key = (event.kind, event.agent_id) in
    let d' = record d { activities = d.activities ++ (event ∷ []) } in
    elim (lookup key_dec key d.registered) [
      | none ↦ (d', ok activity_accepted)
      | some a ↦
          let updated = record a { status = event.status } in
          (
            push_outbox (put_agent d' key updated) (push_some (status_message_for_agent updated)),
            ok activity_accepted,
          )
    ]

-- "token.update".
unfoldable pub token_update : BridgeDaemon → Key → TokenUpdatePayload → Reply
token_update d key update = elim (lookup key_dec key d.registered) [
  | none ↦ (d, err (no_registered_agent key))
  | some a ↦
      let updated = record a {
        usage = record {
          input = update.input;
          output = update.output;
          cost_cents = update.cost_cents;
        };
      } in
      (
        push_outbox (put_agent d key updated) (push_some (token_message_for_agent updated)),
        ok token_accepted,
      )
]

-- `turns.push(event)`, then the oldest are drained past the limit.
unfoldable pub push_turn : ConversationTurn → RegisteredAgent → RegisteredAgent
push_turn event a =
    let turns = a.turns ++ (event ∷ []) in
    record a {
      turns =
          if ltb max_retained_turns_per_agent (length turns)
          then drop (length turns - max_retained_turns_per_agent) turns
          else turns;
    }

abbrev pub sid_or_broadcast : Option BoardSid → BoardSid
sid_or_broadcast none = broadcast
sid_or_broadcast (some sid) = sid

-- The replay that a passive agent gets while it is focused.
unfoldable pub live_replay : BridgeDaemon → RegisteredAgent → List HidMessage
live_replay d a =
    if not a.from_launch && is_some a.board_sid && sid_eq a.board_sid d.focused_board_sid
    then push_some (terminal_replay_message_for_agent a)
    else []

-- "turn.append".
unfoldable pub turn_append : BridgeDaemon → Key → TurnRole → TurnPayload → Reply
turn_append d key role turn = elim (lookup key_dec key d.registered) [
  | none ↦ (d, err (no_registered_agent key))
  | some a ↦
      let updated =
        push_turn
          (record {
            sid = sid_or_broadcast a.board_sid;
            role = role;
            text = turn.text;
            ts_ms = turn.ts_ms;
          })
          a in
      (push_outbox (put_agent d key updated) (live_replay d updated), ok turn_accepted)
]

-- The request joins the pending ones, and an old decision for its id is forgotten.
unfoldable pub queue_permission : PermissionRequest → RegisteredAgent → RegisteredAgent
queue_permission event a = record a {
  resolved_permissions = remove ℕ_discrete event.req_id a.resolved_permissions;
  pending_permissions = a.pending_permissions ++ (event ∷ []);
}

-- "permission.request".
unfoldable pub permission_request : BridgeDaemon → Key → PermissionRequestPayload → Reply
permission_request d key perm = elim (lookup key_dec key d.registered) [
  | none ↦ (d, err (no_registered_agent key))
  | some a ↦
      let event : PermissionRequest = record {
        req_id = perm.req_id;
        sid = sid_or_broadcast a.board_sid;
        tool = perm.tool;
        args_summary = perm.args_summary;
      } in
      let updated = queue_permission event a in
      (
        push_outbox (put_agent d key updated)
            (push_some (permission_message_for_agent updated event) ++ live_replay d updated),
        ok permission_queued,
      )
]

unfoldable pub drop_pending : ℕ → RegisteredAgent → RegisteredAgent
drop_pending req_id a = record a {
  pending_permissions = retain (λ p. not (p.req_id == req_id)) a.pending_permissions;
}

-- "permission.resolve".
unfoldable pub permission_resolve : BridgeDaemon → Key → ℕ → Reply
unfolding drop_pending
permission_resolve d key req_id = elim (lookup key_dec key d.registered) [
  | none ↦ (d, err (no_registered_agent key))
  | some a ↦
      let updated = drop_pending req_id a in
      (
        put_agent d key updated,
        ok (
            permission_resolved
              (length a.pending_permissions - length updated.pending_permissions)),
      )
]

unfoldable pub forget_decision : ℕ → RegisteredAgent → RegisteredAgent
forget_decision req_id a = record a {
  resolved_permissions = remove ℕ_discrete req_id a.resolved_permissions;
}

-- "permission.poll": a decision is handed out once.
unfoldable pub permission_poll : BridgeDaemon → Key → ℕ → Reply
permission_poll d key req_id = elim (lookup key_dec key d.registered) [
  | none ↦ (d, err (no_registered_agent key))
  | some a ↦ elim (lookup ℕ_discrete req_id a.resolved_permissions) [
    | some decision ↦ (
      put_agent d key (forget_decision req_id a),
      ok (permission_decision req_id (decision_as_str decision)),
    )
    | none ↦
        (d, ok (permission_pending req_id (any (λ p. p.req_id == req_id) a.pending_permissions)))
  ]
]

-- "session.abort".
unfoldable pub session_abort : BridgeDaemon → Key → Reply
session_abort d key =
    if contains_key key_dec key d.registered
    then (
      record d {
        registered = remove key_dec key d.registered;
        pending_board_sessions =
            retain (λ pending. not (key_eq pending key)) d.pending_board_sessions;
      },
      ok session_abort_accepted,
    )
    else (d, err (no_registered_agent key))
