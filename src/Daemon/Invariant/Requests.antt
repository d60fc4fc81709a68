-- ===== src/Daemon/Invariant/Requests.antt =====
-- The other requests of `handle_json_line` in crates/vb-daemon/src/lib.rs keep the invariant.
use vibe_bridge.Base.{
  ℕ, ◌≡◌, refl, inl, inr, List, [], ◌∷◌, some, Text, is_empty, ℕ_discrete, Option-cases, Bool-cases,
}
use vibe_bridge.Base.Map.{lookup, contains_key, keys_where, Each-lookup}
use vibe_bridge.Core.{AgentActivity, AgentSession, TurnRole}
use vibe_bridge.Daemon.Hex.{hex_decode}
use vibe_bridge.Daemon.Agent.{Key, key_dec, RegisteredAgent}
use vibe_bridge.Daemon.State.{BridgeDaemon, put_agent}
use vibe_bridge.Daemon.Envelope.{TokenUpdatePayload, TurnPayload, PermissionRequestPayload}
use vibe_bridge.Daemon.Requests.{
  activity, token_update, turn_append, permission_request, permission_resolve, permission_poll,
  session_abort, push_turn, queue_permission, drop_pending, forget_decision,
}
use vibe_bridge.Daemon.TerminalStream.{mirror_to, mirror_all, stream_bytes, terminal_stream}
use vibe_bridge.Daemon.Passive.{
  DiscoveredTurn, ingest_turn, ingest_discovered_turns, drop_agent, drop_agents, count_misses,
  forget_seen, is_candidate, prune_missing_passive_sessions,
}
use vibe_bridge.Daemon.Invariant.{IsAgent, Inv}
use vibe_bridge.Daemon.Invariant.Agents.{
  push_turn-IsAgent, queue_permission-IsAgent, drop_pending-IsAgent, forget_decision-IsAgent,
  append-IsAgent, status-IsAgent, usage-IsAgent,
}
use vibe_bridge.Daemon.Invariant.Table.{insert-IsConsistent, remove-IsConsistent}

-- A write to a registered agent that keeps its session and its form.
pub write-Inv :
    (d : BridgeDaemon) (key : Key) (a b : RegisteredAgent)
    → Inv d
    → lookup key_dec key d.registered ≡ some a
    → b.board_sid ≡ a.board_sid
    → (IsAgent key a → IsAgent key b)
    → Inv (put_agent d key b)
write-Inv d key a b v found same keeps =
    insert-IsConsistent key b v (inr (a, found, same))
      (keeps (Each-lookup key_dec IsAgent key a d.registered v.agents found))

pub activity-Inv : (d : BridgeDaemon) (event : AgentActivity) → Inv d → Inv (activity d event).0
unfolding activity
activity-Inv d event v =
    elim (Option-cases (lookup key_dec (event.kind, event.agent_id) d.registered)) [
      | inl gone ↦ rw (activity, gone) v
      | inr (a, found) ↦
          rw (activity, found) (write-Inv d _ a _ v found refl (status-IsAgent event.status a))
    ]

pub token_update-Inv :
    (d : BridgeDaemon) (key : Key) (update : TokenUpdatePayload)
    → Inv d
    → Inv (token_update d key update).0
unfolding token_update
token_update-Inv d key update v = elim (Option-cases (lookup key_dec key d.registered)) [
  | inl gone ↦ rw (token_update, gone) v
  | inr (a, found) ↦ rw (token_update, found) (write-Inv d key a _ v found refl (usage-IsAgent _ a))
]

pub turn_append-Inv :
    (d : BridgeDaemon) (key : Key) (role : TurnRole) (turn : TurnPayload)
    → Inv d
    → Inv (turn_append d key role turn).0
unfolding turn_append push_turn
turn_append-Inv d key role turn v = elim (Option-cases (lookup key_dec key d.registered)) [
  | inl gone ↦ rw (turn_append, gone) v
  | inr (a, found) ↦
      rw (turn_append, found) (write-Inv d key a _ v found refl (push_turn-IsAgent _ a))
]

pub permission_request-Inv :
    (d : BridgeDaemon) (key : Key) (perm : PermissionRequestPayload)
    → Inv d
    → Inv (permission_request d key perm).0
unfolding permission_request queue_permission
permission_request-Inv d key perm v = elim (Option-cases (lookup key_dec key d.registered)) [
  | inl gone ↦ rw (permission_request, gone) v
  | inr (a, found) ↦
      rw (permission_request, found)
        (write-Inv d key a _ v found refl (queue_permission-IsAgent _ a))
]

pub permission_resolve-Inv :
    (d : BridgeDaemon) (key : Key) (req_id : ℕ) → Inv d → Inv (permission_resolve d key req_id).0
unfolding permission_resolve drop_pending
permission_resolve-Inv d key req_id v = elim (Option-cases (lookup key_dec key d.registered)) [
  | inl gone ↦ rw (permission_resolve, gone) v
  | inr (a, found) ↦
      rw (permission_resolve, found)
        (write-Inv d key a _ v found refl (drop_pending-IsAgent req_id a))
]

pub permission_poll-Inv :
    (d : BridgeDaemon) (key : Key) (req_id : ℕ) → Inv d → Inv (permission_poll d key req_id).0
unfolding permission_poll forget_decision
permission_poll-Inv d key req_id v = elim (Option-cases (lookup key_dec key d.registered)) [
  | inl gone ↦ rw (permission_poll, gone) v
  | inr (a, found) ↦ elim (Option-cases (lookup ℕ_discrete req_id a.resolved_permissions)) [
    | inl undecided ↦ rw (permission_poll, found, undecided) v
    | inr (decision, there) ↦
        rw (permission_poll, found, there)
          (write-Inv d key a _ v found refl (forget_decision-IsAgent req_id a))
  ]
]

mirror_to-Inv :
    (bytes : List ℕ) (d : BridgeDaemon) (key : Key) → Inv d → Inv (mirror_to bytes d key)
unfolding mirror_to
mirror_to-Inv bytes d key v = elim (Option-cases (lookup key_dec key d.registered)) [
  | inl gone ↦ rw (mirror_to, gone) v
  | inr (a, found) ↦
      rw (mirror_to, found) (write-Inv d key a _ v found refl (append-IsAgent bytes a))
]

mirror_all-Inv :
    (bytes : List ℕ) (d : BridgeDaemon) (keys : List Key) → Inv d → Inv (mirror_all bytes d keys)
unfolding mirror_all
mirror_all-Inv bytes d [] v = v
mirror_all-Inv bytes d (key ∷ keys) v =
    mirror_all-Inv bytes (mirror_to bytes d key) keys (mirror_to-Inv bytes d key v)

stream_bytes-Inv :
    (d : BridgeDaemon) (key : Key) (bytes : List ℕ) → Inv d → Inv (stream_bytes d key bytes).0
unfolding stream_bytes
stream_bytes-Inv d key bytes v = elim (Bool-cases (contains_key key_dec key d.registered)) [
  | inr gone ↦ rw gone v
  | inl there ↦ elim (Bool-cases (is_empty bytes)) [
    | inl nothing ↦ rw (there, nothing) v
    | inr more ↦ rw (there, more) (mirror_all-Inv bytes d _ v)
  ]
]

pub terminal_stream-Inv :
    (d : BridgeDaemon) (key : Key) (data_hex : Text)
    → Inv d
    → Inv (terminal_stream d key data_hex).0
unfolding terminal_stream
terminal_stream-Inv d key data_hex v = elim (Option-cases (hex_decode data_hex)) [
  | inl bad ↦ rw (terminal_stream, bad) v
  | inr (bytes, good) ↦ rw (terminal_stream, good) (stream_bytes-Inv d key bytes v)
]

pub session_abort-Inv : (d : BridgeDaemon) (key : Key) → Inv d → Inv (session_abort d key).0
unfolding session_abort
session_abort-Inv d key v = elim (Bool-cases (contains_key key_dec key d.registered)) [
  | inl there ↦ rw there (remove-IsConsistent key v)
  | inr gone ↦ rw gone v
]

ingest_turn-Inv : (d : BridgeDaemon) (turn : DiscoveredTurn) → Inv d → Inv (ingest_turn d turn).0
unfolding ingest_turn push_turn
ingest_turn-Inv d turn v =
    elim (Option-cases (lookup key_dec (turn.kind, turn.agent_id) d.registered)) [
      | inl gone ↦ rw (ingest_turn, gone) v
      | inr (a, found) ↦
          rw (ingest_turn, found) (write-Inv d _ a _ v found refl (push_turn-IsAgent _ a))
    ]

pub ingest-Inv :
    (d : BridgeDaemon) (turns : List DiscoveredTurn)
    → Inv d
    → Inv (ingest_discovered_turns d turns).0
unfolding ingest_discovered_turns
ingest-Inv d [] v = v
ingest-Inv d (turn ∷ turns) v = ingest-Inv (ingest_turn d turn).0 turns (ingest_turn-Inv d turn v)

drop_agents-Inv : (keys : List Key) (d : BridgeDaemon) → Inv d → Inv (drop_agents d keys)
unfolding drop_agents
drop_agents-Inv [] d v = v
drop_agents-Inv (key ∷ keys) d v =
    drop_agents-Inv keys (drop_agent d key) (remove-IsConsistent key v)

pub prune-Inv :
    (d : BridgeDaemon) (latest : List AgentSession)
    → Inv d
    → Inv (prune_missing_passive_sessions d latest).0
unfolding prune_missing_passive_sessions
prune-Inv d latest v =
    let counted =
      count_misses d latest (forget_seen latest d.passive_missing_counts)
        (keys_where is_candidate d.registered) in
    drop_agents-Inv counted.1 (record d { passive_missing_counts = counted.0 }) v
