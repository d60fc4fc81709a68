-- ===== src/Daemon/Passive.antt =====
-- crates/vb-daemon/src/lib.rs: the sessions and turns that the transcript poller discovers.
use vibe_bridge.Base.{
  ℕ, ◌+◌, min, Bool, false, not, ◌&&◌, List, [], ◌∷◌, ◌++◌, none, some, Text, retain, any, leb,
  if◌then◌else◌,
}
use vibe_bridge.Base.Map.{lookup, insert, remove, contains_key, keys_where}
use vibe_bridge.Core.{AgentKind, AgentSession, AgentActivity, AgentActivityKind, TurnRole}
use vibe_bridge.Daemon.Agent.{Key, key_dec, RegisteredAgent, from_session, is_some}
use vibe_bridge.Daemon.State.{BridgeDaemon, put_agent}
use vibe_bridge.Daemon.Board.{key_eq, enqueue_board_session_request}
use vibe_bridge.Daemon.Requests.{push_turn, sid_or_broadcast}

abbrev pub passive_missing_grace_polls : ℕ
passive_missing_grace_polls = 3

-- `DiscoveredTurn` of crates/vb-host/src/agent_discovery.rs.
pub record DiscoveredTurn : Type 0 where
  pub kind : AgentKind
  pub agent_id : Text
  pub role : TurnRole
  pub text : Text

unfoldable pub ingest_turn : BridgeDaemon → DiscoveredTurn → BridgeDaemon × ℕ
ingest_turn d turn =
    let key : Key = (turn.kind, turn.agent_id) in
    elim (lookup key_dec key d.registered) [
      | none ↦ (d, 0)
      | some a ↦ (
        put_agent d key (
            push_turn
              (record {
                sid = sid_or_broadcast a.board_sid;
                role = turn.role;
                text = turn.text;
                ts_ms = 0;
              })
              a),
        1,
      )
    ]

-- The new state, and the number of turns that found their agent.
unfoldable pub ingest_discovered_turns : BridgeDaemon → List DiscoveredTurn → BridgeDaemon × ℕ
unfolding ingest_turn
ingest_discovered_turns d [] = (d, 0)
ingest_discovered_turns d (turn ∷ turns) =
    let (d', one) = ingest_turn d turn in
    let (d'', more) = ingest_discovered_turns d' turns in (d'', one + more)

abbrev pub session_key : AgentSession → Key
session_key s = (s.kind, s.agent_id)

abbrev pub is_seen : List AgentSession → Key → Bool
is_seen latest key = any (λ s. key_eq (session_key s) key) latest

unfoldable pub forget_seen : List AgentSession → List (Key × ℕ) → List (Key × ℕ)
forget_seen [] counts = counts
forget_seen (s ∷ latest) counts = forget_seen latest (remove key_dec (session_key s) counts)

-- Only transcript agents that have a board session are candidates.
abbrev pub is_candidate : Key → RegisteredAgent → Bool
is_candidate key a = not a.from_launch && (not a.from_hook && is_some a.board_sid)

-- One candidate that the snapshot does not show: its count (a `u8` that saturates), and whether it
-- is to be dropped.
unfoldable pub miss : BridgeDaemon → List (Key × ℕ) → Key → List (Key × ℕ) × Bool
miss d counts key = elim (lookup key_dec key counts) [
  | some count ↦
      let next = min (count + 1) 255 in
      (insert key_dec key next counts, leb passive_missing_grace_polls next)
  | none ↦
      if contains_key key_dec key d.registered
      then (insert key_dec key 1 counts, false)
      else (counts, false)
]

-- A session in the snapshot is not missing.
unfoldable pub miss_of :
    BridgeDaemon → List AgentSession → List (Key × ℕ) → Key → List (Key × ℕ) × Bool
unfolding miss
miss_of d latest counts key = if is_seen latest key then (counts, false) else miss d counts key

-- The counts after all candidates, and the keys to drop.
unfoldable pub count_misses :
    BridgeDaemon → List AgentSession → List (Key × ℕ) → List Key → List (Key × ℕ) × List Key
unfolding miss_of
count_misses d latest counts [] = (counts, [])
count_misses d latest counts (key ∷ keys) =
    let here = miss_of d latest counts key in
    let rest = count_misses d latest here.0 keys in
    (rest.0, if here.1 then key ∷ rest.1 else rest.1)

-- One round of the loop that drops the missing agents.
abbrev pub drop_agent : BridgeDaemon → Key → BridgeDaemon
drop_agent d key = record d {
  registered = remove key_dec key d.registered;
  pending_board_sessions = retain (λ pending. not (key_eq pending key)) d.pending_board_sessions;
  passive_missing_counts = remove key_dec key d.passive_missing_counts;
}

unfoldable pub drop_agents : BridgeDaemon → List Key → BridgeDaemon
drop_agents d [] = d
drop_agents d (key ∷ keys) = drop_agents (drop_agent d key) keys

-- The new state, and the keys that were dropped.
unfoldable pub prune_missing_passive_sessions :
    BridgeDaemon → List AgentSession → BridgeDaemon × List Key
unfolding forget_seen count_misses drop_agents
prune_missing_passive_sessions d latest =
    let candidates = keys_where is_candidate d.registered in
    let counted = count_misses d latest (forget_seen latest d.passive_missing_counts) candidates in
    (drop_agents (record d { passive_missing_counts = counted.0 }) counted.1, counted.1)

-- The activity that a new session is noted with.
abbrev seen : AgentSession → AgentActivity
seen s = record {
  agent_id = s.agent_id;
  kind = s.kind;
  activity = AgentActivityKind.seen;
  status = s.status;
  transcript_path = s.transcript_path;
}

unfoldable pub register_session : BridgeDaemon → AgentSession → BridgeDaemon × ℕ
register_session d s =
    let key = session_key s in
    let agent = from_session s in
    let forgotten = remove key_dec key d.passive_missing_counts in
    let noted = record d {
      activities = d.activities ++ (seen s ∷ []);
      passive_missing_counts = forgotten;
    } in
    if contains_key key_dec key d.registered
    then (record d { passive_missing_counts = forgotten }, 0)
    else (put_agent (enqueue_board_session_request noted agent) key agent, 1)

-- The new state, and the number of new sessions.
unfoldable pub register_discovered_sessions : BridgeDaemon → List AgentSession → BridgeDaemon × ℕ
unfolding register_session
register_discovered_sessions d [] = (d, 0)
register_discovered_sessions d (s ∷ sessions) =
    let (d', one) = register_session d s in
    let (d'', more) = register_discovered_sessions d' sessions in (d'', one + more)
