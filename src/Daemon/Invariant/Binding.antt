-- ===== src/Daemon/Invariant/Binding.antt =====
-- `handle_session_response` of crates/vb-daemon/src/lib.rs: an agent gets its board session.
use vibe_bridge.Base.{
  ◌≡◌, ◌≢◌, inl, inr, ◌&&◌, List, ◌∷◌, ◌++◌, some, if◌then◌else◌, arith, Option-cases,
}
use vibe_bridge.Base.Map.{
  lookup, insert, Distinct, lookup-insert, insert-Distinct, insert-Each, Each-lookup,
}
use vibe_bridge.Core.{BoardSid}
use vibe_bridge.Daemon.Agent.{Key, key_dec, RegisteredAgent, sid_eq, is_some}
use vibe_bridge.Daemon.Agent.Messages.{board_sync_messages}
use vibe_bridge.Daemon.State.{BridgeDaemon, ok}
use vibe_bridge.Daemon.Board.{clear_board_sid_owners, bind_agent, accept_response}
use vibe_bridge.Daemon.Invariant.{IsAgent, Table, Exclusive, IsConsistent}
use vibe_bridge.Daemon.Invariant.Agents.{sid-IsAgent}
use vibe_bridge.Daemon.Invariant.Table.{known-insert}
use vibe_bridge.Daemon.Invariant.Sessions.{lookup-clear, clear-origin, clear-IsConsistent}

abbrev pub bound_to : BoardSid → RegisteredAgent → RegisteredAgent
bound_to sid a = record a { board_sid = some sid }

-- Where only `key` may hold `sid`, giving `sid` to `key` keeps sessions exclusive.
bind-Exclusive :
    (table : Table) (key : Key) (a : RegisteredAgent) (sid : BoardSid)
    → Exclusive table
    → ((j : Key) (b : RegisteredAgent)
        → lookup key_dec j table ≡ some b
        → b.board_sid ≡ some sid
        → j ≡ key)
    → Exclusive (insert key_dec key (bound_to sid a) table)
bind-Exclusive table key a sid ex only i j b c s fi fj hi hj = ground (
  arith,
  lookup-insert key_dec key i (bound_to sid a) table,
  lookup-insert key_dec key j (bound_to sid a) table,
  ex i j b c s,
  only i b,
  only j c,
)

-- After the clearing for `key`, no other agent holds the id.
only_kept :
    (d : BridgeDaemon) (sid : BoardSid) (key j : Key) (b : RegisteredAgent)
    → Distinct d.registered
    → lookup key_dec j (clear_board_sid_owners d sid (some key)).0.registered ≡ some b
    → b.board_sid ≡ some sid
    → j ≡ key
unfolding sid_eq
only_kept d sid key j b v found has =
    ground (arith, clear-origin d sid (some key) j b sid v found has)

-- And `key` is untouched.
kept :
    (d : BridgeDaemon) (sid : BoardSid) (key : Key)
    → Distinct d.registered
    → lookup key_dec key (clear_board_sid_owners d sid (some key)).0.registered
      ≡ lookup key_dec key d.registered
kept d sid key v = ground (arith, lookup-clear d sid (some key) key v)

-- The state from which `accept_response` binds the first agent that waits.
abbrev pub cleared_for : BridgeDaemon → BoardSid → Key → List Key → BridgeDaemon
cleared_for d sid key rest =
    (clear_board_sid_owners (record d { pending_board_sessions = rest }) sid (some key)).0

-- The state with the agent bound.
abbrev pub bound_state : BridgeDaemon → BoardSid → Key → List Key → RegisteredAgent → BridgeDaemon
bound_state d sid key rest a =
    let c = cleared_for d sid key rest in
    record c {
      registered = insert key_dec key (bound_to sid a) c.registered;
      focused_board_sid =
          if is_some a.board_sid && sid_eq c.focused_board_sid a.board_sid
          then some sid
          else c.focused_board_sid;
      board_outbox = c.board_outbox ++ board_sync_messages (bound_to sid a);
    }

-- In a consistent state the first agent that waits is registered, and a response binds it.
pub accept_response-cons :
    (d : BridgeDaemon) (sid : BoardSid) (key : Key) (rest : List Key)
    → IsConsistent d.registered (key ∷ rest)
    → (a : RegisteredAgent) × (lookup key_dec key d.registered ≡ some a)
      × (accept_response d sid (key ∷ rest) ≡ (bound_state d sid key rest a, ok tt))
unfolding accept_response bind_agent
accept_response-cons d sid key rest v = elim (Option-cases (lookup key_dec key d.registered)) [
  | inl gone ↦ ground (arith, v.known.0)
  | inr (a, found) ↦
      let same = kept (record d { pending_board_sessions = rest }) sid key v.distinct in
      (a, found, rw (same, found))
]

tail-IsConsistent :
    {table : Table} {key : Key} {rest : List Key}
    → IsConsistent table (key ∷ rest)
    → IsConsistent table rest
tail-IsConsistent v = record {
  distinct = v.distinct;
  agents = v.agents;
  exclusive = v.exclusive;
  known = v.known.1;
  once = v.once.1;
}

pub bound_state-IsConsistent :
    (d : BridgeDaemon) (sid : BoardSid) (key : Key) (rest : List Key) (a : RegisteredAgent)
    → sid ≢ 0
    → IsConsistent d.registered (key ∷ rest)
    → lookup key_dec key d.registered ≡ some a
    → IsConsistent (bound_state d sid key rest a).registered rest
bound_state-IsConsistent d sid key rest a pos v found =
    let d' = record d { pending_board_sessions = rest } in
    let c = clear-IsConsistent d' sid (some key) rest (tail-IsConsistent v) in
    let good : IsAgent key (bound_to sid a) =
      sid-IsAgent (some sid) a (λ e. pos (ground arith))
        (Each-lookup key_dec IsAgent key a d.registered v.agents found) in
    record {
      distinct = insert-Distinct key_dec key (bound_to sid a) _ c.distinct;
      agents = insert-Each key_dec IsAgent key (bound_to sid a) _ good c.agents;
      exclusive =
          bind-Exclusive _ key a sid c.exclusive (λ j b. only_kept d' sid key j b v.distinct);
      known = known-insert _ key (bound_to sid a) rest c.known;
      once = c.once;
    }
