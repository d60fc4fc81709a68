-- ===== src/Daemon/Invariant/Registering.antt =====
-- Registrations of crates/vb-daemon/src/lib.rs keep the invariant: a hook's or a launch's
-- ("agent.register"), and a session's that the poller discovers.
use vibe_bridge.Base.{
  ◌≡◌, refl, inl, inr, Bool, true, false, List, [], ◌∷◌, ◌++◌, All-append, any, arith, Option-cases,
  Bool-cases,
}
use vibe_bridge.Base.Map.{lookup, insert, contains_key, lookup-insert, Each-lookup}
use vibe_bridge.Core.{AgentSession}
use vibe_bridge.Daemon.Agent.{
  Key, key_dec, key_of, RegisteredAgent, is_some, from_session, is_transport_only_terminal,
}
use vibe_bridge.Daemon.State.{BridgeDaemon, put_agent}
use vibe_bridge.Daemon.Board.{key_eq, enqueue_board_session_request}
use vibe_bridge.Daemon.Requests.{merge_existing, announce, register_merged, register}
use vibe_bridge.Daemon.Passive.{session_key, register_session, register_discovered_sessions}
use vibe_bridge.Daemon.Invariant.{IsAgent, Table, NoRepeat, IsConsistent, Inv}
use vibe_bridge.Daemon.Invariant.Agents.{
  IsFresh, IsFresh-IsAgent, merge_existing-IsAgent, from_session-IsAgent,
}
use vibe_bridge.Daemon.Invariant.Table.{KeepsSid, insert-IsConsistent}

any-append_one :
    (p : Key → Bool) (ks : List Key) (k : Key)
    → any p ks ≡ false
    → p k ≡ false
    → any p (ks ++ (k ∷ [])) ≡ false
any-append_one p [] k h g = rw g refl
any-append_one p (j ∷ ks) k h g = ground (arith, any-append_one p ks k)

append-NoRepeat :
    (ks : List Key) (k : Key)
    → NoRepeat ks
    → any (λ pending. key_eq pending k) ks ≡ false
    → NoRepeat (ks ++ (k ∷ []))
append-NoRepeat [] k h g = (refl, tt)
append-NoRepeat (j ∷ ks) k h g =
    ground (arith, append-NoRepeat ks k h.1, any-append_one (λ pending. key_eq pending j) ks k h.0)

-- An agent may wait for a session from when it is in the table.
wait-IsConsistent :
    {table : Table} {pending : List Key} (key : Key) (a : RegisteredAgent)
    → IsConsistent table pending
    → any (λ k. key_eq k key) pending ≡ false
    → KeepsSid table key a
    → IsAgent key a
    → IsConsistent (insert key_dec key a table) (pending ++ (key ∷ []))
wait-IsConsistent {table} {pending} key a v fresh keeps good =
    let w = insert-IsConsistent key a v keeps good in
    record {
      distinct = w.distinct;
      agents = w.agents;
      exclusive = w.exclusive;
      known =
          All-append _ pending (key ∷ []) w.known
            (ground (arith, lookup-insert key_dec key key a table), tt);
      once = append-NoRepeat pending key v.once fresh;
    }

enqueue-IsConsistent :
    (d : BridgeDaemon) (a : RegisteredAgent)
    → Inv d
    → KeepsSid d.registered (key_of a) a
    → IsAgent (key_of a) a
    → Inv (put_agent (enqueue_board_session_request d a) (key_of a) a)
unfolding enqueue_board_session_request
enqueue-IsConsistent d a v keeps good =
    elim (Bool-cases (any (λ pending. key_eq pending (key_of a)) d.pending_board_sessions)) [
      | inl waits ↦ rw waits (insert-IsConsistent (key_of a) a v keeps good)
      | inr fresh ↦ rw fresh (wait-IsConsistent (key_of a) a v fresh keeps good)
    ]

register_merged-Inv :
    (d : BridgeDaemon) (a : RegisteredAgent) (bound : Bool)
    → Inv d
    → KeepsSid d.registered (key_of a) a
    → IsAgent (key_of a) a
    → Inv (register_merged d a bound)
unfolding register_merged announce
register_merged-Inv d a true v keeps good = insert-IsConsistent (key_of a) a v keeps good
register_merged-Inv d a false v keeps good = elim (Bool-cases (is_some a.board_sid)) [
  | inl has ↦ rw has (insert-IsConsistent (key_of a) a v keeps good)
  | inr unbound ↦ elim (Bool-cases (is_transport_only_terminal a)) [
    | inl only ↦ rw (unbound, only) (insert-IsConsistent (key_of a) a v keeps good)
    | inr shown ↦ rw (unbound, shown) (enqueue-IsConsistent _ a v keeps good)
  ]
]

pub register-Inv :
    (d : BridgeDaemon) (a : RegisteredAgent) → Inv d → IsFresh a → Inv (register d a).0
unfolding register merge_existing
register-Inv d a v fresh = elim (Option-cases (lookup key_dec (key_of a) d.registered)) [
  | inl new ↦
      rw (register, new) (register_merged-Inv d a false v (inl fresh.sid) (IsFresh-IsAgent a fresh))
  | inr (existing, found) ↦
      rw (register, found)
        (register_merged-Inv d (merge_existing existing a) (is_some existing.board_sid) v
          (inr (existing, found, refl))
          (merge_existing-IsAgent existing a refl
            (Each-lookup key_dec IsAgent (key_of a) existing d.registered v.agents found)))
]

register_session-Inv : (d : BridgeDaemon) (s : AgentSession) → Inv d → Inv (register_session d s).0
unfolding register_session from_session
register_session-Inv d s v = elim (Bool-cases (contains_key key_dec (session_key s) d.registered)) [
  | inl known ↦ rw known v
  | inr new ↦ rw new (enqueue-IsConsistent _ (from_session s) v (inl refl) (from_session-IsAgent s))
]

pub register_discovered-Inv :
    (d : BridgeDaemon) (sessions : List AgentSession)
    → Inv d
    → Inv (register_discovered_sessions d sessions).0
unfolding register_discovered_sessions
register_discovered-Inv d [] v = v
register_discovered-Inv d (s ∷ sessions) v =
    register_discovered-Inv (register_session d s).0 sessions (register_session-Inv d s v)
