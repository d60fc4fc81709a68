-- ===== src/Daemon/Behaviour/Snapshot.antt =====
-- `poll_once` of crates/vb-daemon/src/lib.rs: which sessions a snapshot lists, and in which order; and
-- "session.abort", after which an agent is gone.
use vibe_bridge.Base.{
  ◌≡◌, refl, ap, subst, ◌∙◌, inl, inr, Bool, true, false, not, ◌||◌, List, [], ◌∷◌, ◌++◌, none,
  some, Text, any, retain, ite, Bool-cases, Option-cases, arith, length,
}
use vibe_bridge.Base.Map.{lookup, lookup-remove, contains_key, Each}
use vibe_bridge.Core.{AgentSession}
use vibe_bridge.Daemon.Agent.{Key, key_dec, key_of, RegisteredAgent, to_session}
use vibe_bridge.Daemon.State.{BridgeDaemon, ok, err, no_registered_agent}
use vibe_bridge.Daemon.Board.{key_eq}
use vibe_bridge.Daemon.Requests.{session_abort, session_abort_accepted}
use vibe_bridge.Daemon.Dispatch.{
  Polled, DaemonSnapshot, text_lt, insert_session, sort_sessions, session_key, add_registered,
  poll_once,
}
use vibe_bridge.Daemon.Invariant.{IsAgent, Inv}

-- Each session's id is at least that of the next, in the order of bytes.
abbrev pub Descending : List AgentSession → Type 0
Descending [] = Unit {0}
Descending (s ∷ []) = Unit {0}
Descending (s ∷ t ∷ ss) = (text_lt s.agent_id t.agent_id ≡ false) × Descending (t ∷ ss)

abbrev pub is_listed : Key → List AgentSession → Bool
is_listed key sessions = any (λ s. key_eq (session_key s) key) sessions

text_lt_asym : (s t : Text) → text_lt s t ≡ true → text_lt t s ≡ false
unfolding text_lt
text_lt_asym s [] h = absurd (cc)
text_lt_asym [] (y ∷ ys) h = refl
text_lt_asym (x ∷ xs) (y ∷ ys) h = ground (arith, text_lt_asym xs ys)

insert_cons :
    (t s : AgentSession) (ss : List AgentSession)
    → text_lt t.agent_id s.agent_id ≡ false
    → Descending (t ∷ ss)
    → Descending (insert_session s ss)
    → Descending (t ∷ insert_session s ss)
unfolding insert_session
insert_cons t s [] h d e = (h, tt)
insert_cons t s (u ∷ ss) h d e = ground arith

tail-Descending : (t : AgentSession) (ss : List AgentSession) → Descending (t ∷ ss) → Descending ss
tail-Descending t [] d = tt
tail-Descending t (u ∷ ss) d = d.1

insert_session-Descending :
    (s : AgentSession) (ss : List AgentSession) → Descending ss → Descending (insert_session s ss)
unfolding insert_session
insert_session-Descending s [] d = tt
insert_session-Descending s (t ∷ ss) d = elim (Bool-cases (text_lt s.agent_id t.agent_id)) [
  | inl lower ↦ rw lower (
      insert_cons t s ss (text_lt_asym s.agent_id t.agent_id lower) d
        (insert_session-Descending s ss (tail-Descending t ss d)))
  | inr above ↦ rw above (above, d)
]

sort-Descending : (ss : List AgentSession) → Descending (sort_sessions ss)
unfolding sort_sessions
sort-Descending [] = tt
sort-Descending (s ∷ ss) = insert_session-Descending s (sort_sessions ss) (sort-Descending ss)

any-insert :
    (p : AgentSession → Bool) (s : AgentSession) (ss : List AgentSession)
    → any p (insert_session s ss) ≡ (p s || any p ss)
unfolding insert_session
any-insert p s [] = refl
any-insert p s (t ∷ ss) = ground (arith, any-insert p s ss)

any-sort : (p : AgentSession → Bool) (ss : List AgentSession) → any p (sort_sessions ss) ≡ any p ss
unfolding sort_sessions
any-sort p [] = refl
any-sort p (s ∷ ss) = any-insert p s (sort_sessions ss) ∙ ap (λ b. p s || b) (any-sort p ss)

any-append_one :
    (p : AgentSession → Bool) (ss : List AgentSession) (s : AgentSession)
    → any p (ss ++ (s ∷ [])) ≡ (any p ss || p s)
any-append_one p [] s = ground arith
any-append_one p (t ∷ ss) s = ground (arith, any-append_one p ss s)

add-keeps :
    (table : List (Key × RegisteredAgent)) (sessions : List AgentSession) (key : Key)
    → is_listed key sessions ≡ true
    → is_listed key (add_registered sessions table) ≡ true
unfolding add_registered
add-keeps [] sessions key h = h
add-keeps ((k, a) ∷ table) sessions key h = elim (Bool-cases (is_listed (key_of a) sessions)) [
  | inl known ↦ rw known (add-keeps table sessions key h)
  | inr new ↦ rw new (
      add-keeps table (sessions ++ (to_session a ∷ [])) key
        (ground (arith, any-append_one (λ s. key_eq (session_key s) key) sessions (to_session a))))
]

key_eq_refl : (k : Key) → key_eq k k ≡ true
key_eq_refl k = ground arith

add-first :
    (k : Key) (b : RegisteredAgent) (table : List (Key × RegisteredAgent))
    (sessions : List AgentSession)
    → is_listed (key_of b) (add_registered sessions ((k, b) ∷ table)) ≡ true
unfolding add_registered to_session
add-first k b table sessions = elim (Bool-cases (is_listed (key_of b) sessions)) [
  | inl known ↦ rw known (add-keeps table sessions (key_of b) known)
  | inr new ↦ rw new (
      add-keeps table (sessions ++ (to_session b ∷ [])) (key_of b) (
        ground (
          arith,
          key_eq_refl (key_of b),
          any-append_one (λ s. key_eq (session_key s) (key_of b)) sessions (to_session b),
        )))
]

add-lists :
    (table : List (Key × RegisteredAgent)) (sessions : List AgentSession) (key : Key)
    (a : RegisteredAgent)
    → Each IsAgent table
    → lookup key_dec key table ≡ some a
    → is_listed key (add_registered sessions table) ≡ true
unfolding add_registered lookup to_session
add-lists [] sessions key a v found = absurd (cc)
add-lists ((k, b) ∷ table) sessions key a v found = elim (key_dec k key) [
  | no other ↦ elim (Bool-cases (is_listed (key_of b) sessions)) [
    | inl known ↦ rw known (add-lists table sessions key a v.1 (ground arith))
    | inr new ↦ rw new (add-lists table (sessions ++ (to_session b ∷ [])) key a v.1 (ground arith))
  ]
  | yes same ↦
      subst (λ i. is_listed i (add_registered sessions ((k, b) ∷ table)) ≡ true) (v.0.key_eq ∙ same)
        (add-first k b table sessions)
]

-- In a consistent state, where the poller answers, the snapshot is ordered by descending id, and lists
-- a session under every key that the poller found or that is registered.
pub snapshot_lists :
    (d : BridgeDaemon) (polled : Polled) (key : Key)
    → Inv d
    → (is_listed key polled.sessions || contains_key key_dec key d.registered) ≡ true
    → (snap : DaemonSnapshot) × ((poll_once d (ok polled)).1 ≡ ok snap)
      × Descending snap.sessions
      × (is_listed key snap.sessions ≡ true)
unfolding poll_once
snapshot_lists d polled key v known =
    let all = add_registered polled.sessions d.registered in
    let listed : is_listed key all ≡ true = elim (Bool-cases (is_listed key polled.sessions)) [
      | inl found ↦ add-keeps d.registered polled.sessions key found
      | inr new ↦ elim (Option-cases (lookup key_dec key d.registered)) [
        | inl gone ↦ absurd (ground arith)
        | inr (a, there) ↦ add-lists d.registered polled.sessions key a v.agents there
      ]
    ] in
    (
      record {
        sessions = sort_sessions all;
        activities = d.activities ++ polled.activities;
        registered_agents = length d.registered;
      },
      refl,
      sort-Descending all,
      any-sort _ all ∙ listed,
    )

none_waits :
    (key : Key) (ks : List Key)
    → any (λ k. key_eq k key) (retain (λ k. not (key_eq k key)) ks) ≡ false
none_waits key [] = refl
none_waits key (k ∷ ks) = ground (arith, none_waits key ks)

-- In a consistent state, aborting a registered agent is accepted. After it the agent is neither in
-- the table nor in the queue for a session, every other agent is as it was, and a second abort is an
-- error that changes nothing.
pub abort_removes :
    (d : BridgeDaemon) (key j : Key)
    → Inv d
    → contains_key key_dec key d.registered ≡ true
    → let (d', answer) = session_abort d key in
      (answer ≡ ok session_abort_accepted)
      × (lookup key_dec j d'.registered ≡ ite (key_dec key j) none (lookup key_dec j d.registered))
      × (any (λ k. key_eq k key) d'.pending_board_sessions ≡ false)
      × (session_abort d' key ≡ (d', err (no_registered_agent key)))
unfolding session_abort
abort_removes d key j v there =
    let gone = lookup-remove key_dec key key d.registered v.distinct in
    rw (session_abort, there)
      (
        refl,
        lookup-remove key_dec key j d.registered v.distinct,
        none_waits key d.pending_board_sessions,
        ground (arith, gone),
      )
