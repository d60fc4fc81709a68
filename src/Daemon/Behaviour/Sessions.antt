-- ===== src/Daemon/Behaviour/Sessions.antt =====
-- Board sessions in crates/vb-daemon/src/lib.rs: who holds a session id after the board's answers.
use vibe_bridge.Base.{
  ℕ, ◌≡◌, ◌≢◌, refl, sym, ap, subst, ◌∙◌, ◌⊎◌, inl, inr, true, false, List, ◌∷◌, ◌++◌, Option, none,
  some, get_or, if◌then◌else◌, Option-cases, ◌==◌, ℕ_discrete, arith,
}
use vibe_bridge.Base.Map.{
  Each-lookup, lookup, lookup-insert, find_where, find_where-lookup, find_where-none,
}
use vibe_bridge.Core.{BoardSid, broadcast}
use vibe_bridge.Protocol.{session_status_byte, SessionStatusByte}
use vibe_bridge.Daemon.Agent.{Key, key_dec, RegisteredAgent, sid_eq}
use vibe_bridge.Daemon.Agent.Messages.{
  board_sync_messages, push_some, terminal_replay_message_for_agent,
}
use vibe_bridge.Daemon.State.{BridgeDaemon, ok, err, response_failed}
use vibe_bridge.Daemon.Board.{
  detach, clear_board_sid_owners, handle_session_response, handle_session_invalid, focus_board_sid,
  replay_of, replay_for_key, accept_response,
}
use vibe_bridge.Daemon.Invariant.{IsAgent, IsConsistent, Inv}
use vibe_bridge.Daemon.Invariant.Sessions.{lookup-clear}
use vibe_bridge.Daemon.Invariant.Binding.{accept_response-cons, bound_to, bound_state, cleared_for}

-- The status byte says that the session exists.
abbrev pub Accepts : List ℕ → Type 0
Accepts payload =
    let status = get_or payload 0 (session_status_byte SessionStatusByte.ok) in
    (status ≡ session_status_byte SessionStatusByte.ok)
    ⊎ (status ≡ session_status_byte SessionStatusByte.created)

abbrev pub without_sid : BoardSid → Option RegisteredAgent → Option RegisteredAgent
without_sid sid none = none
without_sid sid (some b) = if sid_eq b.board_sid (some sid) then some (detach b) else some b

-- Agent `key` holds the session: it alone has the id, it is no longer in the queue, and its state
-- has been sent behind what waits for the board.
pub record Bound (d d' : BridgeDaemon) (sid : BoardSid) (key : Key) (rest : List Key) : Type 0 where
  pub agent : RegisteredAgent
  pub was : lookup key_dec key d.registered ≡ some agent
  pub holds : lookup key_dec key d'.registered ≡ some (bound_to sid agent)
  pub others :
      (j : Key)
      → key ≢ j
      → lookup key_dec j d'.registered ≡ without_sid sid (lookup key_dec j d.registered)
  pub queue : d'.pending_board_sessions ≡ rest
  pub sent : d'.board_outbox ≡ d.board_outbox ++ board_sync_messages (bound_to sid agent)

accepted :
    (d : BridgeDaemon) (sid : ℕ) (payload : List ℕ) (key : Key) (rest : List Key)
    → Accepts payload
    → sid ≢ 0
    → d.pending_board_sessions ≡ key ∷ rest
    → handle_session_response d sid payload ≡ accept_response d sid (key ∷ rest)
unfolding handle_session_response
accepted d sid payload key rest good pos queue = ground arith

others_lem :
    (d : BridgeDaemon) (sid : BoardSid) (key j : Key) (rest : List Key) (a : RegisteredAgent)
    → Inv d
    → key ≢ j
    → lookup key_dec j (bound_state d sid key rest a).registered
      ≡ without_sid sid (lookup key_dec j d.registered)
others_lem d sid key j rest a v other = ground (
  arith,
  lookup-insert key_dec key j (bound_to sid a) (cleared_for d sid key rest).registered,
  lookup-clear (record d { pending_board_sessions = rest }) sid (some key) j v.distinct,
)

-- In a consistent state with a request in the queue, a response that carries a session id and says
-- that the session exists succeeds. The first agent of the queue gets the id, every other agent that
-- had it loses it, all other agents are as they were, the queue moves on, and the agent's state is
-- put behind the messages that wait for the board.
pub session_response_binds :
    (d : BridgeDaemon) (sid : ℕ) (payload : List ℕ) (key : Key) (rest : List Key)
    → Inv d
    → d.pending_board_sessions ≡ key ∷ rest
    → sid ≢ 0
    → Accepts payload
    → let (d', answer) = handle_session_response d sid payload in
      (answer ≡ ok tt) × Bound d d' sid key rest
unfolding clear_board_sid_owners
session_response_binds d sid payload key rest v queue pos good =
    let w = subst (IsConsistent d.registered) queue v in
    let (a, found, same) = accept_response-cons d sid key rest w in
    let all = accepted d sid payload key rest good pos queue ∙ same in
    rw all (
      refl,
      record {
        agent = a;
        was = found;
        holds = ground (
          arith,
          lookup-insert key_dec key key (bound_to sid a) (cleared_for d sid key rest).registered,
        );
        others = λ j other. others_lem d sid key j rest a v other;
        queue = refl;
        sent = refl;
      },
    )

-- What the daemon answers to a status that is neither of the two, and that the request it answers
-- stays in the queue.
refused_lem :
    (d : BridgeDaemon) (sid : ℕ) (refused : List ℕ)
    → sid ≢ 0
    → ¬ Accepts refused
    → handle_session_response d sid refused
      ≡ (d, err (response_failed (get_or refused 0 (session_status_byte SessionStatusByte.ok))))
unfolding handle_session_response
refused_lem d sid refused pos bad = ground arith

-- In a consistent state with a request in the queue, a response that refuses it (with a status that
-- is neither of the two) is answered with an error, and the next response, if it carries a session id
-- and says that the session exists, gives this session to the agent whose request was refused: the
-- agents behind it in the queue go on waiting, although the second response answers one of them.
pub refusal_serves_first :
    (d : BridgeDaemon) (sid : ℕ) (refused : List ℕ) (next_sid : ℕ) (next : List ℕ) (key : Key)
    (rest : List Key)
    → Inv d
    → d.pending_board_sessions ≡ key ∷ rest
    → sid ≢ 0
    → ¬ Accepts refused
    → next_sid ≢ 0
    → Accepts next
    → let (d1, first) = handle_session_response d sid refused in
      let (d2, second) = handle_session_response d1 next_sid next in
      (first ≡ err (response_failed (get_or refused 0 (session_status_byte SessionStatusByte.ok))))
      × (second ≡ ok tt)
      × Bound d d2 next_sid key rest
refusal_serves_first d sid refused next_sid next key rest v queue pos bad next_pos good =
    let (answer, bound) = session_response_binds d next_sid next key rest v queue next_pos good in
    rw (refused_lem d sid refused pos bad) (refl, answer, bound)

sid_eq-detached :
    (b : RegisteredAgent) (sid : BoardSid) → sid_eq (detach b).board_sid (some sid) ≡ false
unfolding sid_eq
sid_eq-detached b sid = refl

sid_eq-without_sid :
    (o : Option RegisteredAgent) (b : RegisteredAgent) (sid : BoardSid)
    → without_sid sid o ≡ some b
    → sid_eq b.board_sid (some sid) ≡ false
sid_eq-without_sid none b sid e = absurd (cc e)
sid_eq-without_sid (some a) b sid e = ground (arith, sid_eq-detached a sid, e)

-- After SESSION_INVALID for an id that is not the broadcast id, in a consistent state, no agent has
-- the id: its holder has no session but is else as it was, and every other agent is as it was. The id
-- is no longer focused, another focus stays, nothing else of the daemon's state changes, and the
-- answer is a success.
pub session_invalid_detaches :
    (d : BridgeDaemon) (sid : ℕ) (payload : List ℕ)
    → Inv d
    → sid ≢ broadcast
    → let (d', answer) = handle_session_invalid d sid payload in
      (answer ≡ ok tt)
      × ((j : Key)
          → lookup key_dec j d'.registered ≡ without_sid sid (lookup key_dec j d.registered))
      × ((j : Key) (b : RegisteredAgent)
          → lookup key_dec j d'.registered ≡ some b
          → sid_eq b.board_sid (some sid) ≡ false)
      × (d' ≡ record d {
        registered = d'.registered;
        focused_board_sid =
            if sid_eq d.focused_board_sid (some sid) then none else d.focused_board_sid;
      })
unfolding handle_session_invalid clear_board_sid_owners
session_invalid_detaches d sid payload v n =
    let z : (sid == broadcast) ≡ false = ground arith in
    let cleared : (j : Key)
        → lookup key_dec j (clear_board_sid_owners d sid none).0.registered
          ≡ without_sid sid (lookup key_dec j d.registered) =
      λ j. ground (arith, lookup-clear d sid none j v.distinct) in
    rw (handle_session_invalid, z)
      (
        refl,
        cleared,
        λ j b e. sid_eq-without_sid (lookup key_dec j d.registered) b sid (sym (cleared j) ∙ e),
        refl,
      )

sid_eq-some : (o : Option BoardSid) (sid : BoardSid) → sid_eq o (some sid) ≡ true → o ≡ some sid
unfolding sid_eq
sid_eq-some none sid h = absurd (cc)
sid_eq-some (some t) sid h = ground arith

sid_eq_refl : (o : Option BoardSid) (sid : BoardSid) → o ≡ some sid → sid_eq o (some sid) ≡ true
unfolding sid_eq
sid_eq_refl none sid h = absurd (cc)
sid_eq_refl (some t) sid h = ground arith

-- The owner of a session is the agent that a search by the id finds.
pub owner_found :
    (d : BridgeDaemon) (sid : BoardSid) (key : Key) (a : RegisteredAgent)
    → Inv d
    → lookup key_dec key d.registered ≡ some a
    → a.board_sid ≡ some sid
    → find_where (λ k b. sid_eq b.board_sid (some sid)) d.registered ≡ some (key, a)
owner_found d sid key a v found has =
    elim (Option-cases (find_where (λ k b. sid_eq b.board_sid (some sid)) d.registered)) [
      | inl nobody ↦ absurd (
          ground (
            arith,
            find_where-none key_dec _ d.registered key a nobody found,
            sid_eq_refl a.board_sid sid has,
          ))
      | inr ((k, b), there) ↦
          let (kept, passes) = find_where-lookup key_dec _ d.registered k b v.distinct there in
          let owns : b.board_sid ≡ some sid = sid_eq-some b.board_sid sid passes in
          let same : k ≡ key = v.exclusive k key b a sid kept found owns has in
          let one : lookup key_dec k d.registered ≡ some a =
            subst (λ i. lookup key_dec i d.registered ≡ some a) (sym same) found in
          ground (arith, there, one, kept, same)
    ]

-- It is not the broadcast id.
pub owner_nonzero :
    (d : BridgeDaemon) (sid : ℕ) (key : Key) (a : RegisteredAgent)
    → Inv d
    → lookup key_dec key d.registered ≡ some a
    → a.board_sid ≡ some sid
    → (sid == 0) ≡ false
owner_nonzero d sid key a v found has = elim (ℕ_discrete sid 0) [
  | yes zero_sid ↦
      absurd (
        (Each-lookup key_dec IsAgent key a d.registered v.agents found).sid
          (has ∙ ap some zero_sid))
  | no other ↦ ground arith
]

-- In a consistent state, focusing the session of an agent records the focus and puts that agent's
-- screen, and no other message, behind the messages that wait for the board.
pub focus_shows_owner :
    (d : BridgeDaemon) (sid : ℕ) (key : Key) (a : RegisteredAgent)
    → Inv d
    → lookup key_dec key d.registered ≡ some a
    → a.board_sid ≡ some sid
    → focus_board_sid d sid ≡ record d {
      focused_board_sid = some sid;
      board_outbox = d.board_outbox ++ push_some (terminal_replay_message_for_agent a);
    }
unfolding focus_board_sid replay_of replay_for_key
focus_shows_owner d sid key a v found has =
    rw
      (
        focus_board_sid,
        owner_nonzero d sid key a v found has,
        owner_found d sid key a v found has,
        replay_of,
        replay_for_key,
        found,
      )
      refl
