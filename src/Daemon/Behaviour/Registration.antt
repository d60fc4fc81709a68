-- ===== src/Daemon/Behaviour/Registration.antt =====
-- Registrations in crates/vb-daemon/src/lib.rs ("agent.register").
use vibe_bridge.Base.{
  ℕ, ◌≡◌, ◌≢◌, refl, subst, ℕ_discrete, inl, inr, Bool, true, List, [], ◌∷◌, ◌++◌, none, some, any,
  Option-cases, arith, ◌⊎◌,
}
use vibe_bridge.Base.Map.{lookup, insert, lookup-insert}
use vibe_bridge.Daemon.Agent.{
  Key, key_dec, key_of, RegisteredAgent, is_some, is_transport_only_terminal,
}
use vibe_bridge.Daemon.State.{BridgeDaemon, ok}
use vibe_bridge.Daemon.Board.{key_eq, enqueue_board_session_request}
use vibe_bridge.Daemon.Requests.{
  register, register_merged, announce, seen, merge_existing, agent_registered, permission_poll,
}

-- What an agent `b` keeps of what it was before it registered again as `a`.
pub record Kept (old a b : RegisteredAgent) : Type 0 where
  pub sid : b.board_sid ≡ old.board_sid
  pub usage : b.usage ≡ old.usage
  pub turns : b.turns ≡ old.turns
  pub pending : b.pending_permissions ≡ old.pending_permissions
  pub resolved : b.resolved_permissions ≡ old.resolved_permissions
  pub terminal : b.terminal ≡ old.terminal
  pub launched : old.from_launch ≡ true → b.from_launch ≡ true
  pub attached : a.attached_terminal ≡ none → b.attached_terminal ≡ old.attached_terminal
  pub told :
      (b.name ≡ a.name)
      × (b.cwd ≡ a.cwd)
      × (b.status ≡ a.status)
      × (b.focus_target ≡ a.focus_target)
      × (b.terminal_hwnd ≡ a.terminal_hwnd)

merge_existing-Kept : (old a : RegisteredAgent) → Kept old a (merge_existing old a)
unfolding merge_existing
merge_existing-Kept old a = record {
  sid = refl;
  usage = refl;
  turns = refl;
  pending = refl;
  resolved = refl;
  terminal = refl;
  launched = λ h. ground (arith, h);
  attached = λ h. rw h refl;
  told = (refl, refl, refl, refl, refl);
}

-- A poll's answer depends on the agent's permissions alone.
poll-same :
    (d d' : BridgeDaemon) (key : Key) (old b : RegisteredAgent) (req_id : ℕ)
    → lookup key_dec key d.registered ≡ some old
    → lookup key_dec key d'.registered ≡ some b
    → b.pending_permissions ≡ old.pending_permissions
    → b.resolved_permissions ≡ old.resolved_permissions
    → (permission_poll d' key req_id).1 ≡ (permission_poll d key req_id).1
unfolding permission_poll
poll-same d d' key old b req_id before after pending resolved =
    elim (Option-cases (lookup ℕ_discrete req_id old.resolved_permissions)) [
      | inl waits ↦ ground (arith, before, after, pending, resolved, waits)
      | inr (decision, decided) ↦ ground (arith, before, after, pending, resolved, decided)
    ]

-- An agent that has a session registers again. It keeps its session, usage, turns, permissions,
-- screen and, unless it names another, its terminal, and stays launched if it was; its name, folder,
-- status and window are the new ones. Its permission polls are answered as before. Every other agent
-- is as it was, and the board hears nothing, the queue, the focus and the counts stay.
pub reregister_keeps :
    (d : BridgeDaemon) (a old : RegisteredAgent)
    → lookup key_dec (key_of a) d.registered ≡ some old
    → is_some old.board_sid ≡ true
    → let (d', answer) = register d a in
      (answer ≡ ok agent_registered)
      × ((b : RegisteredAgent) × (lookup key_dec (key_of a) d'.registered ≡ some b) × Kept old a b)
      × ((req_id : ℕ)
          → (permission_poll d' (key_of a) req_id).1 ≡ (permission_poll d (key_of a) req_id).1)
      × ((j : Key) → key_of a ≢ j → lookup key_dec j d'.registered ≡ lookup key_dec j d.registered)
      × (d' ≡ record d { registered = d'.registered; activities = d'.activities })
unfolding register register_merged announce merge_existing
reregister_keeps d a old found bound =
    let b = merge_existing old a in
    let entry = λ (j : Key). lookup-insert key_dec (key_of a) j b d.registered in
    let there : lookup key_dec (key_of a) (insert key_dec (key_of a) b d.registered) ≡ some b =
      ground (arith, entry (key_of a)) in
    rw (register, found, bound)
      (
        refl,
        (b, there, merge_existing-Kept old a),
        λ req_id. poll-same d _ (key_of a) old b req_id found there refl refl,
        λ j other. ground (arith, entry j),
        refl,
      )

any_last : (p : Key → Bool) (ks : List Key) (k : Key) → p k ≡ true → any p (ks ++ (k ∷ [])) ≡ true
any_last p [] k h = ground arith
any_last p (j ∷ ks) k h = ground (arith, any_last p ks k h)

-- Why the board need not hear of an agent again.
abbrev Settled : BridgeDaemon → RegisteredAgent → Type 0
Settled d m =
    (is_some m.board_sid ≡ true)
    ⊎ ((is_transport_only_terminal m ≡ true)
        ⊎ (any (λ pending. key_eq pending (key_of m)) d.pending_board_sessions ≡ true))

register_merged-Settled :
    (d : BridgeDaemon) (m : RegisteredAgent) → Settled (register_merged d m (is_some m.board_sid)) m
unfolding register_merged announce enqueue_board_session_request
register_merged-Settled d m =
    ground
      (arith, any_last (λ pending. key_eq pending (key_of m)) d.pending_board_sessions (key_of m))

register_merged-found :
    (d : BridgeDaemon) (m : RegisteredAgent) (bound : Bool)
    → lookup key_dec (key_of m) (register_merged d m bound).registered ≡ some m
unfolding register_merged
register_merged-found d m bound = ground (
  arith,
  lookup-insert key_dec (key_of m) (key_of m) m
      (announce (record d { activities = d.activities ++ (seen m ∷ []) }) m bound).registered,
)

abbrev SameQueues : BridgeDaemon → BridgeDaemon → Type 0
SameQueues d' d =
    (d'.board_outbox ≡ d.board_outbox) × (d'.pending_board_sessions ≡ d.pending_board_sessions)

-- What a registration merges into a settled agent leaves it settled, so nothing is sent.
again_lem :
    (d : BridgeDaemon) (m a : RegisteredAgent)
    → key_of m ≡ key_of a
    → Settled d m
    → SameQueues (register_merged d (merge_existing m a) (is_some m.board_sid)) d
unfolding register_merged announce merge_existing enqueue_board_session_request
    is_transport_only_terminal
again_lem d m a same (inl bound) = ground arith
again_lem d m a same (inr (inl shown)) = ground arith
again_lem d m a same (inr (inr waits)) = ground arith

register-known :
    (d : BridgeDaemon) (a m : RegisteredAgent)
    → lookup key_dec (key_of a) d.registered ≡ some m
    → register d a
      ≡ (register_merged d (merge_existing m a) (is_some m.board_sid), ok agent_registered)
unfolding register
register-known d a m found = rw (register, found) refl

registered_as :
    (d : BridgeDaemon) (a : RegisteredAgent)
    → a.board_sid ≡ none
    → (m : RegisteredAgent) × (key_of m ≡ key_of a)
      × (register d a ≡ (register_merged d m (is_some m.board_sid), ok agent_registered))
unfolding register merge_existing
registered_as d a fresh = elim (Option-cases (lookup key_dec (key_of a) d.registered)) [
  | inl new ↦ (a, refl, rw (register, new, fresh) refl)
  | inr (old, found) ↦ (merge_existing old a, refl, register-known d a old found)
]

-- An agent that has no session of its own registers twice in a row: the second registration asks the
-- board for nothing that the first one did not ask for, and sends nothing.
pub register_asks_once :
    (d : BridgeDaemon) (a : RegisteredAgent)
    → a.board_sid ≡ none
    → let d1 = (register d a).0 in
      let d2 = (register d1 a).0 in
      (d2.board_outbox ≡ d1.board_outbox) × (d2.pending_board_sessions ≡ d1.pending_board_sessions)
unfolding register
register_asks_once d a fresh =
    let (m, same, once) = registered_as d a fresh in
    let d1 = register_merged d m (is_some m.board_sid) in
    let twice = register-known d1 a m (
      subst (λ k. lookup key_dec k d1.registered ≡ some m) same
        (register_merged-found d m (is_some m.board_sid))) in
    rw (once, twice) (again_lem d1 m a same (register_merged-Settled d m))
