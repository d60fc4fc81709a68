-- ===== src/Daemon/Behaviour/Discovery.antt =====
-- Passive discovery and the heartbeat in crates/vb-daemon/src/lib.rs: which agents they touch.
use vibe_bridge.Base.{
  ℕ, ◌≡◌, ◌≢◌, ◌+◌, min, refl, ap, ◌⊎◌, inl, inr, true, false, List, [], ◌∷◌, ◌++◌, none, some,
  if◌then◌else◌, Option-cases, arith,
}
use vibe_bridge.Base.Map.{
  lookup-remove_other, lookup-insert, lookup, remove, member, lookup-remove, remove-Distinct,
  Distinct,
}
use vibe_bridge.Core.{AgentSession, BoardSid, broadcast}
use vibe_bridge.Transport.{HidMessage}
use vibe_bridge.Daemon.Agent.{Key, key_dec, RegisteredAgent}
use vibe_bridge.Daemon.State.{BridgeDaemon}
use vibe_bridge.Daemon.Passive.{
  drop_agent, drop_agents, forget_seen, miss, miss_of, count_misses, is_seen, session_key,
}
use vibe_bridge.Daemon.Heartbeat.{beat, beats, heartbeat_round}

-- The agents that stay are as they were.
pub lookup-drop_agents :
    (keys : List Key) (d : BridgeDaemon) (j : Key)
    → Distinct d.registered
    → lookup key_dec j (drop_agents d keys).registered
      ≡ (if member key_dec j keys then none else lookup key_dec j d.registered)
unfolding drop_agents member
lookup-drop_agents [] d j v = refl
lookup-drop_agents (key ∷ keys) d j v = ground (
  arith,
  lookup-remove key_dec key j d.registered v,
  lookup-drop_agents keys (drop_agent d key) j (remove-Distinct key_dec key d.registered v),
)

miss_of-seen :
    (d : BridgeDaemon) (latest : List AgentSession) (counts : List (Key × ℕ)) (j : Key)
    → is_seen latest j ≡ true
    → miss_of d latest counts j ≡ (counts, false)
unfolding miss_of
miss_of-seen d latest counts j h = rw (miss_of, h) refl

-- A key is dropped only if it is a candidate that the snapshot does not show.
pub dropped_missing :
    (d : BridgeDaemon) (latest : List AgentSession) (keys : List Key) (counts : List (Key × ℕ))
    (j : Key)
    → (member key_dec j keys ≡ false) ⊎ (is_seen latest j ≡ true)
    → member key_dec j (count_misses d latest counts keys).1 ≡ false
unfolding count_misses member
dropped_missing d latest [] counts j why = refl
dropped_missing d latest (key ∷ keys) counts j why = ground (
  arith,
  miss_of-seen d latest counts j,
  λ (e : member key_dec j keys ≡ false).
      dropped_missing d latest keys (miss_of d latest counts key).0 j (inl e),
  λ (e : is_seen latest j ≡ true).
      dropped_missing d latest keys (miss_of d latest counts key).0 j (inr e),
)

pub miss-other :
    (d : BridgeDaemon) (latest : List AgentSession) (counts : List (Key × ℕ)) (key j : Key)
    → key ≢ j
    → lookup key_dec j (miss_of d latest counts key).0 ≡ lookup key_dec j counts
unfolding miss_of miss
miss-other d latest counts key j n = elim (Option-cases (lookup key_dec key counts)) [
  | inl first ↦ ground (arith, first, lookup-insert key_dec key j 1 counts)
  | inr (c, again) ↦ ground (arith, again, lookup-insert key_dec key j (min (c + 1) 255) counts)
]

pub lookup-forget_seen :
    (latest : List AgentSession) (counts : List (Key × ℕ)) (j : Key)
    → is_seen latest j ≡ false
    → lookup key_dec j (forget_seen latest counts) ≡ lookup key_dec j counts
unfolding forget_seen
lookup-forget_seen [] counts j h = refl
lookup-forget_seen (s ∷ latest) counts j h = ground (
  arith,
  lookup-forget_seen latest (remove key_dec (session_key s) counts) j,
  lookup-remove_other key_dec (session_key s) j counts,
)

beats_later :
    (k : Key) (b : RegisteredAgent) (table : List (Key × RegisteredAgent))
    (before after : List HidMessage) (sid : BoardSid)
    → beats table ≡ before ++ (beat sid ∷ after)
    → (front : List HidMessage) × (back : List HidMessage) × (beats ((k, b) ∷ table)
        ≡ front ++ (beat sid ∷ back))
unfolding beats
beats_later k b table before after sid split = elim (Option-cases b.board_sid) [
  | inl unbound ↦ (before, after, rw (beats, unbound) split)
  | inr (s, bound) ↦ (beat s ∷ before, after, rw (beats, bound) (ap (◌∷◌ (beat s)) split))
]

beats_covers :
    (table : List (Key × RegisteredAgent)) (key : Key) (a : RegisteredAgent) (sid : BoardSid)
    → lookup key_dec key table ≡ some a
    → a.board_sid ≡ some sid
    → (before : List HidMessage) × (after : List HidMessage) × (beats table
        ≡ before ++ (beat sid ∷ after))
unfolding beats lookup
beats_covers [] key a sid found has = absurd (cc)
beats_covers ((k, b) ∷ table) key a sid found has = elim (key_dec k key) [
  | yes same ↦ ([], beats table, ground arith)
  | no other ↦
      let (before, after, split) = beats_covers table key a sid (ground arith) has in
      beats_later k b table before after sid split
]

-- In each round, the heartbeat puts a message without payload for the broadcast id, and behind it one
-- for the session of each agent that has one, behind the messages that wait for the board. The table
-- does not change.
pub heartbeat_covers :
    (d : BridgeDaemon) (key : Key) (a : RegisteredAgent) (sid : BoardSid)
    → lookup key_dec key d.registered ≡ some a
    → a.board_sid ≡ some sid
    → (before : List HidMessage) × (after : List HidMessage) × (heartbeat_round d ≡ record d {
      board_outbox = d.board_outbox ++ (beat broadcast ∷ (before ++ (beat sid ∷ after)));
    })
unfolding heartbeat_round
heartbeat_covers d key a sid found has =
    let (before, after, split) = beats_covers d.registered key a sid found has in
    (before, after, rw (heartbeat_round, split) refl)
