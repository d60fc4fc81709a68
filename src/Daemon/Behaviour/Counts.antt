-- ===== src/Daemon/Behaviour/Counts.antt =====
-- The counts of missing sessions in crates/vb-daemon/src/lib.rs: what one round of pruning makes of them.
use vibe_bridge.Base.{
  ℕ, ◌≡◌, ◌+◌, min, leb, Bool-cases, refl, ap, ◌∙◌, inl, inr, Bool, true, false, List, [], ◌∷◌,
  Option, none, some, if◌then◌else◌, Option-cases, arith,
}
use vibe_bridge.Base.Map.{
  Unrepeated, keys_where-Unrepeated, lookup-remove_other, lookup-insert, lookup, remove, keys_where,
  member, member-keys_where, lookup-remove, remove-Distinct, insert-Distinct, Distinct,
}
use vibe_bridge.Core.{AgentSession}
use vibe_bridge.Daemon.Agent.{Key, key_dec, RegisteredAgent}
use vibe_bridge.Daemon.State.{BridgeDaemon}
use vibe_bridge.Daemon.Passive.{
  drop_agent, drop_agents, forget_seen, miss, miss_of, count_misses, is_seen, is_candidate,
  session_key, prune_missing_passive_sessions,
}
use vibe_bridge.Daemon.Invariant.{Inv}
use vibe_bridge.Daemon.Behaviour.Discovery.{
  lookup-drop_agents, dropped_missing, miss-other, lookup-forget_seen,
}

abbrev pub Counts : Type 0
Counts = List (Key × ℕ)

-- What a round makes of the count of a registered candidate, and whether it drops the candidate.
abbrev pub counted : Bool → Option ℕ → Option ℕ × Bool
counted true o = (o, false)
counted false none = (some 1, false)
counted false (some c) = (some (min (c + 1) 255), leb 3 (min (c + 1) 255))

miss_of-counted :
    (d : BridgeDaemon) (latest : List AgentSession) (counts : Counts) (j : Key)
    (a : RegisteredAgent)
    → lookup key_dec j d.registered ≡ some a
    → ((lookup key_dec j (miss_of d latest counts j).0)
        ≡ (counted (is_seen latest j) (lookup key_dec j counts)).0)
      × ((miss_of d latest counts j).1 ≡ (counted (is_seen latest j) (lookup key_dec j counts)).1)
unfolding miss_of miss
miss_of-counted d latest counts j a found = elim (Bool-cases (is_seen latest j)) [
  | inl shown ↦ rw (shown) (refl, refl)
  | inr missing ↦ elim (Option-cases (lookup key_dec j counts)) [
    | inl first ↦ ground (arith, missing, first, found, lookup-insert key_dec j j 1 counts)
    | inr (c, again) ↦
        ground (arith, missing, again, lookup-insert key_dec j j (min (c + 1) 255) counts)
  ]
]

-- Candidates other than a key leave its count.
count_misses-absent :
    (d : BridgeDaemon) (latest : List AgentSession) (keys : List Key) (counts : Counts) (j : Key)
    → member key_dec j keys ≡ false
    → lookup key_dec j (count_misses d latest counts keys).0 ≡ lookup key_dec j counts
unfolding count_misses member
count_misses-absent d latest [] counts j h = refl
count_misses-absent d latest (key ∷ keys) counts j h = ground (
  arith,
  count_misses-absent d latest keys (miss_of d latest counts key).0 j,
  miss-other d latest counts key j,
)

-- What all candidates make of the count of one of them, and whether it is dropped.
count_misses-counted :
    (d : BridgeDaemon) (latest : List AgentSession) (keys : List Key) (counts : Counts) (j : Key)
    (a : RegisteredAgent)
    → lookup key_dec j d.registered ≡ some a
    → Unrepeated key_dec keys
    → member key_dec j keys ≡ true
    → let after = count_misses d latest counts keys in
      let expected = counted (is_seen latest j) (lookup key_dec j counts) in
      (lookup key_dec j after.0 ≡ expected.0) × (member key_dec j after.1 ≡ expected.1)
unfolding count_misses member
count_misses-counted d latest [] counts j a found once h = absurd (cc)
count_misses-counted d latest (key ∷ keys) counts j a found once h = elim (key_dec key j) [
  | yes same ↦
      let rest : member key_dec j keys ≡ false = ground (arith, once) in
      let kept = dropped_missing d latest keys (miss_of d latest counts key).0 j (inl rest) in
      let stays = count_misses-absent d latest keys (miss_of d latest counts key).0 j rest in
      let here = miss_of-counted d latest counts j a found in
      ground (arith, kept, stays, here, same)
  | no other ↦
      let later =
        count_misses-counted d latest keys (miss_of d latest counts key).0 j a found once.1
          (ground arith) in
      ground (arith, later, miss-other d latest counts key j other)
]

forget_seen-none :
    (latest : List AgentSession) (counts : Counts) (j : Key)
    → Distinct counts
    → lookup key_dec j counts ≡ none
    → lookup key_dec j (forget_seen latest counts) ≡ none
unfolding forget_seen
forget_seen-none [] counts j v h = h
forget_seen-none (s ∷ latest) counts j v h =
    forget_seen-none latest (remove key_dec (session_key s) counts) j
      (remove-Distinct key_dec (session_key s) counts v)
      (ground (arith, lookup-remove key_dec (session_key s) j counts v, h))

-- The count of a key that the snapshot shows is forgotten.
lookup-forget_seen_shown :
    (latest : List AgentSession) (counts : Counts) (j : Key)
    → Distinct counts
    → is_seen latest j ≡ true
    → lookup key_dec j (forget_seen latest counts) ≡ none
unfolding forget_seen
lookup-forget_seen_shown [] counts j v h = absurd (cc h)
lookup-forget_seen_shown (s ∷ latest) counts j v h =
    let later = remove-Distinct key_dec (session_key s) counts v in
    elim (key_dec (session_key s) j) [
      | yes same ↦
          forget_seen-none latest (remove key_dec (session_key s) counts) j later
            (ground (arith, lookup-remove key_dec (session_key s) j counts v, same))
      | no other ↦
          lookup-forget_seen_shown latest (remove key_dec (session_key s) counts) j later
            (ground (arith, h, other))
    ]

forget_seen-Distinct :
    (latest : List AgentSession) (counts : Counts)
    → Distinct counts
    → Distinct (forget_seen latest counts)
unfolding forget_seen
forget_seen-Distinct [] counts v = v
forget_seen-Distinct (s ∷ latest) counts v =
    forget_seen-Distinct latest (remove key_dec (session_key s) counts)
      (remove-Distinct key_dec (session_key s) counts v)

miss_of-Distinct :
    (d : BridgeDaemon) (latest : List AgentSession) (counts : Counts) (key : Key)
    → Distinct counts
    → Distinct (miss_of d latest counts key).0
unfolding miss_of miss
miss_of-Distinct d latest counts key v = elim (Bool-cases (is_seen latest key)) [
  | inl shown ↦ rw shown v
  | inr missing ↦ elim (Option-cases (lookup key_dec key counts)) [
    | inl first ↦ ground (arith, missing, first, insert-Distinct key_dec key 1 counts v)
    | inr (c, again) ↦
        ground (arith, missing, again, insert-Distinct key_dec key (min (c + 1) 255) counts v)
  ]
]

count_misses-Distinct :
    (d : BridgeDaemon) (latest : List AgentSession) (counts : Counts) (keys : List Key)
    → Distinct counts
    → Distinct (count_misses d latest counts keys).0
unfolding count_misses
count_misses-Distinct d latest counts [] v = v
count_misses-Distinct d latest counts (key ∷ keys) v =
    count_misses-Distinct d latest (miss_of d latest counts key).0 keys
      (miss_of-Distinct d latest counts key v)

-- Dropping agents takes only their counts.
drop_agents-counts :
    (keys : List Key) (d : BridgeDaemon) (j : Key)
    → Distinct d.passive_missing_counts
    → Distinct (drop_agents d keys).passive_missing_counts
      × (member key_dec j keys ≡ false
          → lookup key_dec j (drop_agents d keys).passive_missing_counts
            ≡ lookup key_dec j d.passive_missing_counts)
unfolding drop_agents member
drop_agents-counts [] d j v = (v, λ h. refl)
drop_agents-counts (key ∷ keys) d j v =
    let (distinct, same) =
      drop_agents-counts keys (drop_agent d key) j
        (remove-Distinct key_dec key d.passive_missing_counts v) in
    (
      distinct,
      λ h. ground (arith, same, h, lookup-remove_other key_dec key j d.passive_missing_counts),
    )

-- One round for a registered agent: whether it is dropped, and its new count.
pub round_lem :
    (d : BridgeDaemon) (latest : List AgentSession) (j : Key) (a : RegisteredAgent)
    → Inv d
    → Distinct d.passive_missing_counts
    → lookup key_dec j d.registered ≡ some a
    → let d' = (prune_missing_passive_sessions d latest).0 in
      let missing =
        counted
          (is_seen latest j)
          (if is_seen latest j then none else lookup key_dec j d.passive_missing_counts) in
      (Distinct d'.passive_missing_counts)
      × (is_candidate j a ≡ false → lookup key_dec j d'.registered ≡ some a)
      × (is_candidate j a ≡ true
          → (lookup key_dec j d'.registered ≡ (if missing.1 then none else some a))
            × (missing.1 ≡ false → lookup key_dec j d'.passive_missing_counts ≡ missing.0))
unfolding prune_missing_passive_sessions
round_lem d latest j a v w found =
    let keys = keys_where is_candidate d.registered in
    let forgotten = forget_seen latest d.passive_missing_counts in
    let after = count_misses d latest forgotten keys in
    let table =
      lookup-drop_agents after.1 (record d { passive_missing_counts = after.0 }) j v.distinct in
    let (distinct, same) =
      drop_agents-counts after.1 (record d { passive_missing_counts = after.0 }) j
        (count_misses-Distinct d latest forgotten keys
          (forget_seen-Distinct latest d.passive_missing_counts w)) in
    let listed = member-keys_where key_dec is_candidate j d.registered v.distinct in
    let start : lookup key_dec j forgotten
        ≡ (if is_seen latest j then none else lookup key_dec j d.passive_missing_counts) =
      elim (Bool-cases (is_seen latest j)) [
        | inl shown ↦ rw shown (lookup-forget_seen_shown latest d.passive_missing_counts j w shown)
        | inr missing ↦ rw missing (lookup-forget_seen latest d.passive_missing_counts j missing)
      ] in
    (
      distinct,
      λ h. ground (
        arith,
        table,
        found,
        dropped_missing d latest keys forgotten j (inl (ground (arith, listed, found, h))),
      ),
      λ h.
          let (count, dropped) =
            count_misses-counted d latest keys forgotten j a found
              (keys_where-Unrepeated key_dec is_candidate d.registered v.distinct)
              (ground (arith, listed, found, h)) in
          let count' = rw start at count in
          let dropped' = rw start at dropped in
          (
            table
                ∙ ap (λ o. if member key_dec j after.1 then none else o) found
                ∙ ap (λ b. if b then none else some a) dropped',
            λ kept. same (dropped' ∙ kept) ∙ count',
          ),
    )
