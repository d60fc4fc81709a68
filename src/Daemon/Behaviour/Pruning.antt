-- ===== src/Daemon/Behaviour/Pruning.antt =====
-- Pruning in crates/vb-daemon/src/lib.rs over several snapshots: when a discovered agent is dropped.
use vibe_bridge.Base.{
  ℕ, zero, suc, ◌≡◌, ◌≤◌, ◌+◌, leb, Bool-cases, refl, sym, inl, inr, Bool, true, false, not, ◌&&◌,
  ◌||◌, List, [], ◌∷◌, Option, none, some, if◌then◌else◌, arith, any,
}
use vibe_bridge.Base.Map.{lookup, keys_where, Distinct}
use vibe_bridge.Core.{AgentSession}
use vibe_bridge.Daemon.Agent.{Key, key_dec, RegisteredAgent, is_some}
use vibe_bridge.Daemon.Board.{key_eq}
use vibe_bridge.Daemon.State.{BridgeDaemon}
use vibe_bridge.Daemon.Passive.{
  forget_seen, count_misses, is_candidate, prune_missing_passive_sessions,
}
use vibe_bridge.Daemon.Invariant.{Inv}
use vibe_bridge.Daemon.Invariant.Requests.{prune-Inv}
use vibe_bridge.Daemon.Behaviour.Counts.{counted, round_lem}
use vibe_bridge.Daemon.Behaviour.Discovery.{lookup-drop_agents}

-- The rounds of pruning with the snapshots, in order.
unfoldable pub prune_all : BridgeDaemon → List (List AgentSession) → BridgeDaemon
prune_all d [] = d
prune_all d (latest ∷ more) = prune_all (prune_missing_passive_sessions d latest).0 more

-- The snapshot shows a session with the key.
abbrev pub shows : List AgentSession → Key → Bool
shows latest j = any (λ s. key_eq (s.kind, s.agent_id) j) latest

-- Three snapshots in a row do not show the key.
abbrev pub thrice_missing : Key → List (List AgentSession) → Bool
thrice_missing j (x ∷ y ∷ z ∷ more) =
    (not (shows x j) && (not (shows y j) && not (shows z j))) || thrice_missing j (y ∷ z ∷ more)
thrice_missing j other = false

-- Whether a snapshot misses the key when `n` in a row have missed it, up to three of them.
unfoldable pub misses : Key → ℕ → List (List AgentSession) → Bool
misses j n [] = false
misses j n (x ∷ more) =
    let again = misses j 0 more in
    let next = misses j (n + 1) more in if shows x j then again else if leb 2 n then true else next

-- The next snapshot misses the key; the next two do.
abbrev one_missing : Key → List (List AgentSession) → Bool
one_missing j [] = false
one_missing j (x ∷ more) = not (shows x j)

abbrev two_missing : Key → List (List AgentSession) → Bool
two_missing j [] = false
two_missing j (x ∷ more) = not (shows x j) && one_missing j more

thrice_missing-next :
    (j : Key) (x : List AgentSession) (more : List (List AgentSession))
    → thrice_missing j (x ∷ more)
      ≡ ((not (shows x j) && two_missing j more) || thrice_missing j more)
thrice_missing-next j x [] = ground arith
thrice_missing-next j x (y ∷ []) = ground arith
thrice_missing-next j x (y ∷ z ∷ more) = refl

one_or_two :
    (j : Key) (more : List (List AgentSession)) (b : Bool)
    → (one_missing j more || (two_missing j more || b)) ≡ (one_missing j more || b)
one_or_two j [] b = refl
one_or_two j (x ∷ more) b = ground arith

-- Counting finds three snapshots in a row that miss the key.
misses-thrice_missing :
    (j : Key) (snapshots : List (List AgentSession))
    → (misses j 0 snapshots ≡ thrice_missing j snapshots)
      × (misses j 1 snapshots ≡ (two_missing j snapshots || thrice_missing j snapshots))
      × (misses j 2 snapshots ≡ (one_missing j snapshots || thrice_missing j snapshots))
unfolding misses
misses-thrice_missing j [] = (refl, refl, refl)
misses-thrice_missing j (x ∷ more) =
    let (none_yet, one_yet, two_yet) = misses-thrice_missing j more in
    let next = thrice_missing-next j x more in
    elim (Bool-cases (shows x j)) [
      | inl shown ↦ rw (shown, none_yet, next, shown) (refl, refl, refl)
      | inr missing ↦
          let absorbed = one_or_two j more (thrice_missing j more) in
          rw (missing, one_yet, two_yet, next, missing) (refl, sym absorbed, refl)
    ]

-- The count of a key that `n` snapshots in a row have missed.
abbrev held : ℕ → Option ℕ
held zero = none
held (suc n) = some (suc n)

-- A round for a registered candidate that has missed `n` snapshots in a row, by its cases.
round-shown :
    (d : BridgeDaemon) (latest : List AgentSession) (j : Key) (a : RegisteredAgent)
    → Inv d
    → Distinct d.passive_missing_counts
    → lookup key_dec j d.registered ≡ some a
    → is_candidate j a ≡ true
    → shows latest j ≡ true
    → let d' = (prune_missing_passive_sessions d latest).0 in
      (lookup key_dec j d'.registered ≡ some a)
      × (lookup key_dec j d'.passive_missing_counts ≡ none)
round-shown d latest j a v w found h shown =
    let (distinct, other, cand) = round_lem d latest j a v w found in
    let (table, count) = rw shown at cand h in (table, count refl)

round-missing :
    (d : BridgeDaemon) (latest : List AgentSession) (j : Key) (a : RegisteredAgent) (n : ℕ)
    → Inv d
    → Distinct d.passive_missing_counts
    → lookup key_dec j d.registered ≡ some a
    → is_candidate j a ≡ true
    → shows latest j ≡ false
    → lookup key_dec j d.passive_missing_counts ≡ held n
    → let d' = (prune_missing_passive_sessions d latest).0 in
      (lookup key_dec j d'.registered ≡ (if (counted false (held n)).1 then none else some a))
      × ((counted false (held n)).1 ≡ false
          → lookup key_dec j d'.passive_missing_counts ≡ (counted false (held n)).0)
round-missing d latest j a n v w found h missing has =
    let (distinct, other, cand) = round_lem d latest j a v w found in
    let (table, count) = rw (missing, has) at cand h in (table, count)

-- A key that is not registered is not by pruning.
prune_all-gone :
    (snapshots : List (List AgentSession)) (d : BridgeDaemon) (j : Key)
    → Inv d
    → lookup key_dec j d.registered ≡ none
    → lookup key_dec j (prune_all d snapshots).registered ≡ none
unfolding prune_all prune_missing_passive_sessions
prune_all-gone [] d j v h = h
prune_all-gone (x ∷ more) d j v h =
    let keys = keys_where is_candidate d.registered in
    let after = count_misses d x (forget_seen x d.passive_missing_counts) keys in
    let table =
      lookup-drop_agents after.1 (record d { passive_missing_counts = after.0 }) j v.distinct in
    prune_all-gone more (prune_missing_passive_sessions d x).0 j (prune-Inv d x v)
      (ground (arith, table, h))

prune_all-passed_over :
    (snapshots : List (List AgentSession)) (d : BridgeDaemon) (j : Key) (a : RegisteredAgent)
    → Inv d
    → Distinct d.passive_missing_counts
    → lookup key_dec j d.registered ≡ some a
    → is_candidate j a ≡ false
    → lookup key_dec j (prune_all d snapshots).registered ≡ some a
unfolding prune_all
prune_all-passed_over [] d j a v w found h = found
prune_all-passed_over (x ∷ more) d j a v w found h =
    let (distinct, other, cand) = round_lem d x j a v w found in
    prune_all-passed_over more (prune_missing_passive_sessions d x).0 j a (prune-Inv d x v) distinct
      (other h) h

-- The rounds after one that a candidate missed, given what they are for a candidate that is kept.
after_missing :
    (more : List (List AgentSession)) (next : BridgeDaemon) (j : Key) (a : RegisteredAgent) (n : ℕ)
    → Inv next
    → n ≤ 2
    → lookup key_dec j next.registered ≡ (if (counted false (held n)).1 then none else some a)
    → ((counted false (held n)).1 ≡ false
        → lookup key_dec j next.passive_missing_counts ≡ (counted false (held n)).0)
    → ((m : ℕ)
        → lookup key_dec j next.registered ≡ some a
        → lookup key_dec j next.passive_missing_counts ≡ held m
        → m ≤ 2
        → lookup key_dec j (prune_all next more).registered
          ≡ (if misses j m more then none else some a))
    → lookup key_dec j (prune_all next more).registered
      ≡ (if (if leb 2 n then true else misses j (n + 1) more) then none else some a)
after_missing more next j a zero v few table count later = later 1 table (count refl) (omega arith)
after_missing more next j a (suc zero) v few table count later =
    later 2 table (count refl) (omega arith)
after_missing more next j a (suc (suc zero)) v few table count later =
    prune_all-gone more next j v table
after_missing more next j a (suc (suc (suc n))) v few table count later = absurd (omega arith)

prune_all-misses :
    (snapshots : List (List AgentSession)) (d : BridgeDaemon) (j : Key) (a : RegisteredAgent)
    (n : ℕ)
    → Inv d
    → Distinct d.passive_missing_counts
    → lookup key_dec j d.registered ≡ some a
    → is_candidate j a ≡ true
    → lookup key_dec j d.passive_missing_counts ≡ held n
    → n ≤ 2
    → lookup key_dec j (prune_all d snapshots).registered
      ≡ (if misses j n snapshots then none else some a)
unfolding prune_all misses
prune_all-misses [] d j a n v w found h has few = found
prune_all-misses (x ∷ more) d j a n v w found h has few =
    let (distinct, other, cand) = round_lem d x j a v w found in
    let next = (prune_missing_passive_sessions d x).0 in
    let keeps = prune-Inv d x v in
    elim (Bool-cases (shows x j)) [
      | inl shown ↦
          let (stays, count) = round-shown d x j a v w found h shown in
          rw shown (prune_all-misses more next j a 0 keeps distinct stays h count (omega arith))
      | inr missing ↦
          let (table, count) = round-missing d x j a n v w found h missing has in
          rw missing (
            after_missing more next j a n keeps few table count (λ m stays again few'.
              prune_all-misses more next j a m keeps distinct stays h again few'))
    ]

-- In a consistent state in which no misses of an agent are counted, pruning by any snapshots in order
-- removes the agent if and only if it came neither by a hook nor by a launch, has a board session, and
-- three snapshots in a row do not show it; else it is as it was. A snapshot that shows it starts the
-- count anew. The map of the counts has one entry for a key.
pub prune_thrice_missing :
    (d : BridgeDaemon) (snapshots : List (List AgentSession)) (j : Key) (a : RegisteredAgent)
    → Inv d
    → Distinct d.passive_missing_counts
    → lookup key_dec j d.registered ≡ some a
    → lookup key_dec j d.passive_missing_counts ≡ none
    → lookup key_dec j (prune_all d snapshots).registered ≡ (
        if (not a.from_launch && (not a.from_hook && is_some a.board_sid))
          && thrice_missing j snapshots
        then none
        else some a)
prune_thrice_missing d snapshots j a v w found fresh = elim (Bool-cases (is_candidate j a)) [
  | inl h ↦
      let (same, one, two) = misses-thrice_missing j snapshots in
      rw (h, sym same) (prune_all-misses snapshots d j a 0 v w found h fresh (omega arith))
  | inr h ↦ rw h (prune_all-passed_over snapshots d j a v w found h)
]
