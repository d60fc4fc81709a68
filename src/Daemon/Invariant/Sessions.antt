-- ===== src/Daemon/Invariant/Sessions.antt =====
-- Board sessions: `clear_board_sid_owners`, `handle_session_response` and the request queue of
-- crates/vb-daemon/src/lib.rs.
use vibe_bridge.Base.{
  ◌≡◌, Bool, true, false, List, [], ◌∷◌, Option, none, some, All, if◌then◌else◌, arith,
}
use vibe_bridge.Base.Map.{
  lookup, modify, contains_key, keys_where, Distinct, Each, lookup-modify, modify-Distinct,
  modify-Each, member, member-keys_where,
}
use vibe_bridge.Core.{BoardSid}
use vibe_bridge.Daemon.Agent.{Key, key_dec, RegisteredAgent}
use vibe_bridge.Daemon.State.{BridgeDaemon}
use vibe_bridge.Daemon.Board.{is_stale, detach, detach_all, clear_board_sid_owners}
use vibe_bridge.Daemon.Invariant.{IsAgent, Table, Exclusive, IsConsistent}
use vibe_bridge.Daemon.Invariant.Agents.{sid-IsAgent}

abbrev map_entry :
    (RegisteredAgent → RegisteredAgent) → Option RegisteredAgent → Option RegisteredAgent
map_entry f none = none
map_entry f (some a) = some (f a)

abbrev detach_if : Bool → RegisteredAgent → RegisteredAgent
detach_if b a = if b then detach a else a

lookup-detach_all :
    (ks : List Key) (j : Key) (table : Table)
    → lookup key_dec j (detach_all ks table)
      ≡ map_entry (detach_if (member key_dec j ks)) (lookup key_dec j table)
unfolding detach_all member
lookup-detach_all [] j table = ground arith
lookup-detach_all (k ∷ ks) j table = ground (
  arith,
  lookup-detach_all ks j (modify key_dec k detach table),
  lookup-modify key_dec k j detach table,
)

detach_all-Distinct :
    (ks : List Key) (table : Table) → Distinct table → Distinct (detach_all ks table)
unfolding detach_all
detach_all-Distinct [] table d = d
detach_all-Distinct (k ∷ ks) table d =
    detach_all-Distinct ks (modify key_dec k detach table)
      (modify-Distinct key_dec k detach table d)

detach_all-Each :
    (ks : List Key) (table : Table) → Each IsAgent table → Each IsAgent (detach_all ks table)
unfolding detach_all
detach_all-Each [] table e = e
detach_all-Each (k ∷ ks) table e =
    detach_all-Each ks (modify key_dec k detach table)
      (modify-Each key_dec IsAgent k detach table (λ a found v. sid-IsAgent none a (λ q. cc) v) e)

-- After a session id is taken back, its owners have no session, and all else is as it was. The
-- owner that is to be kept is not touched.
pub lookup-clear :
    (d : BridgeDaemon) (sid : BoardSid) (keep : Option Key) (j : Key)
    → Distinct d.registered
    → lookup key_dec j (clear_board_sid_owners d sid keep).0.registered
      ≡ (elim (lookup key_dec j d.registered) [
        | none ↦ none
        | some a ↦ some (if is_stale sid keep j a then detach a else a)
      ])
unfolding clear_board_sid_owners
lookup-clear d sid keep j v = ground (
  arith,
  lookup-detach_all (keys_where (is_stale sid keep) d.registered) j d.registered,
  member-keys_where key_dec (is_stale sid keep) j d.registered v,
)

-- An entry that has a session after the clearing had it before, and was no stale owner.
pub clear-origin :
    (d : BridgeDaemon) (sid : BoardSid) (keep : Option Key) (j : Key) (b : RegisteredAgent)
    (s : BoardSid)
    → Distinct d.registered
    → lookup key_dec j (clear_board_sid_owners d sid keep).0.registered ≡ some b
    → b.board_sid ≡ some s
    → (lookup key_dec j d.registered ≡ some b) × (is_stale sid keep j b ≡ false)
clear-origin d sid keep j b s v found has = ground (arith, lookup-clear d sid keep j v)

contains-clear :
    (d : BridgeDaemon) (sid : BoardSid) (keep : Option Key) (j : Key)
    → Distinct d.registered
    → contains_key key_dec j d.registered ≡ true
    → contains_key key_dec j (clear_board_sid_owners d sid keep).0.registered ≡ true
contains-clear d sid keep j v h = ground (arith, lookup-clear d sid keep j v)

known-clear :
    (d : BridgeDaemon) (sid : BoardSid) (keep : Option Key) (ks : List Key)
    → Distinct d.registered
    → All (λ k. contains_key key_dec k d.registered ≡ true) ks
    → All (λ k. contains_key key_dec k (clear_board_sid_owners d sid keep).0.registered ≡ true) ks
known-clear d sid keep [] v h = tt
known-clear d sid keep (k ∷ ks) v h =
    (contains-clear d sid keep k v h.0, known-clear d sid keep ks v h.1)

clear-Distinct :
    (d : BridgeDaemon) (sid : BoardSid) (keep : Option Key)
    → Distinct d.registered
    → Distinct (clear_board_sid_owners d sid keep).0.registered
unfolding clear_board_sid_owners
clear-Distinct d sid keep v = detach_all-Distinct _ d.registered v

clear-Each :
    (d : BridgeDaemon) (sid : BoardSid) (keep : Option Key)
    → Each IsAgent d.registered
    → Each IsAgent (clear_board_sid_owners d sid keep).0.registered
unfolding clear_board_sid_owners
clear-Each d sid keep v = detach_all-Each _ d.registered v

clear-Exclusive :
    (d : BridgeDaemon) (sid : BoardSid) (keep : Option Key)
    → Distinct d.registered
    → Exclusive d.registered
    → Exclusive (clear_board_sid_owners d sid keep).0.registered
clear-Exclusive d sid keep v ex i j a b s fi fj hi hj =
    ex i j a b s (clear-origin d sid keep i a s v fi hi).0 (clear-origin d sid keep j b s v fj hj).0
      hi hj

pub clear-IsConsistent :
    (d : BridgeDaemon) (sid : BoardSid) (keep : Option Key) (pending : List Key)
    → IsConsistent d.registered pending
    → IsConsistent (clear_board_sid_owners d sid keep).0.registered pending
clear-IsConsistent d sid keep pending v = record {
  distinct = clear-Distinct d sid keep v.distinct;
  agents = clear-Each d sid keep v.agents;
  exclusive = clear-Exclusive d sid keep v.distinct v.exclusive;
  known = known-clear d sid keep pending v.distinct v.known;
  once = v.once;
}
