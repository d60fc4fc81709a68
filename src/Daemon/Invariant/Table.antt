-- ===== src/Daemon/Invariant/Table.antt =====
-- How the invariant of the daemon's table follows the changes of one entry.
use vibe_bridge.Base.{
  ◌≡◌, refl, ◌⊎◌, inl, inr, Bool, true, false, not, List, [], ◌∷◌, none, some, All, any, retain,
  arith,
}
use vibe_bridge.Base.Map.{
  lookup, insert, remove, contains_key, Distinct, lookup-insert, lookup-remove, insert-Distinct,
  remove-Distinct, insert-Each, remove-Each,
}
use vibe_bridge.Core.{BoardSid}
use vibe_bridge.Daemon.Agent.{Key, key_dec, RegisteredAgent}
use vibe_bridge.Daemon.Board.{key_eq}
use vibe_bridge.Daemon.Invariant.{IsAgent, Table, Exclusive, NoRepeat, IsConsistent}

-- An entry that keeps its session, or has none.
abbrev pub KeepsSid : Table → Key → RegisteredAgent → Type 0
KeepsSid table key a =
    (a.board_sid ≡ none)
    ⊎ ((old : RegisteredAgent) × (lookup key_dec key table ≡ some old)
        × (a.board_sid ≡ old.board_sid))

-- Each entry of the table after a store that keeps sessions has its session from the table before.
insert-origin :
    (table : Table) (key j : Key) (a b : RegisteredAgent) (sid : BoardSid)
    → KeepsSid table key a
    → lookup key_dec j (insert key_dec key a table) ≡ some b
    → b.board_sid ≡ some sid
    → (c : RegisteredAgent) × (lookup key_dec j table ≡ some c) × (c.board_sid ≡ some sid)
insert-origin table key j a b sid keeps found has = elim (key_dec key j) [
  | no other ↦ (b, ground (arith, lookup-insert key_dec key j a table), has)
  | yes same ↦ elim keeps [
    | inl gone ↦ ground (arith, lookup-insert key_dec key j a table)
    | inr (old, was, kept) ↦
        (old, ground arith, ground (arith, lookup-insert key_dec key j a table))
  ]
]

insert-Exclusive :
    (table : Table) (key : Key) (a : RegisteredAgent)
    → KeepsSid table key a
    → Exclusive table
    → Exclusive (insert key_dec key a table)
insert-Exclusive table key a keeps ex i j b c sid fi fj hi hj =
    let (b', bi, bs) = insert-origin table key i a b sid keeps fi hi in
    let (c', cj, cs) = insert-origin table key j a c sid keeps fj hj in ex i j b' c' sid bi cj bs cs

pub contains-insert :
    (table : Table) (key j : Key) (a : RegisteredAgent)
    → contains_key key_dec j table ≡ true
    → contains_key key_dec j (insert key_dec key a table) ≡ true
contains-insert table key j a h = ground (arith, lookup-insert key_dec key j a table)

pub known-insert :
    (table : Table) (key : Key) (a : RegisteredAgent) (ks : List Key)
    → All (λ k. contains_key key_dec k table ≡ true) ks
    → All (λ k. contains_key key_dec k (insert key_dec key a table) ≡ true) ks
known-insert table key a [] h = tt
known-insert table key a (k ∷ ks) h =
    (contains-insert table key k a h.0, known-insert table key a ks h.1)

-- Storing an entry that is well formed and keeps its session.
pub insert-IsConsistent :
    {table : Table} {pending : List Key} (key : Key) (a : RegisteredAgent)
    → IsConsistent table pending
    → KeepsSid table key a
    → IsAgent key a
    → IsConsistent (insert key_dec key a table) pending
insert-IsConsistent {table} {pending} key a v keeps good = record {
  distinct = insert-Distinct key_dec key a table v.distinct;
  agents = insert-Each key_dec IsAgent key a table good v.agents;
  exclusive = insert-Exclusive table key a keeps v.exclusive;
  known = known-insert table key a pending v.known;
  once = v.once;
}

remove-Exclusive :
    (table : Table) (key : Key)
    → Distinct table
    → Exclusive table
    → Exclusive (remove key_dec key table)
remove-Exclusive table key d ex i j b c sid fi fj hi hj =
    ex i j b c sid (ground (arith, lookup-remove key_dec key i table d))
      (ground (arith, lookup-remove key_dec key j table d)) hi hj

known-remove :
    (table : Table) (key : Key) (ks : List Key)
    → Distinct table
    → All (λ k. contains_key key_dec k table ≡ true) ks
    → All
        (λ k. contains_key key_dec k (remove key_dec key table) ≡ true)
        (retain (λ pending. not (key_eq pending key)) ks)
known-remove table key [] d h = tt
known-remove table key (k ∷ ks) d h =
    ground (arith, lookup-remove key_dec key k table d, known-remove table key ks d h.1)

any-retain : (p q : Key → Bool) (ks : List Key) → any p ks ≡ false → any p (retain q ks) ≡ false
any-retain p q [] h = refl
any-retain p q (k ∷ ks) h = ground (arith, any-retain p q ks)

retain-NoRepeat : (q : Key → Bool) (ks : List Key) → NoRepeat ks → NoRepeat (retain q ks)
retain-NoRepeat q [] h = tt
retain-NoRepeat q (k ∷ ks) h =
    ground (arith, retain-NoRepeat q ks h.1, any-retain (λ pending. key_eq pending k) q ks h.0)

-- Dropping an agent and its request.
pub remove-IsConsistent :
    {table : Table} {pending : List Key} (key : Key)
    → IsConsistent table pending
    → IsConsistent (remove key_dec key table) (retain (λ pending. not (key_eq pending key)) pending)
remove-IsConsistent {table} {pending} key v = record {
  distinct = remove-Distinct key_dec key table v.distinct;
  agents = remove-Each key_dec IsAgent key table v.agents;
  exclusive = remove-Exclusive table key v.distinct v.exclusive;
  known = known-remove table key pending v.distinct v.known;
  once = retain-NoRepeat _ pending v.once;
}
