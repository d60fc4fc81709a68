-- ===== src/Discovery/Active/Processes.antt =====
-- The sessions that crates/vb-host/src/agent_discovery.rs shows are those of running processes.
use vibe_bridge.Base.{
  ℕ, ◌≡◌, ◌≤◌, ◌+◌, refl, ap, sym, ◌∙◌, Bool, true, false, Bool-cases, inl, inr, ◌⊎◌, List, [], ◌∷◌,
  ◌++◌, Text, map, All, Option, none, some, is_empty, text_eq, text_eq→eq, arith,
}
use vibe_bridge.Core.{AgentKind, AgentStatus, AgentSession}
use vibe_bridge.Core.Terminal.{starts_with}
use vibe_bridge.Daemon.Agent.{Key, key_dec}
use vibe_bridge.Daemon.Board.{key_eq}
use vibe_bridge.Daemon.Dispatch.{sort_sessions, insert_session, session_key, text_lt}
use vibe_bridge.Discovery.Active.{
  with_sep, normalize_cwd, cwd_prefix_matches, position, swap_remove, fits_slot, alive_status,
  on_slot, match_slots, dedup_after, dedup_sessions, sort_and_dedup_sessions, sessions_of_slots,
  sort_recent, filter_sessions_by_active_counts,
}
use vibe_bridge.Discovery.Active.Slots.{bit, count, position-swap_remove}

-- One folder is the other, or within it.
abbrev pub OnBranch : Text → Text → Type 0
OnBranch a b =
    (a ≡ b)
    ⊎ (((rest : Text) × (with_sep a ≡ with_sep b ++ rest))
        ⊎ ((rest : Text) × (with_sep b ≡ with_sep a ++ rest)))

-- The session runs in the process: the kinds are the same, the folders are on one branch, and the
-- status says that it is alive.
abbrev pub RunsIn : AgentSession → Key → Type 0
RunsIn s key =
    (s.kind ≡ key.0)
    × OnBranch (normalize_cwd s.cwd) key.1
    × ((s.status ≡ AgentStatus.running) ⊎ (s.status ≡ AgentStatus.waiting_input))

-- Each session has a process of its own among the slots.
pub record Assigned (shown : List AgentSession) (slots : List Key) : Type 0 where
  pub pairs : List (AgentSession × Key)
  pub sessions : map (λ z. z.0) pairs ≡ shown
  pub run : All (λ z. RunsIn z.0 z.1) pairs
  pub own : (p : Key → Bool) → count p (map (λ z. z.1) pairs) ≤ count p slots

starts_with-rest : (p t : Text) → starts_with p t ≡ true → (rest : Text) × (t ≡ p ++ rest)
unfolding starts_with
starts_with-rest [] t h = (t, refl)
starts_with-rest (a ∷ p) [] h = absurd (cc h)
starts_with-rest (a ∷ p) (b ∷ t) h =
    let (rest, e) = starts_with-rest p t (ground arith) in
    let same : b ≡ a = ground arith in (rest, rw (same, e) refl)

cwd_prefix_matches-OnBranch : (a b : Text) → cwd_prefix_matches a b ≡ true → OnBranch a b
unfolding cwd_prefix_matches
cwd_prefix_matches-OnBranch a b h = elim (Bool-cases (text_eq a b)) [
  | inl same ↦ inl (text_eq→eq a b same)
  | inr other ↦ elim (Bool-cases (starts_with (with_sep b) (with_sep a))) [
    | inl within ↦ inr (inl (starts_with-rest (with_sep b) (with_sep a) within))
    | inr outside ↦
        inr (inr (starts_with-rest (with_sep a) (with_sep b) (rw (other, outside) at h)))
  ]
]

alive_lem :
    (status : AgentStatus)
    → (alive_status status ≡ AgentStatus.running)
      ⊎ (alive_status status ≡ AgentStatus.waiting_input)
alive_lem AgentStatus.running = inl refl
alive_lem AgentStatus.waiting_input = inr refl
alive_lem AgentStatus.idle = inl refl
alive_lem AgentStatus.done = inl refl
alive_lem AgentStatus.error = inl refl
alive_lem AgentStatus.unknown = inl refl

key_eq-kind : (a b : AgentKind) → key_eq (a, []) (b, []) ≡ true → b ≡ a
key_eq-kind a b h = elim (key_dec (a, []) (b, [])) [
  | yes same ↦ ap (λ key. key.0) (sym same)
  | no other ↦ absurd (ground (arith, h))
]

fits_slot-RunsIn :
    (s : AgentSession) (key : Key)
    → fits_slot s key ≡ true
    → RunsIn (record s { status = alive_status s.status }) key
unfolding fits_slot
fits_slot-RunsIn s (kind, cwd) h = (
  key_eq-kind kind s.kind (ground arith),
  cwd_prefix_matches-OnBranch (normalize_cwd s.cwd) cwd (ground arith),
  alive_lem s.status,
)

-- A session takes the slot at the position that was found for it.
on_slot-Assigned :
    (s : AgentSession) (slots : List Key) (pos : Option ℕ) (rest : List Key → List AgentSession)
    → position (fits_slot s) slots ≡ pos
    → ((left : List Key) → Assigned (rest left) left)
    → Assigned (on_slot s slots pos rest) slots
unfolding on_slot count
on_slot-Assigned s slots none rest at later = later slots
on_slot-Assigned s slots (some pos) rest at later =
    let (key, fits, taken) = position-swap_remove (fits_slot s) slots pos at in
    let after = later (swap_remove pos slots) in
    record {
      pairs = (record s { status = alive_status s.status }, key) ∷ after.pairs;
      sessions = ap (◌∷◌ (record s { status = alive_status s.status })) after.sessions;
      run = (fits_slot-RunsIn s key fits, after.run);
      own = λ p. let here = taken p in let most = after.own p in omega (arith, here, most);
    }

match_slots-Assigned :
    (candidates : List AgentSession) (slots : List Key)
    → Assigned (match_slots candidates slots) slots
unfolding match_slots count
match_slots-Assigned [] slots = record {
  pairs = [];
  sessions = refl;
  run = tt;
  own = λ p. omega arith;
}
match_slots-Assigned (s ∷ candidates) slots =
    on_slot-Assigned s slots (position (fits_slot s) slots) (λ left. match_slots candidates left)
      refl (match_slots-Assigned candidates)

-- An assignment, with its sessions as an argument.
abbrev Pairs : Type 0
Pairs = List (AgentSession × Key)

abbrev Runs : Pairs → Type 0
Runs pairs = All (λ z. RunsIn z.0 z.1) pairs

abbrev slots_of : Pairs → List Key
slots_of pairs = map (λ z. z.1) pairs

-- The pairs go where the sessions go in the sort.
insert_pair :
    (s : AgentSession) (key : Key) (pairs : Pairs)
    → RunsIn s key
    → Runs pairs
    → (more : Pairs) × (map (λ z. z.0) more ≡ insert_session s (map (λ z. z.0) pairs))
      × Runs more
      × ((p : Key → Bool) → count p (slots_of more) ≡ bit (p key) + count p (slots_of pairs))
unfolding insert_session count
insert_pair s key [] here runs = ((s, key) ∷ [], refl, (here, tt), λ p. refl)
insert_pair s key ((t, slot) ∷ pairs) here (first, runs) =
    let (more, same, run, counts) = insert_pair s key pairs here runs in
    elim (Bool-cases (text_lt s.agent_id t.agent_id)) [
      | inl less ↦ (
        (t, slot) ∷ more,
        rw less (ap (◌∷◌ t) same),
        (first, run),
        λ p. let rest = counts p in omega (arith, rest),
      )
      | inr other ↦ ((s, key) ∷ (t, slot) ∷ pairs, rw other refl, (here, (first, runs)), λ p. refl)
    ]

sort_pairs :
    (pairs : Pairs)
    → Runs pairs
    → (more : Pairs) × (map (λ z. z.0) more ≡ sort_sessions (map (λ z. z.0) pairs))
      × Runs more
      × ((p : Key → Bool) → count p (slots_of more) ≡ count p (slots_of pairs))
unfolding sort_sessions count
sort_pairs [] runs = ([], refl, tt, λ p. refl)
sort_pairs ((s, key) ∷ pairs) (first, runs) =
    let (sorted, same, run, counts) = sort_pairs pairs runs in
    let (more, placed, run', counts') = insert_pair s key sorted first run in
    (
      more,
      placed ∙ ap (insert_session s) same,
      run',
      λ p. let before = counts p in let after = counts' p in omega (arith, before, after),
    )

dedup_pairs :
    (key : Key) (pairs : Pairs)
    → Runs pairs
    → (fewer : Pairs) × (map (λ z. z.0) fewer ≡ dedup_after key (map (λ z. z.0) pairs))
      × Runs fewer
      × ((p : Key → Bool) → count p (slots_of fewer) ≤ count p (slots_of pairs))
unfolding dedup_after count
dedup_pairs key [] runs = ([], refl, tt, λ p. omega arith)
dedup_pairs key ((s, slot) ∷ pairs) (first, runs) = elim (Bool-cases (key_eq (session_key s) key)) [
  | inl twice ↦
      let (fewer, same, run, counts) = dedup_pairs key pairs runs in
      (fewer, rw twice same, run, λ p. let less = counts p in omega (arith, less))
  | inr new ↦
      let (fewer, same, run, counts) = dedup_pairs (session_key s) pairs runs in
      (
        (s, slot) ∷ fewer,
        rw new (ap (◌∷◌ s) same),
        (first, run),
        λ p. let less = counts p in omega (arith, less),
      )
]

dedup_all :
    (pairs : Pairs)
    → Runs pairs
    → (fewer : Pairs) × (map (λ z. z.0) fewer ≡ dedup_sessions (map (λ z. z.0) pairs))
      × Runs fewer
      × ((p : Key → Bool) → count p (slots_of fewer) ≤ count p (slots_of pairs))
unfolding dedup_sessions count
dedup_all [] runs = ([], refl, tt, λ p. omega arith)
dedup_all ((s, slot) ∷ pairs) (first, runs) =
    let (fewer, same, run, counts) = dedup_pairs (session_key s) pairs runs in
    (
      (s, slot) ∷ fewer,
      ap (◌∷◌ s) same,
      (first, run),
      λ p. let less = counts p in omega (arith, less),
    )

sort_and_dedup-Assigned :
    (shown : List AgentSession) (slots : List Key)
    → Assigned shown slots
    → Assigned (sort_and_dedup_sessions shown) slots
unfolding sort_and_dedup_sessions
sort_and_dedup-Assigned shown slots all =
    let (sorted, same, run, counts) = sort_pairs all.pairs all.run in
    let (fewer, same', run', counts') = dedup_all sorted run in
    record {
      pairs = fewer;
      sessions = same' ∙ ap dedup_sessions (same ∙ ap sort_sessions all.sessions);
      run = run';
      own = λ p.
          let one = counts p in
          let two = counts' p in let three = all.own p in omega (arith, one, two, three);
    }

-- With evidence of a running process, each session that discovery shows is assigned a process of its
-- own among the running ones, of the same kind and with its folder on one branch with the session's,
-- and its status says that it is alive: no session of a process that is gone is shown, and a key of
-- running processes is used once for each time it stands among the slots.
pub filter_sessions-Assigned :
    (modified : AgentSession → ℕ) (cutoff : ℕ) (candidates : List AgentSession) (slots : List Key)
    → is_empty slots ≡ false
    → Assigned (filter_sessions_by_active_counts modified cutoff candidates slots) slots
unfolding filter_sessions_by_active_counts sessions_of_slots
filter_sessions-Assigned modified cutoff candidates slots running =
    let sorted = sort_recent modified candidates in
    rw running
      (sort_and_dedup-Assigned (match_slots sorted slots) slots (match_slots-Assigned sorted slots))
