-- ===== src/Discovery/Active.antt =====
-- crates/vb-host/src/agent_discovery.rs: which transcripts belong to running processes, in
-- `filter_sessions_by_active_counts`. The slots are the keys of its map in the order of iteration.
pub mod Slots
pub mod Processes
use vibe_bridge.Base.{
  ℕ, zero, suc, not, retain, is_empty, ltb, leb, Bool, true, false, ◌&&◌, ◌||◌, List, [], ◌∷◌, ◌++◌,
  map, reverse, Text, Option, none, some, last?, text_eq, ◌==◌, if◌then◌else◌,
}
use vibe_bridge.Core.{AgentKind, AgentStatus, AgentSession}
use vibe_bridge.Core.Terminal.{starts_with}
use vibe_bridge.Daemon.Agent.{Key}
use vibe_bridge.Daemon.Board.{key_eq}
use vibe_bridge.Daemon.Dispatch.{text_lt, sort_sessions, session_key}

abbrev pub is_slash : ℕ → Bool
is_slash b = b == b'/' || b == b'\\'

unfoldable pub trim_front_slashes : Text → Text
trim_front_slashes [] = []
trim_front_slashes (b ∷ rest) = if is_slash b then trim_front_slashes rest else b ∷ rest

-- `cwd.trim_end_matches(['/', '\\'])`.
abbrev pub trim_slashes : Text → Text
trim_slashes cwd = reverse (trim_front_slashes (reverse cwd))

unfoldable pub normalize_cwd : Text → Text
unfolding trim_front_slashes
normalize_cwd cwd = map (λ b. if b == b'\\' then b'/' else b) (trim_slashes cwd)

-- The text with a `/` at its end.
abbrev pub with_sep : Text → Text
with_sep s = elim (last? s) [
  | none ↦ s ++ b'/' ∷ []
  | some b ↦ if b == b'/' then s else s ++ b'/' ∷ []
]

unfoldable pub cwd_prefix_matches : Text → Text → Bool
unfolding starts_with
cwd_prefix_matches sess_cwd proc_cwd =
    text_eq sess_cwd proc_cwd
    || starts_with (with_sep proc_cwd) (with_sep sess_cwd)
    || starts_with (with_sep sess_cwd) (with_sep proc_cwd)

-- The position in a longer list.
unfoldable pub one_further : Option ℕ → Option ℕ
one_further none = none
one_further (some i) = some (suc i)

-- `Iterator::position`.
unfoldable pub position {ℓ} : {A : Type ℓ} → (A → Bool) → List A → Option ℕ
unfolding one_further
position p [] = none
position p (x ∷ xs) = if p x then some 0 else one_further (position p xs)

unfoldable pub drop_last {ℓ} : {A : Type ℓ} → List A → List A
drop_last [] = []
drop_last (x ∷ []) = []
drop_last (x ∷ y ∷ ys) = x ∷ drop_last (y ∷ ys)

unfoldable pub set_at {ℓ} : {A : Type ℓ} → ℕ → A → List A → List A
set_at i a [] = []
set_at zero a (x ∷ xs) = a ∷ xs
set_at (suc i) a (x ∷ xs) = x ∷ set_at i a xs

unfoldable pub fill_from {ℓ} : {A : Type ℓ} → Option A → ℕ → List A → List A
unfolding drop_last set_at
fill_from none i xs = xs
fill_from (some a) i xs = drop_last (set_at i a xs)

-- `Vec::swap_remove`: the last element takes the place of the removed one.
unfoldable pub swap_remove {ℓ} : {A : Type ℓ} → ℕ → List A → List A
unfolding fill_from
swap_remove i xs = fill_from (last? xs) i xs

-- A process may hold the session.
unfoldable pub fits_slot : AgentSession → Key → Bool
unfolding normalize_cwd cwd_prefix_matches
fits_slot session (kind, proc_cwd) =
    key_eq (kind, []) (session.kind, []) && cwd_prefix_matches (normalize_cwd session.cwd) proc_cwd

abbrev pub alive_status : AgentStatus → AgentStatus
alive_status AgentStatus.waiting_input = AgentStatus.waiting_input
alive_status other = AgentStatus.running

-- A round of the loop, from the position of the session's slot and what the rounds after it make of
-- the slots that are left.
unfoldable pub on_slot :
    AgentSession → List Key → Option ℕ → (List Key → List AgentSession) → List AgentSession
unfolding swap_remove
on_slot session active_slots none rest = rest active_slots
on_slot session active_slots (some pos) rest =
    record session { status = alive_status session.status } ∷ rest (swap_remove pos active_slots)

unfoldable pub match_slots : List AgentSession → List Key → List AgentSession
unfolding on_slot position fits_slot
match_slots [] active_slots = []
match_slots (session ∷ candidates) active_slots =
    on_slot session active_slots (position (fits_slot session) active_slots)
      (λ slots. match_slots candidates slots)

-- `dedup_by`: of neighbours with the same key the first stays.
unfoldable pub dedup_after : Key → List AgentSession → List AgentSession
dedup_after key [] = []
dedup_after key (s ∷ sessions) =
    let same = dedup_after key sessions in
    let fresh = dedup_after (session_key s) sessions in
    if key_eq (session_key s) key then same else s ∷ fresh

unfoldable pub dedup_sessions : List AgentSession → List AgentSession
unfolding dedup_after
dedup_sessions [] = []
dedup_sessions (s ∷ sessions) = s ∷ dedup_after (session_key s) sessions

unfoldable pub sort_and_dedup_sessions : List AgentSession → List AgentSession
unfolding dedup_sessions sort_sessions
sort_and_dedup_sessions sessions = dedup_sessions (sort_sessions sessions)

-- The branch with at least one slot.
unfoldable pub sessions_of_slots : List AgentSession → List Key → List AgentSession
unfolding match_slots sort_and_dedup_sessions
sessions_of_slots candidates active_slots =
    sort_and_dedup_sessions (match_slots candidates active_slots)

-- `session_modified_time`, which asks the file system, and the cutoff of the fallback, which asks
-- the clock, are parameters.
module _ (session_modified_time : AgentSession → ℕ) where
  -- `a` comes before `b`: it is newer, or as new with the later path.
  abbrev comes_before : AgentSession → AgentSession → Bool
  comes_before a b =
      ltb (session_modified_time b) (session_modified_time a)
      || (session_modified_time b == session_modified_time a
          && text_lt b.transcript_path a.transcript_path)

  unfoldable pub insert_recent : AgentSession → List AgentSession → List AgentSession
  unfolding text_lt
  insert_recent s [] = s ∷ []
  insert_recent s (t ∷ ts) = if comes_before t s then t ∷ insert_recent s ts else s ∷ t ∷ ts

  unfoldable pub sort_recent : List AgentSession → List AgentSession
  unfolding insert_recent
  sort_recent [] = []
  sort_recent (s ∷ ss) = insert_recent s (sort_recent ss)

  abbrev is_over : AgentStatus → Bool
  is_over AgentStatus.done = true
  is_over AgentStatus.error = true
  is_over other = false

  unfoldable pub fallback_recent_active_candidates : ℕ → List AgentSession → List AgentSession
  unfolding sort_and_dedup_sessions
  fallback_recent_active_candidates cutoff candidates =
      sort_and_dedup_sessions
        (retain (λ s. not (is_over s.status) && leb cutoff (session_modified_time s)) candidates)

  -- Without slots the fallback is taken.
  unfoldable pub filter_sessions_by_active_counts :
      ℕ → List AgentSession → List Key → List AgentSession
  unfolding sort_recent fallback_recent_active_candidates sessions_of_slots
  filter_sessions_by_active_counts cutoff candidates active_slots =
      let sorted = sort_recent candidates in
      if is_empty active_slots
      then fallback_recent_active_candidates cutoff sorted
      else sessions_of_slots sorted active_slots
