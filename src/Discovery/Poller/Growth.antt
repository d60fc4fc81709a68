-- ===== src/Discovery/Poller/Growth.antt =====
-- Reading a transcript as it grows, in crates/vb-host/src/agent_discovery.rs, gives what reading it
-- at once gives.
use vibe_bridge.Base.{
  ℕ, ◌≡◌, ◌≤◌, refl, ap, ◌∙◌, true, false, Bool-cases, inl, inr, ◌&&◌, List, [], ◌∷◌, ◌++◌, Text,
  Option, none, some, is_empty, any, append-nil, length, drop, length-append, drop-append,
  append_assoc, ltb, ◌==◌, if◌then◌else◌, arith,
}
use vibe_bridge.Base.Map.{lookup-insert}
use vibe_bridge.Core.{AgentKind, AgentSession, AgentActivity}
use vibe_bridge.Json.{Value}
use vibe_bridge.Discovery.Status.{cons_some, line_to_activity, line_activities}
use vibe_bridge.Discovery.Turns.{line_to_discovered_turn}
use vibe_bridge.Daemon.Agent.{Key}
use vibe_bridge.Daemon.Board.{key_eq}
use vibe_bridge.Discovery.Poller.{
  AgentSourcePoller, Found, polled, poll_with_sessions, on_read, new_lines, session_key,
  seen_activity, path_dec, Files, appended, Cursors, cursor_of, set_cursor, after_read,
  read_between, read_with_len, read_appended_lines, push_byte, lines_of, line_turns,
}

-- A text has a first line.
lines_of-nonempty :
    (a : ℕ) (text : Text)
    → (line : Text) × (lines : List Text) × (lines_of (a ∷ text) ≡ line ∷ lines)
unfolding lines_of push_byte
lines_of-nonempty a [] = elim (Bool-cases (a == b'\n')) [
  | inl end ↦ ([], [], rw end refl)
  | inr other ↦ (a ∷ [], [], rw other refl)
]
lines_of-nonempty a (c ∷ text) =
    let (line, lines, e) = lines_of-nonempty c text in
    elim (Bool-cases (a == b'\n')) [
      | inl end ↦ ([], lines_of (c ∷ text), rw end refl)
      | inr other ↦ elim (Bool-cases (a == b'\r' && c == b'\n')) [
        | inl return ↦ (line, lines, rw (other, return) e)
        | inr inside ↦ (a ∷ line, lines, rw (other, inside, e) refl)
      ]
    ]

-- A byte and the lines after it, when more lines follow them.
step-append :
    (a c : ℕ) (text : Text) (after more : List Text)
    → after ≡ lines_of (c ∷ text) ++ more
    → (if a == b'\n'
        then [] ∷ after
        else if a == b'\r' && c == b'\n'
        then after
        else push_byte a after)
      ≡ lines_of (a ∷ c ∷ text) ++ more
unfolding lines_of push_byte
step-append a c text after more e =
    let (line, lines, first) = lines_of-nonempty c text in
    elim (Bool-cases (a == b'\n')) [
      | inl end ↦ rw (end, e) refl
      | inr other ↦ elim (Bool-cases (a == b'\r' && c == b'\n')) [
        | inl return ↦ rw (other, return, e) refl
        | inr inside ↦ rw (other, inside, e, first) refl
      ]
    ]

-- The lines of a text that ends with a line's end, and those of what follows it.
pub lines_of-append :
    (text more : Text)
    → lines_of (text ++ b'\n' ∷ more) ≡ lines_of (text ++ b'\n' ∷ []) ++ lines_of more
unfolding lines_of
lines_of-append [] [] = refl
lines_of-append [] (c ∷ more) = refl
lines_of-append (a ∷ []) more =
    step-append a b'\n' [] (lines_of (b'\n' ∷ more)) (lines_of more) (lines_of-append [] more)
lines_of-append (a ∷ c ∷ text) more =
    step-append a c (text ++ b'\n' ∷ []) (lines_of (c ∷ text ++ b'\n' ∷ more)) (lines_of more)
      (lines_of-append (c ∷ text) more)

module _ (parse : Text → Option Value) (kind : AgentKind) (agent_id path : Text) where
  cons_some-append :
      {A : Type 0} (o : Option A) (xs ys : List A) → cons_some o (xs ++ ys) ≡ cons_some o xs ++ ys
  cons_some-append none xs ys = refl
  cons_some-append (some x) xs ys = refl

  pub line_turns-append :
      (lines more : List Text)
      → line_turns parse kind agent_id (lines ++ more)
        ≡ line_turns parse kind agent_id lines ++ line_turns parse kind agent_id more
  unfolding line_turns
  line_turns-append [] more = refl
  line_turns-append (line ∷ lines) more =
      rw (line_turns-append lines more)
        (cons_some-append (line_to_discovered_turn parse kind agent_id line) _ _)

  pub line_activities-append :
      (lines more : List Text)
      → line_activities parse kind agent_id path (lines ++ more)
        ≡ line_activities parse kind agent_id path lines
          ++ line_activities parse kind agent_id path more
  unfolding line_activities
  line_activities-append [] more = refl
  line_activities-append (line ∷ lines) more =
      rw (line_activities-append lines more)
        (cons_some-append (line_to_activity parse kind agent_id path line) _ _)

-- The files hold a text at a path.
abbrev pub Holds : Files → Text → Text → Type 0
Holds files path text =
    (files.len path ≡ some (length text))
    × ((offset : ℕ) → offset ≤ length text → files.read_from path offset ≡ some (drop offset text))

-- The cursor of the path is at the offset.
abbrev pub At : Text → ℕ → Cursors → Type 0
At path offset cursors = cursor_of path cursors ≡ offset

nonempty-append : (text : Text) (more : Text) → is_empty (text ++ b'\n' ∷ more) ≡ false
nonempty-append [] more = refl
nonempty-append (b ∷ text) more = refl

cursor-set :
    (path : Text) (offset : ℕ) (cursors : Cursors) → At path offset (set_cursor path offset cursors)
cursor-set path offset cursors = ground (arith, lookup-insert path_dec path path offset cursors)

-- New bytes after those that were read are read, and only they.
read-new :
    (files : Files) (path old new : Text) (cursors : Cursors)
    → Holds files path (old ++ new)
    → At path (length old) cursors
    → is_empty new ≡ false
    → read_appended_lines files path cursors
      ≡ (appended (some new), set_cursor path (length (old ++ new)) cursors)
unfolding read_appended_lines read_with_len read_between after_read
read-new files path old [] cursors (len, read) at nonempty = absurd (ground arith)
read-new files path old (b ∷ new) cursors (len, read) at nonempty =
    let size = length-append old (b ∷ new) in
    let after : ltb (length (old ++ b ∷ new)) (length old) ≡ false = ground (arith, size) in
    let longer : (length (old ++ b ∷ new) == length old) ≡ false = ground (arith, size) in
    let rest : drop (length old) (old ++ b ∷ new) ≡ b ∷ new =
      drop-append (length old) old (b ∷ new) refl in
    rw (len, at, after, longer, read (length old) (omega (arith, size)), rest) refl

key_eq_refl : (key : Key) → key_eq key key ≡ true
key_eq_refl key = ground arith

-- Whether a session is new to the poller, and the sessions seen after it.
abbrev first_of : AgentSession → AgentSourcePoller → List AgentActivity
first_of s poller =
    if any (key_eq (session_key s)) poller.seen_sessions then [] else seen_activity s ∷ []

abbrev seen_of : AgentSession → AgentSourcePoller → List Key
seen_of s poller =
    if any (key_eq (session_key s)) poller.seen_sessions
    then poller.seen_sessions
    else session_key s ∷ poller.seen_sessions

seen-known :
    (s : AgentSession) (poller : AgentSourcePoller)
    → any (key_eq (session_key s)) (seen_of s poller) ≡ true
seen-known s poller = elim (Bool-cases (any (key_eq (session_key s)) poller.seen_sessions)) [
  | inl known ↦ rw (known, known) refl
  | inr fresh ↦ rw (fresh, key_eq_refl (session_key s)) refl
]

poll_one :
    (files : Files) (parse : Text → Option Value) (s : AgentSession) (poller : AgentSourcePoller)
    (text : Text) (cursors : Cursors)
    → read_appended_lines files s.transcript_path poller.cursors ≡ (appended (some text), cursors)
    → poll_with_sessions files parse (s ∷ []) poller ≡ (
      record poller { cursors = cursors; seen_sessions = seen_of s poller },
      polled (record {
        activities =
            first_of s poller
            ++ line_activities parse s.kind s.agent_id s.transcript_path (lines_of text);
        turns = line_turns parse s.kind s.agent_id (lines_of text);
      }),
    )
unfolding poll_with_sessions on_read new_lines
poll_one files parse s poller text cursors e = rw (e, append-nil, append-nil) refl

-- Polling a session's transcript when it holds whole lines, and again when it has grown, reports the
-- same activities and turns, in the same order, as polling it once at its full length.
pub poll-growth :
    (before after : Files) (parse : Text → Option Value) (s : AgentSession)
    (poller : AgentSourcePoller) (text more : Text)
    → Holds before s.transcript_path (text ++ b'\n' ∷ [])
    → Holds after s.transcript_path (text ++ b'\n' ∷ [] ++ more)
    → is_empty more ≡ false
    → At s.transcript_path 0 poller.cursors
    → (first second : Found) × ((poll_with_sessions before parse (s ∷ []) poller).1 ≡ polled first)
      × ((poll_with_sessions after parse
            (s ∷ [])
            (poll_with_sessions before parse (s ∷ []) poller).0).1
          ≡ polled second)
      × ((poll_with_sessions after parse (s ∷ []) poller).1
          ≡ polled (record {
            activities = first.activities ++ second.activities;
            turns = first.turns ++ second.turns;
          }))
poll-growth before after parse s poller text more held grown nonempty at =
    let path = s.transcript_path in
    let head = text ++ b'\n' ∷ [] in
    let cursors = set_cursor path (length head) poller.cursors in
    let next = record poller { cursors = cursors; seen_sessions = seen_of s poller } in
    let one =
      poll_one before parse s poller head cursors
        (read-new before path [] head poller.cursors held at (nonempty-append text [])) in
    let two = poll_one after parse s next more (set_cursor path (length (head ++ more)) cursors) (
      read-new after path head more cursors grown (cursor-set path (length head) poller.cursors)
        nonempty) in
    let some_text : is_empty (head ++ more) ≡ false = rw append_assoc (nonempty-append text more) in
    let all =
      poll_one after parse s poller (head ++ more)
        (set_cursor path (length (head ++ more)) poller.cursors)
        (read-new after path [] (head ++ more) poller.cursors grown at some_text) in
    let lines : lines_of (head ++ more) ≡ lines_of head ++ lines_of more =
      rw append_assoc (lines_of-append text more) in
    let turns = λ (t : Text). line_turns parse s.kind s.agent_id (lines_of t) in
    let activities = λ (t : Text). line_activities parse s.kind s.agent_id path (lines_of t) in
    let not_first : first_of s next ≡ [] = rw (seen-known s poller) refl in
    (
      record { activities = first_of s poller ++ activities head; turns = turns head },
      record { activities = activities more; turns = turns more },
      ap (λ p. p.1) one,
      ap (λ p. (poll_with_sessions after parse (s ∷ []) p.0).1) one
          ∙ ap (λ p. p.1) two
          ∙ ap (λ f. polled (record { activities = f ++ activities more; turns = turns more }))
              not_first,
      ap (λ p. p.1) all
          ∙ rw
              (
                lines,
                line_activities-append parse s.kind s.agent_id path (lines_of head) (lines_of more),
                line_turns-append parse s.kind s.agent_id path (lines_of head) (lines_of more),
                append_assoc,
              )
              refl,
    )
