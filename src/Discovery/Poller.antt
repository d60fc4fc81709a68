-- ===== src/Discovery/Poller.antt =====
-- crates/vb-host/src/agent_discovery.rs: `AgentSourcePoller`. The files are a record of what the
-- system answers of them; the sessions that a poll goes through are its argument.
pub mod Growth
use vibe_bridge.Base.{
  ℕ, ◌≡◌, Bool, true, false, ◌&&◌, List, [], ◌∷◌, ◌++◌, Text, Option, none, some, any, ltb, ◌==◌,
  if◌then◌else◌, ℕ_discrete,
}
use vibe_bridge.Base.Map.{lookup, insert}
use vibe_bridge.Core.{AgentKind, AgentSession, AgentActivity, AgentActivityKind}
use vibe_bridge.Json.{Value}
use vibe_bridge.Daemon.Agent.{Key}
use vibe_bridge.Daemon.Board.{key_eq}
use vibe_bridge.Daemon.Passive.{DiscoveredTurn}
use vibe_bridge.Discovery.Status.{cons_some, line_to_activity, line_activities}
use vibe_bridge.Discovery.Turns.{line_to_discovered_turn}

unfoldable pub path_dec : (a b : Text) → Dec (a ≡ b)
path_dec = hlevel (ℕ_discrete)

-- The length of a file, and its text from an offset, which is UTF-8.
pub record Files : Type 0 where
  pub len : Text → Option ℕ
  pub read_from : Text → ℕ → Option Text

pub data PollError : Type 0 where
  stat_failed read_failed : Text → PollError

pub data Appended : Type 0 where
  appended : Option Text → Appended
  failed : PollError → Appended

abbrev pub Cursors : Type 0
Cursors = List (Text × ℕ)

abbrev pub cursor_of : Text → Cursors → ℕ
cursor_of path cursors = elim (lookup path_dec path cursors) [ none ↦ 0 | some offset ↦ offset ]

abbrev pub set_cursor : Text → ℕ → Cursors → Cursors
set_cursor path offset cursors = insert path_dec path offset cursors

-- What is read moves the cursor to the length that was seen before.
unfoldable pub after_read : Text → ℕ → ℕ → Cursors → Option Text → Appended × Cursors
after_read path offset len cursors none =
    (failed (read_failed path), set_cursor path offset cursors)
after_read path offset len cursors (some text) = (appended (some text), set_cursor path len cursors)

unfoldable pub read_between : Files → Text → ℕ → ℕ → Cursors → Appended × Cursors
unfolding after_read
read_between files path offset len cursors =
    if ltb len offset
    then (appended none, set_cursor path len cursors)
    else if len == offset
    then (appended none, set_cursor path offset cursors)
    else after_read path offset len cursors (files.read_from path offset)

unfoldable pub read_with_len : Files → Text → Cursors → Option ℕ → Appended × Cursors
unfolding read_between
read_with_len files path cursors none = (failed (stat_failed path), cursors)
read_with_len files path cursors (some len) =
    read_between files path (cursor_of path cursors) len cursors

unfoldable pub read_appended_lines : Files → Text → Cursors → Appended × Cursors
unfolding read_with_len
read_appended_lines files path cursors = read_with_len files path cursors (files.len path)

-- A byte before the first line, if there is one.
unfoldable pub push_byte : ℕ → List Text → List Text
push_byte b [] = (b ∷ []) ∷ []
push_byte b (line ∷ lines) = (b ∷ line) ∷ lines

-- `str::lines`: a line ends with `\n` or with `\r\n`, and the last may have no end.
unfoldable pub lines_of : Text → List Text
unfolding push_byte
lines_of [] = []
lines_of (b ∷ []) = if b == b'\n' then [] ∷ [] else (b ∷ []) ∷ []
lines_of (b ∷ c ∷ rest) =
    let after = lines_of (c ∷ rest) in
    if b == b'\n' then [] ∷ after else if b == b'\r' && c == b'\n' then after else push_byte b after

unfoldable pub line_turns :
    (Text → Option Value) → AgentKind → Text → List Text → List DiscoveredTurn
unfolding line_to_discovered_turn
line_turns parse kind agent_id [] = []
line_turns parse kind agent_id (line ∷ lines) =
    cons_some (line_to_discovered_turn parse kind agent_id line)
      (line_turns parse kind agent_id lines)

pub record AgentSourcePoller : Type 0 where
  pub cursors : Cursors
  pub seen_sessions : List Key
  pub include_inactive : Bool

abbrev pub new_poller : AgentSourcePoller
new_poller = record { cursors = []; seen_sessions = []; include_inactive = false }

pub record Found : Type 0 where
  pub activities : List AgentActivity
  pub turns : List DiscoveredTurn

pub data Poll : Type 0 where
  polled : Found → Poll
  broken : PollError → Poll

abbrev pub session_key : AgentSession → Key
session_key s = (s.kind, s.agent_id)

abbrev pub seen_activity : AgentSession → AgentActivity
seen_activity s = record {
  agent_id = s.agent_id;
  kind = s.kind;
  activity = AgentActivityKind.seen;
  status = s.status;
  transcript_path = s.transcript_path;
}

-- The activities and the turns of a session's new lines.
unfoldable pub new_lines :
    (Text → Option Value) → AgentSession → Option Text → List AgentActivity × List DiscoveredTurn
unfolding line_activities line_turns lines_of
new_lines parse s none = ([], [])
new_lines parse s (some text) = (
  line_activities parse s.kind s.agent_id s.transcript_path (lines_of text),
  line_turns parse s.kind s.agent_id (lines_of text),
)

abbrev pub add_found : List AgentActivity → List AgentActivity × List DiscoveredTurn → Poll → Poll
add_found first new (broken e) = broken e
add_found first new (polled rest) =
    polled
      (record { activities = first ++ (new.0 ++ rest.activities); turns = new.1 ++ rest.turns })

-- What a session's read makes of the loop over the sessions after it: an error ends the poll.
unfoldable pub on_read :
    (Text → Option Value)
    → AgentSession
    → AgentSourcePoller
    → List AgentActivity
    → Appended × Cursors
    → (AgentSourcePoller → AgentSourcePoller × Poll)
    → AgentSourcePoller × Poll
unfolding new_lines
on_read parse s poller first (failed e, cursors) rest =
    (record poller { cursors = cursors }, broken e)
on_read parse s poller first (appended text, cursors) rest =
    let (after, found) = rest (record poller { cursors = cursors }) in
    (after, add_found first (new_lines parse s text) found)

-- `poll_with_sessions`, with the new state also when the poll is broken.
unfoldable pub poll_with_sessions :
    Files → (Text → Option Value) → List AgentSession → AgentSourcePoller → AgentSourcePoller × Poll
unfolding on_read read_appended_lines
poll_with_sessions files parse [] poller = (poller, polled (record { activities = []; turns = [] }))
poll_with_sessions files parse (s ∷ sessions) poller =
    let known = any (key_eq (session_key s)) poller.seen_sessions in
    let seen = if known then poller.seen_sessions else session_key s ∷ poller.seen_sessions in
    on_read parse s (record poller { seen_sessions = seen })
      (if known then [] else seen_activity s ∷ [])
      (read_appended_lines files s.transcript_path poller.cursors)
      (λ next. poll_with_sessions files parse sessions next)
