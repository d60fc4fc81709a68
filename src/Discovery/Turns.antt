-- ===== src/Discovery/Turns.antt =====
-- crates/vb-host/src/agent_discovery.rs: the conversation's turns in a transcript.
use vibe_bridge.Base.{
  Bool, true, false, ◌||◌, ◌&&◌, [], ◌∷◌, ◌++◌, length, drop, ◌-◌, leb, Text, codes, Option, none,
  some, is_empty, text_eq, trim, to_ascii_lowercase, if◌then◌else◌,
}
use vibe_bridge.Core.{AgentKind, TurnRole}
use vibe_bridge.Core.Terminal.{starts_with}
use vibe_bridge.Json.{Value, Items, string, array, no_items, item, get_value, as_str}
use vibe_bridge.Daemon.Passive.{DiscoveredTurn}
use vibe_bridge.Discovery.Status.{bind, type_of, payload_of, is_named}

-- `str::ends_with`.
abbrev pub ends_with : Text → Text → Bool
ends_with suffix text =
    leb (length suffix) (length text) && text_eq (drop (length text - length suffix) text) suffix

unfoldable pub is_pseudo_turn_text : Text → Bool
unfolding starts_with
is_pseudo_turn_text text =
    let lower = to_ascii_lowercase text in
    is_named lower (
      codes "<turn_aborted>"
      ∷ codes "<user_interrupt>"
      ∷ codes "<system>"
      ∷ codes "<interrupted>"
      ∷ codes "[turn aborted]"
      ∷ codes "[user interrupted]"
      ∷ [])
    || starts_with (codes "<system>") lower && ends_with (codes "</system>") lower

abbrev pub type_or_empty : Value → Text
type_or_empty value = elim (type_of value) [ none ↦ [] | some t ↦ t ]

abbrev pub text_of : Value → Option Text
text_of value = as_str (get_value (codes "text") value)

-- A text is added to the buffer, after a space if it is not the first.
unfoldable pub push_text : Text → Option Text → Text
push_text buf none = buf
push_text buf (some text) = if is_empty buf then text else buf ++ b' ' ∷ text

-- The loop over the items of a message, from the buffer.
unfoldable pub message_items : Bool → Text → Items → Text
unfolding push_text
message_items skip_tool_use buf no_items = buf
message_items skip_tool_use buf (item value rest) =
    let item_type = type_or_empty value in
    let skipped = message_items skip_tool_use buf rest in
    let pushed = message_items skip_tool_use (push_text buf (text_of value)) rest in
    if skip_tool_use
      && (text_eq item_type (codes "tool_use") || text_eq item_type (codes "tool_result"))
    then skipped
    else if text_eq item_type (codes "tool_result")
    then skipped
    else pushed

abbrev pub nonempty_text : Text → Option Text
nonempty_text buf = if is_empty buf then none else some buf

unfoldable pub content_text : Bool → Value → Option Text
unfolding message_items
content_text skip_tool_use (string s) = some s
content_text skip_tool_use (array items) = nonempty_text (message_items skip_tool_use [] items)
content_text skip_tool_use other = none

unfoldable pub extract_message_text : Value → Bool → Option Text
unfolding content_text
extract_message_text message skip_tool_use =
    bind (get_value (codes "content") message) (content_text skip_tool_use)

abbrev pub with_role : TurnRole → Option Text → Option (TurnRole × Text)
with_role role none = none
with_role role (some text) = some (role, text)

unfoldable pub claude_line_to_turn : Value → Option (TurnRole × Text)
unfolding extract_message_text
claude_line_to_turn value = bind (type_of value) (λ line_type.
    bind (get_value (codes "message") value) (λ message.
      if text_eq line_type (codes "user")
      then with_role TurnRole.user (extract_message_text message false)
      else if text_eq line_type (codes "assistant")
      then with_role TurnRole.assistant (extract_message_text message true)
      else none))

-- The loop over the items of a Codex message.
unfoldable pub codex_items : Text → Items → Text
unfolding push_text
codex_items buf no_items = buf
codex_items buf (item value rest) =
    let skipped = codex_items buf rest in
    let pushed = codex_items (push_text buf (text_of value)) rest in
    if is_named (type_or_empty value) (codes "input_text" ∷ codes "output_text" ∷ codes "text" ∷ [])
    then pushed
    else skipped

unfoldable pub codex_content : Value → Option Text
unfolding codex_items
codex_content (string s) = some s
codex_content (array items) = nonempty_text (codex_items [] items)
codex_content other = none

unfoldable pub event_turn : Value → Option (TurnRole × Text)
event_turn payload = bind (type_of payload) (λ payload_type.
    let text = as_str (get_value (codes "message") payload) in
    if text_eq payload_type (codes "user_message")
    then with_role TurnRole.user text
    else if text_eq payload_type (codes "agent_message")
    then with_role TurnRole.assistant text
    else none)

unfoldable pub response_turn : Value → Option (TurnRole × Text)
unfolding codex_content
response_turn payload = bind (type_of payload) (λ payload_type.
    if text_eq payload_type (codes "message")
    then bind (as_str (get_value (codes "role") payload)) (λ role.
      let text = bind (get_value (codes "content") payload) codex_content in
      if text_eq role (codes "user")
      then with_role TurnRole.user text
      else if text_eq role (codes "assistant")
      then with_role TurnRole.assistant text
      else none)
    else none)

unfoldable pub codex_line_to_turn : Value → Option (TurnRole × Text)
unfolding event_turn response_turn
codex_line_to_turn value = bind (type_of value) (λ line_type.
    if text_eq line_type (codes "event_msg")
    then event_turn (payload_of value)
    else if text_eq line_type (codes "response_item")
    then response_turn (payload_of value)
    else none)

unfoldable pub turn_of : AgentKind → Value → Option (TurnRole × Text)
unfolding claude_line_to_turn codex_line_to_turn
turn_of AgentKind.claude value = claude_line_to_turn value
turn_of AgentKind.codex value = codex_line_to_turn value
turn_of other value = none

-- A turn without text, or with a placeholder for one, is dropped.
unfoldable pub real_turn : AgentKind → Text → TurnRole × Text → Option DiscoveredTurn
unfolding is_pseudo_turn_text
real_turn kind agent_id (role, text) =
    if is_empty (trim text) || is_pseudo_turn_text (trim text)
    then none
    else some (record { kind = kind; agent_id = agent_id; role = role; text = trim text })

unfoldable pub line_to_discovered_turn :
    (Text → Option Value) → AgentKind → Text → Text → Option DiscoveredTurn
unfolding turn_of real_turn
line_to_discovered_turn parse kind agent_id line =
    bind (parse line) (λ value. bind (turn_of kind value) (real_turn kind agent_id))
