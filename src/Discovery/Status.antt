-- ===== src/Discovery/Status.antt =====
-- crates/vb-host/src/agent_discovery.rs: what a line of a transcript says of the session's status
-- and activity.
use vibe_bridge.Base.{
  Bool, true, false, ◌||◌, ◌&&◌, List, [], ◌∷◌, Text, codes, Option, none, some, text_eq,
  if◌then◌else◌,
}
use vibe_bridge.Core.{AgentKind, AgentStatus, AgentActivityKind, AgentActivity}
use vibe_bridge.Core.Terminal.{contains}
use vibe_bridge.Json.{Value, Items, array, no_items, item, get_value, as_str, as_bool}

abbrev pub bind {ℓ κ} : {A : Type ℓ} {B : Type κ} → Option A → (A → Option B) → Option B
bind none f = none
bind (some a) f = f a

abbrev pub type_of : Value → Option Text
type_of value = as_str (get_value (codes "type") value)

-- `value.get("payload").unwrap_or(value)`.
abbrev pub payload_of : Value → Value
payload_of value = elim (get_value (codes "payload") value) [
  | none ↦ value
  | some payload ↦ payload
]

abbrev pub is_text : Text → Option Text → Bool
is_text expected none = false
is_text expected (some text) = text_eq text expected

-- The first status whose name the text is; a name may stand for no status.
abbrev pub is_named : Text → List Text → Bool
is_named text [] = false
is_named text (name ∷ names) = text_eq text name || is_named text names

unfoldable pub codex_event_named : Value → Text → Option AgentStatus
unfolding contains
codex_event_named payload event =
    if contains (codes "approval") event
      || contains (codes "permission") event
      || contains (codes "input") event
    then some AgentStatus.waiting_input
    else if is_named event (codes "user_message" ∷ codes "task_started" ∷ [])
    then some AgentStatus.running
    else if text_eq event (codes "agent_message")
    then some AgentStatus.idle
    else if text_eq event (codes "task_complete")
    then some AgentStatus.done
    else if is_named event (codes "exec_command_end" ∷ codes "patch_apply_end" ∷ [])
    then (let status = as_str (get_value (codes "status") payload) in
        if is_text (codes "failed") status || is_text (codes "error") status
        then some AgentStatus.error
        else some AgentStatus.running)
    else none

unfoldable pub codex_event_status : Value → Option AgentStatus
unfolding codex_event_named
codex_event_status payload = bind (type_of payload) (codex_event_named payload)

unfoldable pub codex_response_named : Value → Text → Option AgentStatus
codex_response_named payload item_type =
    if is_named item_type (
      codes "reasoning"
      ∷ codes "function_call"
      ∷ codes "function_call_output"
      ∷ codes "custom_tool_call"
      ∷ codes "custom_tool_call_output"
      ∷ [])
    then some AgentStatus.running
    else if text_eq item_type (codes "message")
    then (let role = as_str (get_value (codes "role") payload) in
        if is_text (codes "assistant") role
        then some AgentStatus.idle
        else if is_text (codes "user") role
        then some AgentStatus.running
        else none)
    else none

unfoldable pub codex_response_status : Value → Option AgentStatus
unfolding codex_response_named
codex_response_status payload = bind (type_of payload) (codex_response_named payload)

unfoldable pub any_tool : Items → Bool
any_tool no_items = false
any_tool (item value rest) =
    is_text (codes "tool_use") (type_of value)
    || is_text (codes "tool_result") (type_of value)
    || any_tool rest

abbrev pub has_tool : Option Value → Bool
has_tool (some (array items)) = any_tool items
has_tool other = false

unfoldable pub message_has_tool_use : Value → Bool
unfolding any_tool
message_has_tool_use message = has_tool (get_value (codes "content") message)

abbrev pub is_some {ℓ} : {A : Type ℓ} → Option A → Bool
is_some none = false
is_some (some a) = true

abbrev pub is_true : Option Bool → Bool
is_true none = false
is_true (some b) = b

unfoldable pub claude_named : Value → Text → Option AgentStatus
unfolding message_has_tool_use
claude_named value line_type =
    if text_eq line_type (codes "user")
    then some AgentStatus.running
    else if text_eq line_type (codes "assistant")
    then (if is_some (get_value (codes "error") value)
          || is_true (as_bool (get_value (codes "isApiErrorMessage") value))
        then some AgentStatus.error
        else if elim (get_value (codes "message") value) [
          | none ↦ false
          | some message ↦ message_has_tool_use message
        ]
        then some AgentStatus.running
        else some AgentStatus.idle)
    else if text_eq line_type (codes "progress")
    then some AgentStatus.running
    else if text_eq line_type (codes "system")
    then (let subtype = as_str (get_value (codes "subtype") value) in
        if is_text (codes "turn_duration") subtype || is_text (codes "stop_hook_summary") subtype
        then some AgentStatus.done
        else none)
    else none

unfoldable pub claude_status : Value → Option AgentStatus
unfolding claude_named
claude_status value = bind (type_of value) (claude_named value)

-- The activity that a Codex event's status stands for.
unfoldable pub event_activity : Option Text → AgentStatus → Option (AgentActivityKind × AgentStatus)
event_activity event AgentStatus.waiting_input =
    some (AgentActivityKind.waiting_input, AgentStatus.waiting_input)
event_activity event AgentStatus.done = some (AgentActivityKind.completed, AgentStatus.done)
event_activity event AgentStatus.error = some (AgentActivityKind.error, AgentStatus.error)
event_activity event AgentStatus.idle = some (AgentActivityKind.assistant_output, AgentStatus.idle)
event_activity event AgentStatus.running = some (
  (if is_text (codes "user_message") event
      then AgentActivityKind.user_input
      else AgentActivityKind.tool_activity),
  AgentStatus.running,
)
event_activity event AgentStatus.unknown = none

unfoldable pub response_activity : Value → AgentStatus → Option (AgentActivityKind × AgentStatus)
response_activity payload status =
    let is_message = is_text (codes "message") (type_of payload) in
    some (
      (if is_message && is_text (codes "user") (as_str (get_value (codes "role") payload))
          then AgentActivityKind.user_input
          else if is_message
          then AgentActivityKind.assistant_output
          else AgentActivityKind.tool_activity),
      status,
    )

unfoldable pub codex_named : Value → Text → Option (AgentActivityKind × AgentStatus)
unfolding codex_event_status codex_response_status event_activity response_activity
codex_named value line_type =
    let payload = payload_of value in
    if text_eq line_type (codes "event_msg")
    then bind (codex_event_status payload) (event_activity (type_of payload))
    else if text_eq line_type (codes "response_item")
    then bind (codex_response_status payload) (response_activity payload)
    else none

unfoldable pub codex_line_activity_status : Value → Option (AgentActivityKind × AgentStatus)
unfolding codex_named
codex_line_activity_status value = bind (type_of value) (codex_named value)

unfoldable pub claude_activity :
    Option Text → AgentStatus → Option (AgentActivityKind × AgentStatus)
claude_activity line_type AgentStatus.done = some (AgentActivityKind.completed, AgentStatus.done)
claude_activity line_type AgentStatus.error = some (AgentActivityKind.error, AgentStatus.error)
claude_activity line_type AgentStatus.idle =
    some (AgentActivityKind.assistant_output, AgentStatus.idle)
claude_activity line_type AgentStatus.running = some (
  (if is_text (codes "user") line_type
      then AgentActivityKind.user_input
      else AgentActivityKind.tool_activity),
  AgentStatus.running,
)
claude_activity line_type AgentStatus.waiting_input =
    some (AgentActivityKind.waiting_input, AgentStatus.waiting_input)
claude_activity line_type AgentStatus.unknown = none

unfoldable pub claude_line_activity_status : Value → Option (AgentActivityKind × AgentStatus)
unfolding claude_status claude_activity
claude_line_activity_status value = bind (claude_status value) (claude_activity (type_of value))

unfoldable pub activity_status : AgentKind → Value → Option (AgentActivityKind × AgentStatus)
unfolding codex_line_activity_status claude_line_activity_status
activity_status AgentKind.codex value = codex_line_activity_status value
activity_status AgentKind.claude value = claude_line_activity_status value
activity_status other value = none

unfoldable pub line_to_activity :
    (Text → Option Value) → AgentKind → Text → Text → Text → Option AgentActivity
unfolding activity_status
line_to_activity parse kind agent_id path line = bind (parse line) (λ value.
    bind (activity_status kind value) (λ (activity, status). some (record {
      agent_id = agent_id;
      kind = kind;
      activity = activity;
      status = status;
      transcript_path = path;
    })))

abbrev pub cons_some {ℓ} : {A : Type ℓ} → Option A → List A → List A
cons_some none more = more
cons_some (some a) more = a ∷ more

-- The activities of the lines, in order.
unfoldable pub line_activities :
    (Text → Option Value) → AgentKind → Text → Text → List Text → List AgentActivity
unfolding line_to_activity
line_activities parse kind agent_id path [] = []
line_activities parse kind agent_id path (line ∷ lines) =
    cons_some (line_to_activity parse kind agent_id path line)
      (line_activities parse kind agent_id path lines)
