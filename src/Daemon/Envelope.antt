-- ===== src/Daemon/Envelope.antt =====
-- crates/vb-daemon/src/lib.rs: the requests of the JSON interface as `serde_json` delivers them, and
-- the conversions of their labels. Fields with `#[serde(default)]` hold their default if left out.
use vibe_bridge.Base.{
  ℕ, Bool, true, false, ◌||◌, List, [], ◌∷◌, Option, none, some, Text, codes, text_eq, trim,
  to_ascii_lowercase, is_empty, if◌then◌else◌,
}
use vibe_bridge.Core.{AgentKind, AgentStatus, AgentActivity, AgentActivityKind, TurnRole}
use vibe_bridge.Core.Labels.{from_label}
use vibe_bridge.Daemon.Terminal.{empty_terminal}
use vibe_bridge.Daemon.Agent.{Key, RegisteredAgent, default_usage}
use vibe_bridge.Daemon.State.{
  Result, ok, err, unknown_agent_kind, unknown_parent_kind, agent_id_required, unknown_turn_role,
}

pub record TerminalStreamPayload : Type 0 where
  pub agent_id : Text
  pub kind : Text
  pub data_hex : Text

pub record TokenUpdatePayload : Type 0 where
  pub agent_id : Text
  pub kind : Text
  pub input : ℕ
  pub output : ℕ
  pub cost_cents : ℕ

pub record TurnPayload : Type 0 where
  pub agent_id : Text
  pub kind : Text
  pub role : Text
  pub text : Text
  pub ts_ms : ℕ

pub record PermissionRequestPayload : Type 0 where
  pub agent_id : Text
  pub kind : Text
  pub req_id : ℕ
  pub tool : Text
  pub args_summary : Text

pub record PermissionResolvePayload : Type 0 where
  pub agent_id : Text
  pub kind : Text
  pub req_id : ℕ

pub record PermissionPollPayload : Type 0 where
  pub agent_id : Text
  pub kind : Text
  pub req_id : ℕ

pub record AbortPayload : Type 0 where
  pub agent_id : Text
  pub kind : Text

pub record RegistrationAgentPayload : Type 0 where
  pub agent_id : Text
  pub kind : Text
  pub name : Text
  pub cwd : Text
  pub focus_target : Option Text
  pub terminal_hwnd : Option ℕ
  pub status : Option Text
  pub parent_agent_id : Option Text
  pub parent_kind : Option Text
  pub from_launch : Bool

pub record ActivityPayload : Type 0 where
  pub agent_id : Text
  pub kind : Text
  pub activity : Text
  pub status : Text
  pub transcript_path : Text

pub record RegistrationEnvelope : Type 0 where
  pub message_type : Text
  pub agent : Option RegistrationAgentPayload
  pub activity : Option ActivityPayload
  pub token : Option TokenUpdatePayload
  pub turn : Option TurnPayload
  pub permission : Option PermissionRequestPayload
  pub resolve : Option PermissionResolvePayload
  pub poll : Option PermissionPollPayload
  pub abort : Option AbortPayload
  pub stream : Option TerminalStreamPayload

-- An arm of a `match` on text.
abbrev pub is_one_of : Text → List Text → Bool
is_one_of s [] = false
is_one_of s (t ∷ ts) = text_eq s t || is_one_of s ts

status_of : Text → AgentStatus
status_of s =
    if is_one_of s (codes "running" ∷ [])
    then AgentStatus.running
    else if is_one_of s (codes "waiting-input" ∷ codes "waiting_input" ∷ codes "waiting" ∷ [])
    then AgentStatus.waiting_input
    else if is_one_of s (codes "idle" ∷ [])
    then AgentStatus.idle
    else if is_one_of s (codes "done" ∷ codes "completed" ∷ codes "complete" ∷ [])
    then AgentStatus.done
    else if is_one_of s (codes "error" ∷ codes "failed" ∷ [])
    then AgentStatus.error
    else AgentStatus.unknown

unfoldable pub status_from_label : Text → AgentStatus
unfolding status_of
status_from_label value = status_of (to_ascii_lowercase (trim value))

activity_of : Text → AgentActivityKind
activity_of s =
    if is_one_of s (codes "seen" ∷ [])
    then AgentActivityKind.seen
    else if is_one_of s (codes "user-input" ∷ codes "user_input" ∷ codes "user" ∷ [])
    then AgentActivityKind.user_input
    else if is_one_of s
        (codes "assistant-output" ∷ codes "assistant_output" ∷ codes "assistant" ∷ [])
    then AgentActivityKind.assistant_output
    else if is_one_of s (codes "waiting-input" ∷ codes "waiting_input" ∷ codes "waiting" ∷ [])
    then AgentActivityKind.waiting_input
    else if is_one_of s (codes "completed" ∷ codes "complete" ∷ codes "done" ∷ [])
    then AgentActivityKind.completed
    else if is_one_of s (codes "error" ∷ codes "failed" ∷ [])
    then AgentActivityKind.error
    else AgentActivityKind.tool_activity

unfoldable pub activity_from_label : Text → AgentActivityKind
unfolding activity_of
activity_from_label value = activity_of (to_ascii_lowercase (trim value))

role_of : Text → Result TurnRole
role_of s =
    if is_one_of s (codes "user" ∷ [])
    then ok TurnRole.user
    else if is_one_of s (codes "assistant" ∷ codes "model" ∷ [])
    then ok TurnRole.assistant
    else if is_one_of s (codes "tool" ∷ codes "tool_use" ∷ codes "tool_result" ∷ [])
    then ok TurnRole.tool
    else if is_one_of s (codes "system" ∷ [])
    then ok TurnRole.system
    else err (unknown_turn_role s)

unfoldable pub parse_role : Text → Result TurnRole
unfolding role_of
parse_role value = role_of (to_ascii_lowercase (trim value))

known_kind : Text → AgentKind → Result AgentKind
known_kind value AgentKind.unknown = err (unknown_agent_kind value)
known_kind value kind = ok kind

unfoldable pub parse_kind : Text → Result AgentKind
unfolding known_kind
parse_kind value = known_kind value (from_label value)

-- The parent terminal: a kind and an id that is not blank; an unknown kind is an error.
parent_key : AgentKind → Text → Result (Option Key)
parent_key AgentKind.unknown parent_agent_id = err unknown_parent_kind
parent_key kind parent_agent_id = ok (some (kind, parent_agent_id))

attached_terminal_of : Option Text → Option Text → Result (Option Key)
unfolding parent_key
attached_terminal_of none id = ok none
attached_terminal_of (some kind) none = ok none
attached_terminal_of (some kind) (some id) =
    if is_empty (trim id) then ok none else parent_key (from_label kind) id

abbrev or_running : Option Text → Text
or_running none = codes "running"
or_running (some status) = status

new_agent : RegistrationAgentPayload → AgentKind → Result (Option Key) → Result RegisteredAgent
new_agent p kind (err e) = err e
new_agent p kind (ok attached) = ok (record {
  agent_id = p.agent_id;
  kind = kind;
  name = p.name;
  cwd = p.cwd;
  focus_target = p.focus_target;
  terminal_hwnd = p.terminal_hwnd;
  status = status_from_label (or_running p.status);
  board_sid = none;
  usage = default_usage;
  turns = [];
  pending_permissions = [];
  resolved_permissions = [];
  from_hook = true;
  from_launch = p.from_launch;
  terminal = empty_terminal;
  attached_terminal = attached;
})

agent_of_kind : RegistrationAgentPayload → Result AgentKind → Result RegisteredAgent
unfolding new_agent attached_terminal_of
agent_of_kind p (err e) = err e
agent_of_kind p (ok kind) =
    if is_empty (trim p.agent_id)
    then err agent_id_required
    else new_agent p kind (attached_terminal_of p.parent_kind p.parent_agent_id)

-- `RegistrationAgentPayload::into_registered_agent`.
unfoldable pub into_registered_agent : RegistrationAgentPayload → Result RegisteredAgent
unfolding agent_of_kind
into_registered_agent p = agent_of_kind p (parse_kind p.kind)

activity_of_kind : ActivityPayload → Result AgentKind → Result AgentActivity
activity_of_kind p (err e) = err e
activity_of_kind p (ok kind) =
    if is_empty (trim p.agent_id)
    then err agent_id_required
    else ok (record {
      agent_id = p.agent_id;
      kind = kind;
      activity = activity_from_label p.activity;
      status = status_from_label p.status;
      transcript_path = p.transcript_path;
    })

-- `ActivityPayload::into_agent_activity`.
unfoldable pub into_agent_activity : ActivityPayload → Result AgentActivity
unfolding activity_of_kind
into_agent_activity p = activity_of_kind p (parse_kind p.kind)
