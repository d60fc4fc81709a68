-- ===== src/Core/Labels.antt =====
-- crates/vb-core/src/lib.rs: the labels of agent kinds, statuses, activities, roles, decisions.
use vibe_bridge.Base.{
  ◌≡◌, refl, ◌||◌, Text, codes, text_eq, trim, to_ascii_lowercase, lower_byte, if◌then◌else◌,
}
use vibe_bridge.Core.{
  AgentKind, AgentStatus, AgentActivityKind, TurnRole, PermissionDecision, TerminalKind,
}

-- `AgentKind::as_str`.
unfoldable pub agent_kind_as_str : AgentKind → Text
agent_kind_as_str AgentKind.claude = codes "claude"
agent_kind_as_str AgentKind.codex = codes "codex"
agent_kind_as_str AgentKind.terminal = codes "terminal"
agent_kind_as_str AgentKind.unknown = codes "unknown"

kind_of_label : Text → AgentKind
kind_of_label s =
    if text_eq s (codes "claude") || text_eq s (codes "claude-code")
    then AgentKind.claude
    else if text_eq s (codes "codex")
        || text_eq s (codes "codex-cli")
        || text_eq s (codes "codex-tui")
    then AgentKind.codex
    else if text_eq s (codes "terminal")
        || text_eq s (codes "shell")
        || text_eq s (codes "vibe-terminal")
        || text_eq s (codes "capture-shell")
    then AgentKind.terminal
    else AgentKind.unknown

-- `AgentKind::from_label`.
unfoldable pub from_label : Text → AgentKind
unfolding kind_of_label
from_label value = kind_of_label (to_ascii_lowercase (trim value))

-- `AgentStatus::as_str`.
unfoldable pub agent_status_as_str : AgentStatus → Text
agent_status_as_str AgentStatus.running = codes "running"
agent_status_as_str AgentStatus.waiting_input = codes "waiting-input"
agent_status_as_str AgentStatus.idle = codes "idle"
agent_status_as_str AgentStatus.done = codes "done"
agent_status_as_str AgentStatus.error = codes "error"
agent_status_as_str AgentStatus.unknown = codes "unknown"

-- `TerminalKind::as_str`.
unfoldable pub terminal_kind_as_str : TerminalKind → Text
terminal_kind_as_str TerminalKind.windows_terminal = codes "windows-terminal"
terminal_kind_as_str TerminalKind.console_host = codes "console-host"
terminal_kind_as_str TerminalKind.power_shell = codes "powershell"
terminal_kind_as_str TerminalKind.cmd = codes "cmd"
terminal_kind_as_str TerminalKind.wsl = codes "wsl"
terminal_kind_as_str TerminalKind.terminal_like = codes "terminal-like"
terminal_kind_as_str TerminalKind.unknown = codes "unknown"

-- `AgentActivityKind::as_str`.
unfoldable pub activity_kind_as_str : AgentActivityKind → Text
activity_kind_as_str AgentActivityKind.seen = codes "seen"
activity_kind_as_str AgentActivityKind.user_input = codes "user-input"
activity_kind_as_str AgentActivityKind.assistant_output = codes "assistant-output"
activity_kind_as_str AgentActivityKind.tool_activity = codes "tool-activity"
activity_kind_as_str AgentActivityKind.waiting_input = codes "waiting-input"
activity_kind_as_str AgentActivityKind.completed = codes "completed"
activity_kind_as_str AgentActivityKind.error = codes "error"

-- `TurnRole::as_str`.
unfoldable pub turn_role_as_str : TurnRole → Text
turn_role_as_str TurnRole.user = codes "user"
turn_role_as_str TurnRole.assistant = codes "assistant"
turn_role_as_str TurnRole.tool = codes "tool"
turn_role_as_str TurnRole.system = codes "system"

-- `PermissionDecision::as_str`.
unfoldable pub decision_as_str : PermissionDecision → Text
decision_as_str PermissionDecision.allow = codes "allow"
decision_as_str PermissionDecision.deny = codes "deny"
decision_as_str PermissionDecision.always = codes "always"

-- The label of every agent kind is read back as that kind.
pub from_label-as_str : (k : AgentKind) → from_label (agent_kind_as_str k) ≡ k
unfolding from_label agent_kind_as_str trim text_eq lower_byte
from_label-as_str AgentKind.claude = refl
from_label-as_str AgentKind.codex = refl
from_label-as_str AgentKind.terminal = refl
from_label-as_str AgentKind.unknown = refl
