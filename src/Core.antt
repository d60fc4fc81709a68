-- ===== src/Core.antt =====
-- crates/vb-core/src/lib.rs: the models that the host-side crates share. A `u16`, `u32`, `u64` or
-- `usize` is a number whose range is a hypothesis where it matters; a `String` is its bytes.
pub mod Labels
pub mod Terminal
use vibe_bridge.Base.{ℕ, Bool, Option, Text, ◌==◌}

pub data TerminalKind : Type 0 where
  windows_terminal console_host power_shell cmd wsl terminal_like unknown : TerminalKind

pub data AgentKind : Type 0 where
  claude codex terminal unknown : AgentKind

pub data AgentStatus : Type 0 where
  running waiting_input idle done error unknown : AgentStatus

pub data AgentActivityKind : Type 0 where
  seen user_input assistant_output tool_activity waiting_input completed error : AgentActivityKind

pub data TurnRole : Type 0 where
  user assistant tool system : TurnRole

pub data PermissionDecision : Type 0 where
  allow deny always : PermissionDecision

unfoldable pub AgentKind-discrete : Discrete AgentKind
AgentKind-discrete = hlevel

-- A board-assigned session id, `pub struct BoardSid(pub u16)`; 0 is the broadcast.
abbrev pub BoardSid : Type 0
BoardSid = ℕ

abbrev pub broadcast : BoardSid
broadcast = 0

unfoldable pub is_broadcast : BoardSid → Bool
is_broadcast sid = sid == 0

pub record TerminalWindow : Type 0 where
  pub hwnd : ℕ
  pub pid : ℕ
  pub title : Text
  pub process_path : Text
  pub kind : TerminalKind

pub record AgentSession : Type 0 where
  pub agent_id : Text
  pub kind : AgentKind
  pub name : Text
  pub cwd : Text
  pub transcript_path : Text
  pub status : AgentStatus
  pub terminal_hwnd : Option ℕ

pub record AgentActivity : Type 0 where
  pub agent_id : Text
  pub kind : AgentKind
  pub activity : AgentActivityKind
  pub status : AgentStatus
  pub transcript_path : Text

-- Token counts and cost in cents, `u64` each.
pub record TokenUsage : Type 0 where
  pub input : ℕ
  pub output : ℕ
  pub cost_cents : ℕ

pub record ConversationTurn : Type 0 where
  pub sid : BoardSid
  pub role : TurnRole
  pub text : Text
  pub ts_ms : ℕ

pub record PermissionRequest : Type 0 where
  pub req_id : ℕ
  pub sid : BoardSid
  pub tool : Text
  pub args_summary : Text
