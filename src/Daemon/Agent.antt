-- ===== src/Daemon/Agent.antt =====
-- crates/vb-daemon/src/lib.rs: a registered agent, and the messages that describe it to the board.
pub mod Messages
use vibe_bridge.Base.{
  ℕ, zero, suc, ◌≡◌, Bool, true, false, ◌&&◌, List, [], ◌∷◌, ◌++◌, Option, none, some, Text, codes,
  length, is_empty, last?, take, ◌==◌, if◌then◌else◌, ℕ_discrete, is_continuation,
}
use vibe_bridge.Core.{
  AgentKind, AgentKind-discrete, AgentStatus, AgentSession, BoardSid, TokenUsage, ConversationTurn,
  PermissionRequest, PermissionDecision, TurnRole,
}
use vibe_bridge.Core.Labels.{agent_kind_as_str}
use vibe_bridge.Protocol.{
  Cmd, SessionStateByte, session_state_byte, TurnRoleByte, PermissionDecisionByte,
}
use vibe_bridge.Protocol.Payloads.{
  encode_agent_meta, encode_token_usage, encode_turn_append, encode_permission_request,
}
use vibe_bridge.Transport.{HidMessage}
use vibe_bridge.Daemon.Terminal.{TerminalBuffer, empty_terminal, terminal_snapshot}

-- The key of an agent, `(AgentKind, String)`.
abbrev pub Key : Type 0
Key = AgentKind × Text

unfoldable pub key_dec : (a b : Key) → Dec (a ≡ b)
unfolding AgentKind-discrete
key_dec = hlevel (AgentKind-discrete, ℕ_discrete)

pub record RegisteredAgent : Type 0 where
  pub agent_id : Text
  pub kind : AgentKind
  pub name : Text
  pub cwd : Text
  pub focus_target : Option Text
  pub terminal_hwnd : Option ℕ
  pub status : AgentStatus
  pub board_sid : Option BoardSid
  pub usage : TokenUsage
  pub turns : List ConversationTurn
  pub pending_permissions : List PermissionRequest
  pub resolved_permissions : List (ℕ × PermissionDecision)
  pub from_hook : Bool
  pub from_launch : Bool
  pub terminal : TerminalBuffer
  pub attached_terminal : Option Key

abbrev pub key_of : RegisteredAgent → Key
key_of a = (a.kind, a.agent_id)

abbrev pub default_usage : TokenUsage
default_usage = record { input = 0; output = 0; cost_cents = 0 }

-- `agent.board_sid == Some(..)` and the like.
unfoldable pub sid_eq : Option BoardSid → Option BoardSid → Bool
sid_eq none none = true
sid_eq none (some b) = false
sid_eq (some a) none = false
sid_eq (some a) (some b) = a == b

abbrev pub is_some {ℓ} : {A : Type ℓ} → Option A → Bool
is_some none = false
is_some (some a) = true

-- `RegisteredAgent::from_session`.
unfoldable pub from_session : AgentSession → RegisteredAgent
from_session s = record {
  agent_id = s.agent_id;
  kind = s.kind;
  name = s.name;
  cwd = s.cwd;
  focus_target = none;
  terminal_hwnd = s.terminal_hwnd;
  status = s.status;
  board_sid = none;
  usage = default_usage;
  turns = [];
  pending_permissions = [];
  resolved_permissions = [];
  from_hook = false;
  from_launch = false;
  terminal = empty_terminal;
  attached_terminal = none;
}

-- `chars().take(n)`: bytes that continue a character count for nothing.
take_chars : ℕ → Text → Text
take_chars n [] = []
take_chars zero (b ∷ bs) =
    let more = take_chars zero bs in if is_continuation b then b ∷ more else []
take_chars (suc n) (b ∷ bs) = b ∷ take_chars (if is_continuation b then suc n else n) bs

-- `RegisteredAgent::to_session`.
unfoldable pub to_session : RegisteredAgent → AgentSession
unfolding take_chars
to_session a = record {
  agent_id = a.agent_id;
  kind = a.kind;
  name = if is_empty a.name then take_chars 8 a.agent_id else a.name;
  cwd = a.cwd;
  transcript_path = [];
  status = a.status;
  terminal_hwnd = a.terminal_hwnd;
}

unfoldable pub is_terminal : AgentKind → Bool
is_terminal AgentKind.terminal = true
is_terminal other = false

unfoldable pub is_transport_only_terminal : RegisteredAgent → Bool
unfolding is_terminal
is_transport_only_terminal a = is_terminal a.kind && a.from_launch
