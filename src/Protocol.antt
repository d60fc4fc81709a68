-- ===== src/Protocol.antt =====
-- crates/vb-protocol/src/lib.rs: constants and commands of the HID protocol.
pub mod Codec
pub mod Split
pub mod Payloads
use vibe_bridge.Base.{
  ℕ, ◌-◌, ◌*◌, ◌^◌, ◌<◌, ◌≡◌, refl, ◌↔◌, Option, none, some, ◌==◌, if◌then◌else◌, arith,
}

abbrev pub hid_report_len : ℕ
hid_report_len = 64

abbrev pub hid_header_size : ℕ
hid_header_size = 6

abbrev pub hid_max_payload : ℕ
hid_max_payload = hid_report_len - hid_header_size

-- Board to host input reports, and host to board output reports.
abbrev pub report_id_host_bound : ℕ
report_id_host_bound = 0x10

abbrev pub report_id_device_bound : ℕ
report_id_device_bound = 0x20

abbrev pub plugin_hint_max : ℕ
plugin_hint_max = 24

pub data Cmd : Type 0 where
  request_session session_response session_invalid session_heartbeat session_focus : Cmd
  key_event encoder_event permission_res abort_session send_key : Cmd
  vt100_stream ui_scale_change status_update : Cmd
  token_usage turn_append permission_req agent_meta : Cmd
  feedback_event error : Cmd

unfoldable pub Cmd-discrete : Discrete Cmd
Cmd-discrete = hlevel

-- `cmd as u8`, the discriminants.
unfoldable pub cmd_byte : Cmd → ℕ
cmd_byte Cmd.request_session = 0x01
cmd_byte Cmd.session_response = 0x02
cmd_byte Cmd.session_invalid = 0x03
cmd_byte Cmd.session_heartbeat = 0x04
cmd_byte Cmd.session_focus = 0x05
cmd_byte Cmd.key_event = 0x10
cmd_byte Cmd.encoder_event = 0x11
cmd_byte Cmd.permission_res = 0x12
cmd_byte Cmd.abort_session = 0x13
cmd_byte Cmd.send_key = 0x14
cmd_byte Cmd.vt100_stream = 0x30
cmd_byte Cmd.ui_scale_change = 0x40
cmd_byte Cmd.status_update = 0x50
cmd_byte Cmd.token_usage = 0x51
cmd_byte Cmd.turn_append = 0x52
cmd_byte Cmd.permission_req = 0x53
cmd_byte Cmd.agent_meta = 0x54
cmd_byte Cmd.feedback_event = 0x60
cmd_byte Cmd.error = 0xFF

-- `Cmd::from_u8`.
unfoldable pub from_u8 : ℕ → Option Cmd
from_u8 value =
    if value == 0x01
    then some Cmd.request_session
    else if value == 0x02
    then some Cmd.session_response
    else if value == 0x03
    then some Cmd.session_invalid
    else if value == 0x04
    then some Cmd.session_heartbeat
    else if value == 0x05
    then some Cmd.session_focus
    else if value == 0x10
    then some Cmd.key_event
    else if value == 0x11
    then some Cmd.encoder_event
    else if value == 0x12
    then some Cmd.permission_res
    else if value == 0x13
    then some Cmd.abort_session
    else if value == 0x14
    then some Cmd.send_key
    else if value == 0x30
    then some Cmd.vt100_stream
    else if value == 0x40
    then some Cmd.ui_scale_change
    else if value == 0x50
    then some Cmd.status_update
    else if value == 0x51
    then some Cmd.token_usage
    else if value == 0x52
    then some Cmd.turn_append
    else if value == 0x53
    then some Cmd.permission_req
    else if value == 0x54
    then some Cmd.agent_meta
    else if value == 0x60
    then some Cmd.feedback_event
    else if value == 0xFF
    then some Cmd.error
    else none

-- SESSION_RESPONSE's status byte.
pub data SessionStatusByte : Type 0 where
  ok created invalid_s expired pool_full reclaimed disconnected : SessionStatusByte

unfoldable pub session_status_byte : SessionStatusByte → ℕ
session_status_byte SessionStatusByte.ok = 0x00
session_status_byte SessionStatusByte.created = 0x01
session_status_byte SessionStatusByte.invalid_s = 0x02
session_status_byte SessionStatusByte.expired = 0x03
session_status_byte SessionStatusByte.pool_full = 0x04
session_status_byte SessionStatusByte.reclaimed = 0x05
session_status_byte SessionStatusByte.disconnected = 0x06

-- STATUS_UPDATE's state byte.
pub data SessionStateByte : Type 0 where
  connected disconnected run wait done error : SessionStateByte

unfoldable pub session_state_byte : SessionStateByte → ℕ
session_state_byte SessionStateByte.connected = 0x00
session_state_byte SessionStateByte.disconnected = 0x01
session_state_byte SessionStateByte.run = 0x02
session_state_byte SessionStateByte.wait = 0x03
session_state_byte SessionStateByte.done = 0x04
session_state_byte SessionStateByte.error = 0x05

-- PERMISSION_RES's decision byte.
pub data PermissionDecisionByte : Type 0 where
  allow deny always : PermissionDecisionByte

unfoldable pub decision_byte : PermissionDecisionByte → ℕ
decision_byte PermissionDecisionByte.allow = 0x00
decision_byte PermissionDecisionByte.deny = 0x01
decision_byte PermissionDecisionByte.always = 0x02

-- TURN_APPEND's role byte.
pub data TurnRoleByte : Type 0 where
  user assistant tool system : TurnRoleByte

unfoldable pub role_byte : TurnRoleByte → ℕ
role_byte TurnRoleByte.user = 0x00
role_byte TurnRoleByte.assistant = 0x01
role_byte TurnRoleByte.tool = 0x02
role_byte TurnRoleByte.system = 0x03

from_u8-cmd_byte : (c : Cmd) → from_u8 (cmd_byte c) ≡ some c
unfolding from_u8 cmd_byte
from_u8-cmd_byte Cmd.request_session = refl
from_u8-cmd_byte c = refl

cmd_byte-from_u8 : (b : ℕ) (c : Cmd) → from_u8 b ≡ some c → b ≡ cmd_byte c
unfolding from_u8 cmd_byte
cmd_byte-from_u8 b c h = ground arith

-- A byte is read as a command exactly if it is that command's discriminant.
pub from_u8_iff : (b : ℕ) (c : Cmd) → (from_u8 b ≡ some c) ↔ (b ≡ cmd_byte c)
from_u8_iff b c = (cmd_byte-from_u8 b c, λ e. rw e (from_u8-cmd_byte c))

pub cmd_byte-lt : (c : Cmd) → cmd_byte c < 256
unfolding cmd_byte
cmd_byte-lt Cmd.request_session = omega arith
cmd_byte-lt c = omega arith
