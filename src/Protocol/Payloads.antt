-- ===== src/Protocol/Payloads.antt =====
-- crates/vb-protocol/src/payloads.rs: the payloads of single commands. A text is its bytes, and
-- `from_utf8` is the test `is_utf8`; `try_into` of a slice of eight bytes does not fail.
pub mod Numbers
pub mod Turns
pub mod Fields
use vibe_bridge.Base.{
  ℕ, zero, suc, ◌+◌, ◌-◌, ◌%◌, min, Bool, ◌&&◌, List, [], ◌∷◌, ◌++◌, Option, none, some, Text,
  codes, length, get_or, take, drop, slice, to_le_bytes, from_le_bytes, is_empty, ltb, leb, ◌==◌,
  if◌then◌else◌, is_utf8, is_char_boundary,
}
use vibe_bridge.Core.{TokenUsage, BoardSid, is_broadcast}
use vibe_bridge.Protocol.{
  hid_max_payload, TurnRoleByte, role_byte, PermissionDecisionByte, decision_byte,
}

unfoldable pub encode_token_usage : TokenUsage → List ℕ
encode_token_usage usage =
    to_le_bytes 8 usage.input ++ (to_le_bytes 8 usage.output ++ to_le_bytes 8 usage.cost_cents)

unfoldable pub decode_token_usage : List ℕ → Option TokenUsage
decode_token_usage payload =
    if ltb (length payload) 24
    then none
    else some (record {
      input = from_le_bytes (slice 0 8 payload);
      output = from_le_bytes (slice 8 16 payload);
      cost_cents = from_le_bytes (slice 16 24 payload);
    })

-- `while cut > 0 && !text.is_char_boundary(cut) { cut -= 1; }`
unfoldable pub cut_back : ℕ → Text → ℕ
cut_back zero text = zero
cut_back (suc cut) text =
    let lower = cut_back cut text in if is_char_boundary (suc cut) text then suc cut else lower

-- What `encode_turn_append` keeps of the text.
unfoldable pub truncated : Text → Text
truncated text =
    let max_text = hid_max_payload - 1 in
    if ltb max_text (length text) then take (cut_back max_text text) text else text

unfoldable pub encode_turn_append : TurnRoleByte → Text → List ℕ
encode_turn_append role text = role_byte role ∷ truncated text

-- The match on the first byte of a TURN_APPEND payload.
unfoldable pub role_of_byte : ℕ → Option TurnRoleByte
role_of_byte b =
    if b == 0
    then some TurnRoleByte.user
    else if b == 1
    then some TurnRoleByte.assistant
    else if b == 2
    then some TurnRoleByte.tool
    else if b == 3
    then some TurnRoleByte.system
    else none

unfoldable pub decode_turn_append : List ℕ → Option (TurnRoleByte × Text)
decode_turn_append [] = none
decode_turn_append (b ∷ text) = elim (role_of_byte b) [
  | none ↦ none
  | some role ↦ if is_utf8 text then some (role, text) else none
]

-- `tool` takes 24 bytes at most, `args_summary` what is left of the payload.
unfoldable pub encode_permission_request : ℕ → Text → Text → List ℕ
encode_permission_request req_id tool args_summary =
    let tool_len = min (length tool) 24 in
    let buf : List ℕ = to_le_bytes 8 req_id ++ (tool_len % 256 ∷ take tool_len tool) in
    let remaining = hid_max_payload - length buf in
    let args_len = min (length args_summary) remaining in buf ++ take args_len args_summary

unfoldable pub decode_permission_request : List ℕ → Option (ℕ × Text × Text)
decode_permission_request payload =
    let tool_len = get_or payload 8 0 in
    let tool = slice 9 (9 + tool_len) payload in
    let args = drop (9 + tool_len) payload in
    if ltb (length payload) 9
    then none
    else if ltb (length payload) (9 + tool_len)
    then none
    else if is_utf8 tool && is_utf8 args
    then some (from_le_bytes (slice 0 8 payload), tool, args)
    else none

unfoldable pub encode_permission_response : ℕ → PermissionDecisionByte → List ℕ
encode_permission_response req_id decision = to_le_bytes 8 req_id ++ (decision_byte decision ∷ [])

-- The match on the ninth byte of a PERMISSION_RES payload.
unfoldable pub decision_of_byte : ℕ → Option PermissionDecisionByte
decision_of_byte b =
    if b == 0
    then some PermissionDecisionByte.allow
    else if b == 1
    then some PermissionDecisionByte.deny
    else if b == 2
    then some PermissionDecisionByte.always
    else none

unfoldable pub decode_permission_response : List ℕ → Option (ℕ × PermissionDecisionByte)
decode_permission_response payload =
    if ltb (length payload) 9 then none else elim (decision_of_byte (get_or payload 8 0)) [
      | none ↦ none
      | some decision ↦ some (from_le_bytes (slice 0 8 payload), decision)
    ]

unfoldable pub encode_abort_session : List ℕ
encode_abort_session = []

unfoldable pub encode_agent_meta : ℕ → Text → Text → List ℕ
encode_agent_meta kind cwd branch =
    let cwd_max = hid_max_payload - (2 + min (length branch) 16) in
    let cwd_len = min (min (length cwd) cwd_max) 255 in
    let buf : List ℕ = kind ∷ cwd_len % 256 ∷ take cwd_len cwd in
    let remaining = hid_max_payload - length buf in
    let branch_len = min (length branch) remaining in buf ++ take branch_len branch

unfoldable pub decode_agent_meta : List ℕ → Option (ℕ × Text × Text)
decode_agent_meta payload =
    let cwd_len = get_or payload 1 0 in
    let cwd = slice 2 (2 + cwd_len) payload in
    let branch = drop (2 + cwd_len) payload in
    if ltb (length payload) 2
    then none
    else if ltb (length payload) (2 + cwd_len)
    then none
    else if is_utf8 cwd && is_utf8 branch
    then some (get_or payload 0 0, cwd, branch)
    else none
