-- ===== src/Protocol/Payloads/Numbers.antt =====
-- TOKEN_USAGE and PERMISSION_RES of crates/vb-protocol/src/payloads.rs: fixed layouts of integers.
use vibe_bridge.Base.{ℕ, ◌^◌, ◌<◌, ◌≡◌, refl, ◌++◌, List, some, from_le_bytes-to_le_bytes, arith}
use vibe_bridge.Core.{TokenUsage}
use vibe_bridge.Protocol.{PermissionDecisionByte, decision_byte}
use vibe_bridge.Protocol.Payloads.{
  encode_token_usage, decode_token_usage, encode_permission_response, decode_permission_response,
  decision_of_byte,
}

-- The three counters are `u64`.
pub record IsU64Usage (u : TokenUsage) : Type 0 where
  pub input : u.input < 2 ^ 64
  pub output : u.output < 2 ^ 64
  pub cost : u.cost_cents < 2 ^ 64

-- A usage of three `u64` is read back from its payload, whatever follows it.
pub decode-encode_token_usage :
    (u : TokenUsage) (rest : List ℕ)
    → IsU64Usage u
    → decode_token_usage (encode_token_usage u ++ rest) ≡ some u
unfolding decode_token_usage encode_token_usage
decode-encode_token_usage u rest h = ground (
  arith,
  from_le_bytes-to_le_bytes 8 u.input,
  from_le_bytes-to_le_bytes 8 u.output,
  from_le_bytes-to_le_bytes 8 u.cost_cents,
)

decision_of_byte-decision_byte :
    (d : PermissionDecisionByte) → decision_of_byte (decision_byte d) ≡ some d
unfolding decision_of_byte decision_byte
decision_of_byte-decision_byte PermissionDecisionByte.allow = refl
decision_of_byte-decision_byte d = refl

-- A decision for a `u64` request id is read back from its payload, whatever follows it.
pub decode-encode_permission_response :
    (req_id : ℕ) (d : PermissionDecisionByte) (rest : List ℕ)
    → req_id < 2 ^ 64
    → decode_permission_response (encode_permission_response req_id d ++ rest) ≡ some (req_id, d)
unfolding decode_permission_response encode_permission_response
decode-encode_permission_response req_id d rest h =
    ground (arith, decision_of_byte-decision_byte d, from_le_bytes-to_le_bytes 8 req_id)
