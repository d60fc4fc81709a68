-- ===== src/Daemon/Hex.antt =====
-- crates/vb-daemon/src/lib.rs: the hexadecimal text of `terminal.stream`.
pub mod RoundTrip
use Prim.Native.Nat.{bit_and, bit_or}
use vibe_bridge.Base.{
  ℕ, ◌+◌, ◌-◌, ◌*◌, ◌/◌, ◌%◌, List, [], ◌∷◌, Option, none, some, Text, codes, length, get_or, ◌==◌,
  in_range, if◌then◌else◌,
}

unfoldable pub hex_nibble : ℕ → Option ℕ
hex_nibble byte =
    if in_range b'0' b'9' byte
    then some (byte - b'0')
    else if in_range b'a' b'f' byte
    then some (byte - b'a' + 10)
    else if in_range b'A' b'F' byte
    then some (byte - b'A' + 10)
    else none

-- One round: `hi?`, `lo?`, and `out.push((hi << 4) | lo)` in front of what the later rounds push.
unfoldable pub push_byte : Option ℕ → Option ℕ → Option (List ℕ) → Option (List ℕ)
push_byte none lo out = none
push_byte (some hi) none out = none
push_byte (some hi) (some lo) none = none
push_byte (some hi) (some lo) (some out) = some (bit_or (hi * 16 % 256) lo ∷ out)

-- The loop by twos. A byte that is left alone would be an index out of range: the length is even.
unfoldable pub decode_pairs : Text → Option (List ℕ)
decode_pairs [] = some []
decode_pairs (a ∷ []) = none
decode_pairs (a ∷ b ∷ rest) = push_byte (hex_nibble a) (hex_nibble b) (decode_pairs rest)

unfoldable pub hex_decode : Text → Option (List ℕ)
hex_decode input = if length input % 2 == 0 then decode_pairs input else none

-- The table `b"0123456789abcdef"`.
unfoldable pub hex_digit : ℕ → ℕ
hex_digit i = get_or (codes "0123456789abcdef") i 0

unfoldable pub hex_encode : List ℕ → Text
hex_encode [] = []
hex_encode (b ∷ bytes) = hex_digit (b / 16) ∷ hex_digit (bit_and b 0x0f) ∷ hex_encode bytes
