-- ===== src/Examples/Wire.antt =====
-- Examples for crates/vb-protocol and crates/vb-core, and for the byte routines of crates/vb-daemon.
use vibe_bridge.Base.{
  ℕ, zero, suc, ◌+◌, ◌*◌, ◌/◌, ◌^◌, ◌≤◌, ◌<◌, ◌≡◌, refl, ◌⊎◌, ◌&&◌, List, [], ◌∷◌, ◌++◌, none, some,
  Text, codes, length, take, drop, map, replicate, is_utf8, is_char_boundary, IsBytes, lower_byte,
  if◌then◌else◌, arith,
}
use vibe_bridge.Core.{TokenUsage}
use vibe_bridge.Protocol.{
  Cmd, cmd_byte, from_u8, from_u8_iff, TurnRoleByte, PermissionDecisionByte, decision_byte,
  role_byte,
}
use vibe_bridge.Protocol.Codec.{HidFrame, Result, ok, err, encode, decode, payload_too_large}
use vibe_bridge.Protocol.Codec.RoundTrip.{wire, decode-encode, decode_sound}
use vibe_bridge.Protocol.Split.{split_host_to_board}
use vibe_bridge.Protocol.Split.Reassembly.{joined, Packed, split-joined, split-Packed}
use vibe_bridge.Protocol.Payloads.{
  truncated, encode_turn_append, decode_turn_append, encode_permission_request,
  decode_permission_request,
}
use vibe_bridge.Protocol.Payloads.Turns.{IsLastBoundary, truncated_cases, decode-encode_turn_append}
use vibe_bridge.Protocol.Payloads.Fields.{
  sent_tool, sent_args, decode-encode_permission_request, permission_request_broken,
}
use vibe_bridge.Daemon.Hex.{hex_decode, hex_encode}
use vibe_bridge.Daemon.Hex.RoundTrip.{hex_decode-hex_encode, hex_encode-hex_decode}
use vibe_bridge.Daemon.Terminal.{empty_terminal, concat}
use vibe_bridge.Daemon.Terminal.Tail.{Holds, append_all, append_all_tail}

abbrev beat_frame : HidFrame
beat_frame = record { report_id = 0x20; cmd = Cmd.session_heartbeat; sid = 7; payload = 1 ∷ 2 ∷ [] }

abbrev beat_report : List ℕ
beat_report = wire beat_frame ++ replicate 56 0

decode-encode_example : (length beat_report ≡ 64) × (decode beat_report ≡ ok beat_frame)
unfolding encode vibe_bridge.Protocol.Codec.fill_report cmd_byte
decode-encode_example = decode-encode beat_frame {report = beat_report} (omega arith) refl

decode_sound_example : (beat_report ≡ wire beat_frame ++ drop 8 beat_report) × (7 < 2 ^ 16)
unfolding decode from_u8 cmd_byte
decode_sound_example = decode_sound beat_report beat_frame (ground arith) refl

split-joined_example :
    joined (split_host_to_board Cmd.vt100_stream 3 (replicate 60 65)) ≡ replicate 60 65
split-joined_example = split-joined Cmd.vt100_stream 3 (replicate 60 65)

split-Packed_example :
    Packed (split_host_to_board Cmd.vt100_stream 3 (replicate 60 65))
    × (length (split_host_to_board Cmd.vt100_stream 3 (replicate 60 65)) ≡ (60 + 57) / 58)
split-Packed_example = split-Packed Cmd.vt100_stream 3 (replicate 60 65) (omega arith)

abbrev some_usage : TokenUsage
some_usage = record { input = 1200; output = 34; cost_cents = 5 }

-- Each character takes two bytes, so that the cut falls at 56 and not at 57.
abbrev accents_of : ℕ → Text
accents_of zero = []
accents_of (suc n) = 195 ∷ 169 ∷ accents_of n

abbrev accents : Text
accents = accents_of 30

truncated_cases_example :
    ((length accents ≤ 57) × (truncated accents ≡ accents))
    ⊎ ((57 < length accents)
        × (k : ℕ) × IsLastBoundary 57 accents k
        × (truncated accents ≡ take k accents))
truncated_cases_example = truncated_cases accents

decode-encode_turn_append_example :
    (length (encode_turn_append TurnRoleByte.user accents) ≤ 58)
    × (decode_turn_append (encode_turn_append TurnRoleByte.user accents)
        ≡ some (TurnRoleByte.user, truncated accents))
unfolding is_utf8
decode-encode_turn_append_example = decode-encode_turn_append TurnRoleByte.user accents refl

decode-encode_permission_request_example :
    (length (encode_permission_request 5 (codes "Bash") accents) ≤ 58)
    × (decode_permission_request (encode_permission_request 5 (codes "Bash") accents) ≡ (
        if is_utf8 (sent_tool (codes "Bash")) && is_utf8 (sent_args (codes "Bash") accents)
        then some (5, sent_tool (codes "Bash"), sent_args (codes "Bash") accents)
        else none))
decode-encode_permission_request_example =
    decode-encode_permission_request 5 (codes "Bash") accents (omega arith)

-- The 24th and the 25th byte are one character.
abbrev long_tool : Text
long_tool = 97 ∷ accents_of 12

permission_request_broken_example :
    decode_permission_request (encode_permission_request 5 long_tool (codes "ls")) ≡ none
unfolding is_utf8 is_char_boundary
permission_request_broken_example =
    permission_request_broken 5 long_tool (codes "ls") (omega arith) refl (omega arith) refl

hex_decode-hex_encode_example :
    hex_decode (hex_encode (0 ∷ 171 ∷ 255 ∷ [])) ≡ some (0 ∷ 171 ∷ 255 ∷ [])
hex_decode-hex_encode_example = hex_decode-hex_encode (0 ∷ 171 ∷ 255 ∷ []) (ground arith)

hex_encode-hex_decode_example :
    (4 ≡ 2 * 2)
    × IsBytes (171 ∷ 1 ∷ [])
    × (hex_encode (171 ∷ 1 ∷ []) ≡ map lower_byte (codes "Ab01"))
unfolding hex_decode vibe_bridge.Daemon.Hex.decode_pairs vibe_bridge.Daemon.Hex.push_byte
    vibe_bridge.Daemon.Hex.hex_nibble
hex_encode-hex_decode_example =
    hex_encode-hex_decode (codes "Ab01") (171 ∷ 1 ∷ []) (ground arith) refl

append_all_tail_example :
    Holds
      (append_all empty_terminal ((1 ∷ 2 ∷ []) ∷ [] ∷ (3 ∷ []) ∷ []))
      (concat ((1 ∷ 2 ∷ []) ∷ [] ∷ (3 ∷ []) ∷ []))
append_all_tail_example = append_all_tail ((1 ∷ 2 ∷ []) ∷ [] ∷ (3 ∷ []) ∷ [])
