-- ===== src/Protocol/Codec.antt =====
-- crates/vb-protocol/src/codec.rs: one HID frame to and from its 64-byte report.
pub mod RoundTrip
use vibe_bridge.Base.{
  ℕ, ◌+◌, ◌-◌, ◌%◌, ◌^◌, ◌≡◌, refl, List, [], ◌∷◌, ◌++◌, Option, none, some, length, get_or, slice,
  copy_at, replicate, to_le_bytes, from_le_bytes, ltb, if◌then◌else◌,
}
use vibe_bridge.Protocol.{
  Cmd, cmd_byte, from_u8, hid_report_len, hid_header_size, hid_max_payload, report_id_host_bound,
}

pub record HidFrame : Type 0 where
  pub report_id : ℕ
  pub cmd : Cmd
  pub sid : ℕ
  pub payload : List ℕ

pub data FrameError : Type 0 where
  too_short payload_too_large : FrameError
  unknown_cmd : ℕ → FrameError
  header_len_mismatch : FrameError

-- `Result<_, FrameError>`.
pub data Result {ℓ} (A : Type ℓ) : Type ℓ where
  ok : A → Result A
  err : FrameError → Result A

-- The six stores into the zeroed buffer, in the source's order.
unfoldable pub fill_report : HidFrame → List ℕ
fill_report f =
    let buf0 : List ℕ = replicate hid_report_len 0 in
    let buf1 = copy_at 0 (f.report_id ∷ []) buf0 in
    let buf2 = copy_at 1 (cmd_byte f.cmd ∷ []) buf1 in
    let buf3 = copy_at 2 (to_le_bytes 2 f.sid) buf2 in
    let buf4 = copy_at 4 (to_le_bytes 2 (length f.payload % 2 ^ 16)) buf3 in
    copy_at hid_header_size f.payload buf4

-- `HidFrame::encode`.
unfoldable pub encode : HidFrame → Result (List ℕ)
unfolding fill_report
encode f =
    if ltb hid_max_payload (length f.payload) then err payload_too_large else ok (fill_report f)

-- What `decode` does once the command is known.
decode_body : List ℕ → Cmd → Result HidFrame
decode_body bytes c =
    let len = from_le_bytes (get_or bytes 4 0 ∷ get_or bytes 5 0 ∷ []) in
    if ltb (length bytes) (hid_header_size + len)
    then err header_len_mismatch
    else ok (record {
      report_id = get_or bytes 0 0;
      cmd = c;
      sid = from_le_bytes (get_or bytes 2 0 ∷ get_or bytes 3 0 ∷ []);
      payload = slice hid_header_size (hid_header_size + len) bytes;
    })

-- `HidFrame::decode`. The default of `get_or` is never read: there are six bytes at least.
unfoldable pub decode : List ℕ → Result HidFrame
unfolding decode_body
decode bytes =
    if ltb (length bytes) hid_header_size
    then err too_short
    else elim (from_u8 (get_or bytes 1 0)) [
      | none ↦ err (unknown_cmd (get_or bytes 1 0))
      | some c ↦ decode_body bytes c
    ]

unfoldable pub build_board_to_host : Cmd → ℕ → List ℕ → Result HidFrame
build_board_to_host cmd sid payload =
    if ltb hid_max_payload (length payload)
    then err payload_too_large
    else ok (record { report_id = report_id_host_bound; cmd = cmd; sid = sid; payload = payload })
