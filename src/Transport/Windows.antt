-- ===== src/Transport/Windows.antt =====
-- crates/vb-transport/src/windows.rs: the HID transport over Windows files, and the one that opens
-- the device again after an error. Windows' calls and the list of its devices are a record over the
-- state of the world. No lock is poisoned, since no thread panics while it holds one.
pub mod Device
pub mod Handles
pub mod Reopen
use vibe_bridge.Base.{
  ℕ, zero, suc, ◌+◌, ◌-◌, ◌*◌, ◌^◌, min, Bool, true, false, ◌&&◌, ◌||◌, not, List, [], ◌∷◌, ◌++◌,
  Text, codes, Option, none, some, length, take, drop, is_empty, text_eq, trim, to_ascii_lowercase,
  in_range, ◌==◌, ltb, if◌then◌else◌,
}
use vibe_bridge.Core.Terminal.{starts_with}
use vibe_bridge.Protocol.{report_id_device_bound}
use vibe_bridge.Protocol.Codec.{HidFrame, FrameError, Result, encode, decode}
use vibe_bridge.Transport.{HidMessage, TransportError}
use vibe_bridge.Cli.Args.{decimal}
use vibe_bridge.Daemon.Hex.{hex_encode}

abbrev pub hid_write_timeout : ℕ
hid_write_timeout = 1500

abbrev pub error_io_pending : ℕ
error_io_pending = 997

abbrev pub error_operation_aborted : ℕ
error_operation_aborted = 995

abbrev pub wait_object_0 : ℕ
wait_object_0 = 0

abbrev pub wait_timeout : ℕ
wait_timeout = 258

pub data Outcome {ℓ} (A : Type ℓ) : Type ℓ where
  ok : A → Outcome A
  err : TransportError → Outcome A

-- The calls of Windows: their answers, and the world after them. `create_file` has no answer for
-- INVALID_HANDLE_VALUE; a read fills `buffer`; `transferred` is the count that a call stored; the
-- paths are those that the device list gives, and the path in the environment is the variable's.
pub record Calls (W : Type 0) : Type 0 where
  pub create_file : Text → W → Option ℕ × W
  pub last_error : W → ℕ
  pub create_event : W → Bool × W
  pub write_file : ℕ → List ℕ → W → Bool × W
  pub read_file : ℕ → W → Bool × W
  pub wait : ℕ → W → ℕ × W
  pub cancel_io : W → W
  pub overlapped_result : Bool → W → Bool × W
  pub transferred : W → ℕ
  pub buffer : W → List ℕ
  pub close_event : W → W
  pub close_handle : ℕ → W → W
  pub env_device : W → Option Text
  pub hid_paths : W → Outcome (List Text) × W

-- `Display` of a frame's error.
unfoldable pub frame_message : FrameError → Text
unfolding hex_encode
frame_message FrameError.too_short = codes "frame shorter than HID header"
frame_message FrameError.payload_too_large = codes "payload exceeds HID_MAX_PAYLOAD (58)"
frame_message (FrameError.unknown_cmd c) = codes "unknown command byte: 0x" ++ hex_encode (c ∷ [])
frame_message FrameError.header_len_mismatch = codes "header length exceeds frame size"

unfoldable pub last_error_code : Text → ℕ → TransportError
last_error_code context code =
    TransportError.io (context ++ codes " failed with Win32 error " ++ decimal code)

abbrev pub opened_event {ℓ} :
    {W : Type 0} {A : Type ℓ} → Calls W → (W → Outcome A × W) → W → Outcome A × W
opened_event os body w =
    let (made, w1) = os.create_event w in
    let (result, w2) = body w1 in
    if made
    then (result, os.close_event w2)
    else (err (last_error_code (codes "CreateEventW") (os.last_error w1)), w1)

abbrev pub duration_to_ms : ℕ → ℕ
duration_to_ms ms = min ms (2 ^ 32 - 1)

module _ {W : Type 0} (os : Calls W) where
  -- The wait for a write that is pending, and whether it ended well.
  unfoldable pub wait_written : W → Option TransportError × W
  unfolding last_error_code
  wait_written w =
      let (waited, w1) = os.wait (duration_to_ms hid_write_timeout) w in
      let (finished, w2) = os.overlapped_result false w1 in
      if waited == wait_timeout
      then (some TransportError.timeout, (os.overlapped_result true (os.cancel_io w1)).1)
      else if not (waited == wait_object_0)
      then (
        some (last_error_code (codes "WaitForSingleObject") (os.last_error (os.cancel_io w1))),
        os.cancel_io w1,
      )
      else if finished
      then (none, w2)
      else (some (last_error_code (codes "GetOverlappedResult") (os.last_error w2)), w2)

  -- `WriteFile`, at once or pending.
  unfoldable pub write_report : ℕ → List ℕ → W → Option TransportError × W
  unfolding wait_written
  write_report handle raw w =
      let (at_once, w1) = os.write_file handle raw w in
      if at_once
      then (none, w1)
      else if os.last_error w1 == error_io_pending
      then wait_written w1
      else (some (last_error_code (codes "WriteFile") (os.last_error w1)), w1)

  -- A write of fewer bytes is an error.
  unfoldable pub whole_write : ℕ → Option TransportError × W → Outcome (Unit {0}) × W
  whole_write expected (some e, w) = (err e, w)
  whole_write expected (none, w) = if os.transferred w == expected then (ok tt, w) else (
    err (
        TransportError.io
          (codes "short HID write: " ++ decimal (os.transferred w) ++ b'/' ∷ decimal expected)),
    w,
  )

  unfoldable pub send_raw : Result (List ℕ) → ℕ → W → Outcome (Unit {0}) × W
  unfolding frame_message whole_write write_report
  send_raw (Result.err e) handle w = (err (TransportError.decode (frame_message e)), w)
  send_raw (Result.ok raw) handle w =
      opened_event os (λ w1. whole_write (length raw) (write_report handle raw w1)) w

  -- `WinHidTransport::send`.
  unfoldable pub send : HidMessage → ℕ → W → Outcome (Unit {0}) × W
  unfolding send_raw encode
  send msg handle w =
      send_raw
        (encode (record {
          report_id = report_id_device_bound;
          cmd = msg.cmd;
          sid = msg.sid;
          payload = msg.payload;
        }))
        handle w

  -- A read: whether a report came, none by the time, or an error.
  unfoldable pub wait_read : ℕ → W → Outcome Bool × W
  unfolding last_error_code
  wait_read ms w =
      let (waited, w1) = os.wait (duration_to_ms ms) w in
      let (finished, w2) = os.overlapped_result false w1 in
      if waited == wait_timeout
      then (ok false, (os.overlapped_result true (os.cancel_io w1)).1)
      else if not (waited == wait_object_0)
      then (
        err (last_error_code (codes "WaitForSingleObject") (os.last_error (os.cancel_io w1))),
        os.cancel_io w1,
      )
      else if finished
      then (ok true, w2)
      else if os.last_error w2 == error_operation_aborted
      then (ok false, w2)
      else (err (last_error_code (codes "GetOverlappedResult") (os.last_error w2)), w2)

  unfoldable pub read_report : ℕ → ℕ → W → Outcome Bool × W
  unfolding wait_read
  read_report ms handle w =
      let (at_once, w1) = os.read_file handle w in
      if at_once
      then (ok true, w1)
      else if os.last_error w1 == error_io_pending
      then wait_read ms w1
      else (err (last_error_code (codes "ReadFile") (os.last_error w1)), w1)

  unfoldable pub message_read : Result HidFrame → Outcome (Option HidMessage)
  unfolding frame_message
  message_read (Result.err e) = err (TransportError.decode (frame_message e))
  message_read (Result.ok f) = ok (some (record { cmd = f.cmd; sid = f.sid; payload = f.payload }))

  unfoldable pub decode_read : Outcome Bool × W → Outcome (Option HidMessage) × W
  unfolding message_read decode
  decode_read (err e, w) = (err e, w)
  decode_read (ok false, w) = (ok none, w)
  decode_read (ok true, w) = (message_read (decode (os.buffer w)), w)

  -- `WinHidTransport::recv_timeout`.
  unfoldable pub recv_timeout : ℕ → ℕ → W → Outcome (Option HidMessage) × W
  unfolding decode_read read_report
  recv_timeout ms handle w = opened_event os (λ w1. decode_read (read_report ms handle w1)) w

  unfoldable pub or_timeout : Outcome (Option HidMessage) → Outcome HidMessage
  or_timeout (err e) = err e
  or_timeout (ok none) = err TransportError.timeout
  or_timeout (ok (some msg)) = ok msg

  -- `WinHidTransport::recv`.
  unfoldable pub recv : ℕ → W → Outcome HidMessage × W
  unfolding or_timeout recv_timeout
  recv handle w = let (read, w1) = recv_timeout (2 ^ 32 - 1) handle w in (or_timeout read, w1)

  -- `WinHidTransport::open`.
  unfoldable pub opened : Option ℕ × W → Outcome ℕ × W
  unfolding last_error_code
  opened (none, w) = (err (last_error_code (codes "CreateFileW") (os.last_error w)), w)
  opened (some handle, w) = (ok handle, w)

  abbrev pub open_path : Text → W → Outcome ℕ × W
  open_path path w = opened (os.create_file path w)
