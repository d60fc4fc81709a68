-- ===== src/Transport/Windows/Handles.antt =====
-- The handles of files and events in crates/vb-transport/src/windows.rs: what `WinHidTransport` and
-- opening a device make of their number.
use vibe_bridge.Base.{
  ℕ, ◌≡◌, ◌+◌, ◌-◌, refl, ap, ◌∙◌, Bool, true, false, Bool-cases, inl, inr, List, Text, Option,
  none, some, text_eq, trim, is_empty, arith, length, codes, ◌^◌,
}
use vibe_bridge.Protocol.Codec.{Result}
use vibe_bridge.Transport.{HidMessage, TransportError}
use vibe_bridge.Transport.Windows.{
  Calls, Outcome, ok, err, duration_to_ms, hid_write_timeout, opened_event, wait_written,
  write_report, whole_write, send_raw, send, wait_read, read_report, decode_read, recv_timeout,
  recv, opened,
}
use vibe_bridge.Transport.Windows.Device.{
  found_device, env_or_list, resolve_win_hid_device, open_found, open_device,
}

abbrev pub one_if : Bool → ℕ
one_if true = 1
one_if false = 0

-- One handle for one that is there.
abbrev pub held : Option ℕ → ℕ
held none = 0
held (some handle) = 1

-- How the calls change the number of open handles: a file or an event that is made is one more, and
-- closing takes one away; the other calls leave it.
pub record Counts {W : Type 0} (os : Calls W) (live : W → ℕ) : Type 0 where
  pub create_file :
      (path : Text) (w : W)
      → live (os.create_file path w).1 ≡ live w + held (os.create_file path w).0
  pub create_event : (w : W) → live (os.create_event w).1 ≡ live w + one_if (os.create_event w).0
  pub close_event : (w : W) → live (os.close_event w) ≡ live w - 1
  pub close_handle : (handle : ℕ) (w : W) → live (os.close_handle handle w) ≡ live w - 1
  pub write_file :
      (handle : ℕ) (raw : List ℕ) (w : W) → live (os.write_file handle raw w).1 ≡ live w
  pub read_file : (handle : ℕ) (w : W) → live (os.read_file handle w).1 ≡ live w
  pub wait : (ms : ℕ) (w : W) → live (os.wait ms w).1 ≡ live w
  pub cancel_io : (w : W) → live (os.cancel_io w) ≡ live w
  pub overlapped_result : (wait : Bool) (w : W) → live (os.overlapped_result wait w).1 ≡ live w
  pub hid_paths : (w : W) → live (os.hid_paths w).1 ≡ live w

module _ {W : Type 0} (os : Calls W) (live : W → ℕ) (c : Counts os live) where
  live-opened_event :
      {A : Type 0} (body : W → Outcome A × W) (w : W)
      → ((w1 : W) → live (body w1).1 ≡ live w1)
      → live (opened_event os body w).1 ≡ live w
  live-opened_event body w keeps =
      let one = c.create_event w in
      let two = keeps (os.create_event w).1 in
      let three = c.close_event (body (os.create_event w).1).1 in
      elim (Bool-cases (os.create_event w).0) [
        | inl made ↦ let more = rw made at one in rw made (omega (arith, more, two, three))
        | inr failed ↦ let same = rw failed at one in rw failed (omega (arith, same))
      ]

  live-wait_written : (w : W) → live (wait_written os w).1 ≡ live w
  unfolding wait_written
  live-wait_written w =
      let ms = duration_to_ms hid_write_timeout in
      let w1 = (os.wait ms w).1 in
      ground (
        arith,
        c.wait ms w,
        c.cancel_io w1,
        c.overlapped_result false w1,
        c.overlapped_result true (os.cancel_io w1),
      )

  live-write_report :
      (handle : ℕ) (raw : List ℕ) (w : W) → live (write_report os handle raw w).1 ≡ live w
  unfolding write_report
  live-write_report handle raw w =
      ground (arith, c.write_file handle raw w, live-wait_written (os.write_file handle raw w).1)

  live-whole_write :
      (expected : ℕ) (written : Option TransportError × W)
      → live (whole_write os expected written).1 ≡ live written.1
  unfolding whole_write
  live-whole_write expected (some e, w) = refl
  live-whole_write expected (none, w) = ground arith

  live-send_raw :
      (raw : Result (List ℕ)) (handle : ℕ) (w : W) → live (send_raw os raw handle w).1 ≡ live w
  unfolding send_raw
  live-send_raw (Result.err e) handle w = refl
  live-send_raw (Result.ok raw) handle w =
      live-opened_event (λ w1. whole_write os (length raw) (write_report os handle raw w1)) w
        (λ w1.
          live-whole_write (length raw) (write_report os handle raw w1)
          ∙ live-write_report handle raw w1)

  pub live-send : (msg : HidMessage) (handle : ℕ) (w : W) → live (send os msg handle w).1 ≡ live w
  unfolding send
  live-send msg handle w = live-send_raw _ handle w

  live-wait_read : (ms : ℕ) (w : W) → live (wait_read os ms w).1 ≡ live w
  unfolding wait_read
  live-wait_read ms w =
      let w1 = (os.wait (duration_to_ms ms) w).1 in
      ground (
        arith,
        c.wait (duration_to_ms ms) w,
        c.cancel_io w1,
        c.overlapped_result false w1,
        c.overlapped_result true (os.cancel_io w1),
      )

  live-read_report : (ms handle : ℕ) (w : W) → live (read_report os ms handle w).1 ≡ live w
  unfolding read_report
  live-read_report ms handle w =
      ground (arith, c.read_file handle w, live-wait_read ms (os.read_file handle w).1)

  live-decode_read : (read : Outcome Bool × W) → live (decode_read os read).1 ≡ live read.1
  unfolding decode_read
  live-decode_read (err e, w) = refl
  live-decode_read (ok false, w) = refl
  live-decode_read (ok true, w) = refl

  pub live-recv : (handle : ℕ) (w : W) → live (recv os handle w).1 ≡ live w
  unfolding recv recv_timeout
  live-recv handle w =
      live-opened_event (λ w1. decode_read os (read_report os (2 ^ 32 - 1) handle w1)) w
        (λ w1.
          live-decode_read (read_report os (2 ^ 32 - 1) handle w1)
          ∙ live-read_report (2 ^ 32 - 1) handle w1)

  -- An opening makes one handle, if it succeeds.
  abbrev pub Opens : W → Outcome ℕ × W → Type 0
  Opens w (ok handle, w1) = live w1 ≡ live w + 1
  Opens w (err e, w1) = live w1 ≡ live w

  opened-Opens :
      (w : W) (made : Option ℕ × W) → live made.1 ≡ live w + held made.0 → Opens w (opened os made)
  unfolding opened
  opened-Opens w (none, w1) h = omega (arith, h)
  opened-Opens w (some handle, w1) h = h

  open_found-Opens :
      (w : W) (found : Outcome (Option Text) × W)
      → live found.1 ≡ live w
      → Opens w (open_found os found)
  unfolding open_found
  open_found-Opens w (err e, w1) h = h
  open_found-Opens w (ok none, w1) h = h
  open_found-Opens w (ok (some path), w1) h =
      opened-Opens w (os.create_file path w1)
        (c.create_file path w1 ∙ ap (λ n. n + held (os.create_file path w1).0) h)

  live-found_device :
      (paths : Outcome (List Text) × W) → live (found_device os paths).1 ≡ live paths.1
  unfolding found_device
  live-found_device (err e, w) = refl
  live-found_device (ok paths, w) = refl

  live-env_or_list : (env : Option Text) (w : W) → live (env_or_list os env w).1 ≡ live w
  unfolding env_or_list
  live-env_or_list none w = live-found_device (os.hid_paths w) ∙ c.hid_paths w
  live-env_or_list (some path) w = elim (Bool-cases (is_empty (trim path))) [
    | inl blank ↦ rw blank (live-found_device (os.hid_paths w) ∙ c.hid_paths w)
    | inr given ↦ rw given refl
  ]

  pub open_device-Opens : (device : Text) (w : W) → Opens w (open_device os device w)
  unfolding open_device
  open_device-Opens device w = elim (Bool-cases (text_eq device (codes "auto"))) [
    | inl auto ↦
        rw auto
          (open_found-Opens w (resolve_win_hid_device os w) (live-env_or_list (os.env_device w) w))
    | inr named ↦ rw named (opened-Opens w (os.create_file device w) (c.create_file device w))
  ]
