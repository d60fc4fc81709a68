-- ===== src/Transport/Windows/Reopen.antt =====
-- crates/vb-transport/src/windows.rs: `ReopenWinHidTransport`, which opens its device when it has
-- none and once more after an error. A transport that is given up is dropped, which closes its file,
-- when the operation on it has returned; no other operation runs on it.
pub mod Recovery
pub mod Handles
use vibe_bridge.Base.{ℕ, zero, suc, Bool, true, false, not, Text, Option, none, some, ◌==◌}
use vibe_bridge.Transport.{HidMessage, HidTransport, TransportError}
use vibe_bridge.Transport.Windows.{Calls, Outcome, ok, err, send, recv}
use vibe_bridge.Transport.Windows.Device.{open_device}

-- `inner`, and the world.
pub record Reopen (W : Type 0) : Type 0 where
  pub inner : Option ℕ
  pub world : W

-- `ReopenWinHidTransport::open_lazy`.
abbrev pub open_lazy : {W : Type 0} → W → Reopen W
open_lazy w = record { inner = none; world = w }

-- `WinHidTransport::is_connected`: the handle is not null, and an invalid one is never kept.
abbrev pub handle_is_connected : ℕ → Bool
handle_is_connected handle = not (handle == 0)

abbrev pub is_connected : {W : Type 0} → Reopen W → Bool
is_connected s = elim s.inner [ none ↦ false | some handle ↦ handle_is_connected handle ]

module _ {W : Type 0} (os : Calls W) (device : Text) where
  unfoldable pub now_open : Outcome ℕ × W → Outcome ℕ × Reopen W
  now_open (ok handle, w) = (ok handle, record { inner = some handle; world = w })
  now_open (err e, w) = (err e, record { inner = none; world = w })

  -- The handle of `inner`, opened if there is none.
  unfoldable pub ensure : Option ℕ → W → Outcome ℕ × Reopen W
  unfolding now_open open_device
  ensure (some handle) w = (ok handle, record { inner = some handle; world = w })
  ensure none w = now_open (open_device os device w)

  module _ {R : Type 0} (op : ℕ → W → Outcome R × W) where
    -- The operation's answer, with the number of attempts left and what they do: after an error the
    -- handle is given up, and the last error is the answer.
    unfoldable pub answered :
        ℕ → (Reopen W → Outcome R × Reopen W) → ℕ → Outcome R × W → Outcome R × Reopen W
    answered left again handle (ok value, w) = (ok value, record { inner = some handle; world = w })
    answered zero again handle (err e, w) =
        (err e, record { inner = none; world = os.close_handle handle w })
    answered (suc left) again handle (err e, w) =
        again (record { inner = none; world = os.close_handle handle w })

    -- A device that cannot be opened ends the loop.
    unfoldable pub on_handle :
        ℕ → (Reopen W → Outcome R × Reopen W) → Outcome ℕ × Reopen W → Outcome R × Reopen W
    unfolding answered
    on_handle left again (err e, s) = (err e, s)
    on_handle left again (ok handle, s) = answered left again handle (op handle s.world)

    unfoldable pub attempts : ℕ → Reopen W → Outcome R × Reopen W
    unfolding on_handle ensure
    attempts zero s = (err TransportError.not_connected, s)
    attempts (suc left) s = on_handle left (attempts left) (ensure s.inner s.world)

    -- `with_transport`: two attempts.
    unfoldable pub with_transport : Reopen W → Outcome R × Reopen W
    unfolding attempts
    with_transport s = attempts 2 s

  abbrev pub failure_of : Outcome (Unit {0}) → Option TransportError
  failure_of (ok done) = none
  failure_of (err e) = some e

  unfoldable pub reopen_send : HidMessage → Reopen W → Option TransportError × Reopen W
  unfolding with_transport send
  reopen_send msg s =
      let (result, after) = with_transport (send os msg) s in (failure_of result, after)

  -- An error gives the handle up once more.
  unfoldable pub received : Outcome HidMessage × Reopen W → Outcome HidMessage × Reopen W
  received (ok msg, s) = (ok msg, s)
  received (err e, s) = (err e, record s { inner = none })

  unfoldable pub reopen_recv : Reopen W → Outcome HidMessage × Reopen W
  unfolding received with_transport recv
  reopen_recv s = received (with_transport (recv os) s)

  -- The `HidTransport` that the daemon runs on.
  abbrev pub reopen_hid : HidTransport (Reopen W)
  reopen_hid = record { is_connected = is_connected; send = reopen_send }
