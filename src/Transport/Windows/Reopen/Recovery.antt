-- ===== src/Transport/Windows/Reopen/Recovery.antt =====
-- How `ReopenWinHidTransport` of crates/vb-transport/src/windows.rs goes on after an error, and the
-- flush of crates/vb-daemon/src/lib.rs over it.
use vibe_bridge.Base.{
  ℕ, zero, suc, ◌≡◌, refl, false, Bool-cases, inl, inr, List, [], ◌∷◌, Text, Option, none, some,
}
use vibe_bridge.Protocol.Codec.{HidFrame}
use vibe_bridge.Protocol.Split.{split_host_to_board}
use vibe_bridge.Transport.{HidMessage, HidTransport, TransportError}
use vibe_bridge.Transport.Windows.{Calls, Outcome, ok, err, send}
use vibe_bridge.Transport.Windows.Device.{open_device}
use vibe_bridge.Transport.Windows.Reopen.{
  Reopen, is_connected, now_open, ensure, answered, on_handle, attempts, with_transport, failure_of,
  reopen_send, reopen_hid,
}
use vibe_bridge.Daemon.State.{BridgeDaemon}
use vibe_bridge.Daemon.Outbox.{
  Sent, message_of, after_send, after_message, send_frames, flush_loop, flush_board_outbox,
}

-- A handle is kept after a success, and given up after an error.
abbrev pub Kept : {W R : Type 0} → Outcome R × Reopen W → Type 0
Kept (ok value, s) = (handle : ℕ) × (s.inner ≡ some handle)
Kept (err e, s) = s.inner ≡ none

module _ {W : Type 0} (os : Calls W) (device : Text) {R : Type 0} (op : ℕ → W → Outcome R × W) where
  answered-Kept :
      (left : ℕ) (again : Reopen W → Outcome R × Reopen W) (handle : ℕ) (answer : Outcome R × W)
      → ((s : Reopen W) → s.inner ≡ none → Kept (again s))
      → Kept (answered os device op left again handle answer)
  unfolding answered
  answered-Kept left again handle (ok value, w) h = (handle, refl)
  answered-Kept zero again handle (err e, w) h = refl
  answered-Kept (suc left) again handle (err e, w) h = h _ refl

  on_handle-Kept :
      (left : ℕ) (again : Reopen W → Outcome R × Reopen W) (start : Outcome ℕ × Reopen W)
      → Kept start
      → ((s : Reopen W) → s.inner ≡ none → Kept (again s))
      → Kept (on_handle os device op left again start)
  unfolding on_handle
  on_handle-Kept left again (ok handle, s) k h =
      answered-Kept left again handle (op handle s.world) h
  on_handle-Kept left again (err e, s) k h = k

  now_open-Kept : (answer : Outcome ℕ × W) → Kept (now_open os device answer)
  unfolding now_open
  now_open-Kept (ok handle, w) = (handle, refl)
  now_open-Kept (err e, w) = refl

  ensure-Kept : (inner : Option ℕ) (w : W) → Kept (ensure os device inner w)
  unfolding ensure
  ensure-Kept none w = now_open-Kept (open_device os device w)
  ensure-Kept (some handle) w = (handle, refl)

  attempts-Kept : (left : ℕ) (s : Reopen W) → s.inner ≡ none → Kept (attempts os device op left s)
  unfolding attempts
  attempts-Kept zero s h = h
  attempts-Kept (suc left) s h =
      on_handle-Kept left (attempts os device op left) (ensure os device s.inner s.world)
        (ensure-Kept s.inner s.world) (attempts-Kept left)

  pub with_transport-Kept : (s : Reopen W) → Kept (with_transport os device op s)
  unfolding with_transport attempts
  with_transport-Kept s =
      on_handle-Kept 1 (attempts os device op 1) (ensure os device s.inner s.world)
        (ensure-Kept s.inner s.world) (attempts-Kept 1)

-- After an error of a send the transport is not connected.
send-Drops :
    {W : Type 0} (os : Calls W) (device : Text) (answer : Outcome (Unit {0}) × Reopen W)
    (e : TransportError)
    → Kept answer
    → failure_of os device answer.0 ≡ some e
    → is_connected answer.1 ≡ false
send-Drops os device (ok done, s) e k h = absurd (cc h)
send-Drops os device (err error, s) e k h = rw k refl

-- The law that the daemon's flush is used with: an error of `send` leaves the transport unconnected.
abbrev pub Drops : {W : Type 0} → HidTransport W → Type 0
Drops {W} hid =
    (msg : HidMessage) (w : W) (e : TransportError)
    → (hid.send msg w).0 ≡ some e
    → hid.is_connected (hid.send msg w).1 ≡ false

pub reopen_hid-Drops : {W : Type 0} (os : Calls W) (device : Text) → Drops (reopen_hid os device)
unfolding reopen_send
reopen_hid-Drops os device msg s e h =
    send-Drops os device (with_transport os device (send os msg) s) e
      (with_transport-Kept os device (send os msg) s) h

module _ {W : Type 0} (hid : HidTransport W) (drops : Drops hid) where
  -- What a run of sends leaves, when it ended with an error.
  abbrev Down : Sent W → Type 0
  Down sent = (e : TransportError) → sent.failed ≡ some e → hid.is_connected sent.world ≡ false

  after_send-Down :
      (answer : Option TransportError) (w : W) (msg : HidMessage) (rest : Sent W)
      → ((e : TransportError) → answer ≡ some e → hid.is_connected w ≡ false)
      → Down rest
      → Down (after_send answer w msg rest)
  unfolding after_send
  after_send-Down (some e) w msg rest h more e' same = h e refl
  after_send-Down none w msg rest h more e' same = more e' same

  send_frames-Down : (frames : List HidFrame) (w : W) → Down (send_frames hid frames w)
  unfolding send_frames
  send_frames-Down [] w = λ e same. absurd (cc same)
  send_frames-Down (f ∷ frames) w =
      after_send-Down (hid.send (message_of f) w).0 (hid.send (message_of f) w).1 (message_of f)
        (send_frames hid frames (hid.send (message_of f) w).1)
        (λ e same. drops (message_of f) w e same)
        (send_frames-Down frames (hid.send (message_of f) w).1)

  after_message-Down :
      (failed : Option TransportError) (msg : HidMessage) (outbox : List HidMessage) (sent : Sent W)
      (rest : List HidMessage × Sent W)
      → Down sent
      → Down rest.1
      → failed ≡ sent.failed
      → Down (after_message failed msg outbox sent rest).1
  unfolding after_message
  after_message-Down (some e) msg outbox sent rest h more same = h
  after_message-Down none msg outbox sent rest h more same = more

  flush_loop-Down : (outbox : List HidMessage) (w : W) → Down (flush_loop hid outbox w).1
  unfolding flush_loop
  flush_loop-Down [] w = λ e same. absurd (cc same)
  flush_loop-Down (msg ∷ outbox) w =
      let sent = send_frames hid (split_host_to_board msg.cmd msg.sid msg.payload) w in
      after_message-Down sent.failed msg outbox sent (flush_loop hid outbox sent.world)
        (send_frames-Down (split_host_to_board msg.cmd msg.sid msg.payload) w)
        (flush_loop-Down outbox sent.world) refl

  -- After a flush that ended with an error, another flush leaves the outbox and the device alone.
  pub flush-after_error :
      (d : BridgeDaemon) (w : W) (e : TransportError)
      → (flush_board_outbox hid d w).1.failed ≡ some e
      → (let after = flush_board_outbox hid d w in
          flush_board_outbox hid after.0 after.1.world
          ≡ (after.0, record { log = []; world = after.1.world; failed = none }))
  unfolding flush_board_outbox
  flush-after_error d w e failed = elim (Bool-cases (hid.is_connected w)) [
    | inl connected ↦
        let down = flush_loop-Down d.board_outbox w e (rw connected at failed) in
        rw (connected, down) refl
    | inr unconnected ↦ rw (unconnected, unconnected) refl
  ]

-- On the reopening transport, after a flush that ended with an error, flushes leave the outbox and
-- the device alone until a receive has opened the device again.
pub flush_reopen-after_error :
    {W : Type 0} (os : Calls W) (device : Text) (d : BridgeDaemon) (s : Reopen W)
    (e : TransportError)
    → (flush_board_outbox (reopen_hid os device) d s).1.failed ≡ some e
    → (let after = flush_board_outbox (reopen_hid os device) d s in
        flush_board_outbox (reopen_hid os device) after.0 after.1.world
        ≡ (after.0, record { log = []; world = after.1.world; failed = none }))
flush_reopen-after_error os device d s e failed =
    flush-after_error (reopen_hid os device) (reopen_hid-Drops os device) d s e failed
