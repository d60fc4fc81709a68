-- ===== src/Daemon/Outbox/Delivery.antt =====
-- What `flush_board_outbox` of crates/vb-daemon/src/lib.rs delivers.
use vibe_bridge.Base.{
  ◌≡◌, refl, sym, ap, ◌⊎◌, inl, inr, true, List, [], ◌∷◌, ◌++◌, Option, none, some, map,
  append_assoc,
}
use vibe_bridge.Protocol.Codec.{HidFrame}
use vibe_bridge.Protocol.Split.{split_host_to_board}
use vibe_bridge.Transport.{HidMessage, HidTransport, TransportError}
use vibe_bridge.Daemon.State.{BridgeDaemon}
use vibe_bridge.Daemon.Outbox.{
  Sent, message_of, after_send, after_message, send_frames, flush_loop, flush_board_outbox,
}

-- The sends that make up one message, and those of a list of messages.
abbrev pub sends : HidMessage → List HidMessage
sends msg = map message_of (split_host_to_board msg.cmd msg.sid msg.payload)

abbrev pub sends_all : List HidMessage → List HidMessage
sends_all [] = []
sends_all (msg ∷ msgs) = sends msg ++ sends_all msgs

-- A run of sends is complete, or it stopped at an error before one of them.
abbrev pub Complete : List HidMessage → List HidMessage → Option TransportError → Type 0
Complete all log failed =
    ((failed ≡ none) × (log ≡ all))
    ⊎ ((e : TransportError) × (next : HidMessage) × (later : List HidMessage) × (failed ≡ some e)
        × (all ≡ log ++ (next ∷ later)))

-- How a flush ends: the outbox is empty and all is sent, or the transport failed within the sends of
-- the first message that is left.
abbrev pub Ending : List HidMessage → List HidMessage → Option TransportError → Type 0
Ending left partial failed =
    ((failed ≡ none) × (left ≡ []) × (partial ≡ []))
    ⊎ ((e : TransportError) × (msg : HidMessage) × (rest : List HidMessage) × (next : HidMessage)
        × (later : List HidMessage) × (failed ≡ some e)
        × (left ≡ msg ∷ rest)
        × (sends msg ≡ partial ++ (next ∷ later)))

-- The messages `done` left the outbox and were sent whole and in order; after them a part of the
-- next one may have been sent.
pub record Delivered (outbox left log : List HidMessage) (failed : Option TransportError)
    : Type 0 where
  pub done : List HidMessage
  pub partial : List HidMessage
  pub outbox_eq : outbox ≡ done ++ left
  pub log_eq : log ≡ sends_all done ++ partial
  pub ending : Ending left partial failed

after_send-Complete :
    {W : Type 0} (answer : Option TransportError) (w : W) (m : HidMessage) (rest : Sent W)
    (all : List HidMessage)
    → Complete all rest.log rest.failed
    → Complete (m ∷ all) (after_send answer w m rest).log (after_send answer w m rest).failed
unfolding after_send
after_send-Complete (some e) w m rest all c = inr (e, m, all, refl, refl)
after_send-Complete none w m rest all (inl (fine, log)) = inl (fine, ap (◌∷◌ m) log)
after_send-Complete none w m rest all (inr (e, next, later, stopped, log)) =
    inr (e, next, later, stopped, ap (◌∷◌ m) log)

-- A message that failed stays, with what comes after it.
after_message-Delivered :
    {W : Type 0} (failed : Option TransportError) (msg : HidMessage) (outbox : List HidMessage)
    (sent : Sent W) (rest : List HidMessage × Sent W)
    → failed ≡ sent.failed
    → Complete (sends msg) sent.log sent.failed
    → Delivered outbox rest.0 rest.1.log rest.1.failed
    → let r = after_message failed msg outbox sent rest in
      Delivered (msg ∷ outbox) r.0 r.1.log r.1.failed
unfolding after_message
after_message-Delivered (some e) msg outbox sent rest eq (inl (fine, log)) d = cc
after_message-Delivered (some e) msg outbox sent rest eq (inr (e', next, later, stopped, log)) d =
    record {
      done = [];
      partial = sent.log;
      outbox_eq = refl;
      log_eq = refl;
      ending = inr (e', msg, outbox, next, later, stopped, refl, log);
    }
after_message-Delivered none msg outbox sent rest eq (inl (fine, log)) d = record {
  done = msg ∷ d.done;
  partial = d.partial;
  outbox_eq = ap (◌∷◌ msg) d.outbox_eq;
  log_eq = rw (log, d.log_eq) (sym (append_assoc (sends msg) (sends_all d.done) d.partial));
  ending = d.ending;
}
after_message-Delivered none msg outbox sent rest eq (inr (e, next, later, stopped, log)) d = cc

module _ {W : Type 0} (hid : HidTransport W) where
  send_frames-Complete :
      (fs : List HidFrame) (w : W)
      → Complete (map message_of fs) (send_frames hid fs w).log (send_frames hid fs w).failed
  unfolding send_frames
  send_frames-Complete [] w = inl (refl, refl)
  send_frames-Complete (f ∷ fs) w =
      after_send-Complete _ _ (message_of f) _ (map message_of fs)
        (send_frames-Complete fs (hid.send (message_of f) w).1)

  flush_loop-Delivered :
      (outbox : List HidMessage) (w : W)
      → Delivered outbox
          (flush_loop hid outbox w).0
          (flush_loop hid outbox w).1.log
          (flush_loop hid outbox w).1.failed
  unfolding flush_loop
  flush_loop-Delivered [] w = record {
    done = [];
    partial = [];
    outbox_eq = refl;
    log_eq = refl;
    ending = inl (refl, refl, refl);
  }
  flush_loop-Delivered (msg ∷ outbox) w =
      let sent = send_frames hid (split_host_to_board msg.cmd msg.sid msg.payload) w in
      after_message-Delivered _ msg outbox sent (flush_loop hid outbox sent.world) refl
        (send_frames-Complete (split_host_to_board msg.cmd msg.sid msg.payload) w)
        (flush_loop-Delivered outbox sent.world)

  -- Over any connected transport, a flush sends the messages whole and in order up to the first
  -- failure. Then the message that failed and all behind it are still in the outbox; without a
  -- failure the outbox is empty. Nothing else of the daemon changes.
  pub flush-Delivered :
      (d : BridgeDaemon) (w : W)
      → hid.is_connected w ≡ true
      → let (d', sent) = flush_board_outbox hid d w in
        Delivered d.board_outbox d'.board_outbox sent.log sent.failed
        × (d' ≡ record d { board_outbox = d'.board_outbox })
  unfolding flush_board_outbox
  flush-Delivered d w up = rw up (flush_loop-Delivered d.board_outbox w, refl)
