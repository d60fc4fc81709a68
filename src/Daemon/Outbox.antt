-- ===== src/Daemon/Outbox.antt =====
-- crates/vb-daemon/src/lib.rs: `flush_board_outbox`, over a `HidTransport` of
-- crates/vb-transport/src/lib.rs. The trait is a record over the state of the outside world; the
-- frames that were sent are kept beside it.
pub mod Delivery
use vibe_bridge.Base.{Bool, List, [], ◌∷◌, ◌++◌, Option, none, some, if◌then◌else◌, not}
use vibe_bridge.Protocol.Codec.{HidFrame}
use vibe_bridge.Protocol.Split.{split_host_to_board}
use vibe_bridge.Transport.{HidMessage, HidTransport, TransportError}
use vibe_bridge.Daemon.State.{BridgeDaemon}

-- What a run of sends leaves: the frames that were sent, the world, and the error that ended it.
pub record Sent (W : Type 0) : Type 0 where
  pub log : List HidMessage
  pub world : W
  pub failed : Option TransportError

abbrev pub message_of : HidFrame → HidMessage
message_of f = record { cmd = f.cmd; sid = f.sid; payload = f.payload }

-- What a send makes of the frame `m` and of the sends that would follow it: an error ends the run.
unfoldable pub after_send : {W : Type 0} → Option TransportError → W → HidMessage → Sent W → Sent W
after_send (some e) w m rest = record { log = []; world = w; failed = some e }
after_send none w m rest = record rest { log = m ∷ rest.log }

-- What a message's sends make of the rest of the loop: after an error the message goes back to the
-- front of the outbox (`push_front`), and the loop returns.
unfoldable pub after_message :
    {W : Type 0}
    → Option TransportError
    → HidMessage
    → List HidMessage
    → Sent W
    → List HidMessage × Sent W
    → List HidMessage × Sent W
after_message (some e) msg outbox sent rest = (msg ∷ outbox, sent)
after_message none msg outbox sent rest = (rest.0, record rest.1 { log = sent.log ++ rest.1.log })

module _ {W : Type 0} (hid : HidTransport W) where
  unfoldable pub send_frames : List HidFrame → W → Sent W
  send_frames [] w = record { log = []; world = w; failed = none }
  send_frames (f ∷ fs) w =
      let (answer, w') = hid.send (message_of f) w in
      after_send answer w' (message_of f) (send_frames fs w')

  -- `while let Some(msg) = board_outbox.pop_front()`: what is left in the outbox, and what was sent.
  unfoldable pub flush_loop : List HidMessage → W → List HidMessage × Sent W
  flush_loop [] w = ([], record { log = []; world = w; failed = none })
  flush_loop (msg ∷ outbox) w =
      let sent = send_frames (split_host_to_board msg.cmd msg.sid msg.payload) w in
      after_message sent.failed msg outbox sent (flush_loop outbox sent.world)

  unfoldable pub flush_board_outbox : BridgeDaemon → W → BridgeDaemon × Sent W
  flush_board_outbox d w =
      let flushed = flush_loop d.board_outbox w in
      if hid.is_connected w
      then (record d { board_outbox = flushed.0 }, flushed.1)
      else (d, record { log = []; world = w; failed = none })
