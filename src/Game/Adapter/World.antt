-- ===== src/Game/Adapter/World.antt =====
-- One adapter of src/game/client_adapter.rs with its own mailbox, over any interleaving of what it
-- handles.
use fourinarow_server.Base.{ℕ, ◌⊎◌, inl, inr, Bool, true, false, ◌||◌, List, [], ◌∷◌, ◌++◌}
use fourinarow_server.Game.Message.{
  Instant, ServerMessage, ReliabilityError, ReliablePacketIn, ReliablePacketOut,
}
use fourinarow_server.Game.Adapter.{
  ClientAdapter, Effect, notify, stop, resend_queued, handle_server_message, handle_packet_out,
  handle_adapter_msg, ClientAdapterMsg, handle_packet, forward_failed,
}

-- The adapter, the packets that it has sent to itself by `ctx.notify`, whether it has stopped, and
-- the numbers that the client has acknowledged.
pub record World : Type 0 where
  pub adapter : ClientAdapter
  pub mailbox : List ReliablePacketOut
  pub stopped : Bool
  pub acked : List ℕ

-- A message of the server; the first packet of the mailbox; the interval; a line of the client, as it is
-- parsed; a forward that fails since the state of the client is gone, whose message to the client is
-- another `emit`; and a message to the adapter itself.
pub data Event : Type 0 where
  emit : ServerMessage → Event
  deliver : Instant → Event
  tick : Instant → Event
  packet : Instant → ReliabilityError ⊎ ReliablePacketIn → Event
  unreachable : Event
  control : ClientAdapterMsg → Event

unfoldable pub notified : List Effect → List ReliablePacketOut
notified [] = []
notified (notify p ∷ out) = p ∷ notified out
notified (_ ∷ out) = notified out

unfoldable pub stops : List Effect → Bool
stops [] = false
stops (stop ∷ out) = true
stops (_ ∷ out) = stops out

-- The world after a handler.
unfoldable pub settle : World → ClientAdapter × List Effect → World
settle w (a, out) = record w {
  adapter = a;
  mailbox = w.mailbox ++ notified out;
  stopped = w.stopped || stops out;
}

unfoldable pub note_ack : ReliabilityError ⊎ ReliablePacketIn → List ℕ → List ℕ
note_ack (inl e) ids = ids
note_ack (inr (ReliablePacketIn.ack id)) ids = id ∷ ids
note_ack (inr (ReliablePacketIn.msg id m)) ids = ids

unfoldable pub take_mail : Instant → List ReliablePacketOut → World → World
take_mail now [] w = w
take_mail now (p ∷ ps) w = settle (record w { mailbox = ps }) (handle_packet_out now p w.adapter)

unfoldable pub step : World → Event → World
unfolding note_ack take_mail handle_packet forward_failed
step w (emit m) = settle w (handle_server_message m w.adapter)
step w (deliver now) = take_mail now w.mailbox w
step w (tick now) = settle w (resend_queued now w.adapter)
step w (packet now p) =
    settle (record w { acked = note_ack p w.acked }) (handle_packet now p w.adapter)
step w unreachable = settle w (w.adapter, forward_failed)
step w (control c) = settle w (handle_adapter_msg c w.adapter)

unfoldable pub run : World → List Event → World
run w [] = w
run w (e ∷ es) = run (step w e) es
