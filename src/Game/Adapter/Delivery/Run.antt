-- ===== src/Game/Adapter/Delivery/Run.antt =====
-- A message of the server over whatever the adapter of src/game/client_adapter.rs handles.
use fourinarow_server.Base.{ℕ, ◌+◌, ◌≡◌, refl, inl, inr, false, List, [], ◌∷◌, arith}
use fourinarow_server.Game.Message.{
  PlayerMessage, ServerMessage, ReliablePacketIn, ReliablePacketOut,
}
use fourinarow_server.Game.Adapter.{
  ConnectionState, ClientAdapter, resend_queued, remove_first, received_msg, handle_server_message,
  handle_packet_out, handle_adapter_msg, ClientAdapterMsg, connect, disconnect, close, packet_out,
  ReliabilityLayer, forward_failed, notify,
}
use fourinarow_server.Game.Adapter.World.{
  World, Event, emit, deliver, tick, packet, unreachable, control, notified, stops, settle,
  take_mail, step, run,
}
use fourinarow_server.Game.Adapter.Delivery.{
  Any-append_left, Any-append_right, IsPacket, IsReliable, Kept, acknowledged, deliver-Kept,
  given_up, mailed, or_left, queued, remove_first-Kept, resend-Kept, settle-Kept,
}

received_msg-server_msg_q :
    (now id : ℕ) (m : PlayerMessage) (l : ReliabilityLayer)
    → (received_msg now id m l).0.server_msg_q ≡ l.server_msg_q
unfolding received_msg
received_msg-server_msg_q now id m l = ground arith

ack-Kept :
    (k id : ℕ) (m : ServerMessage) (w : World)
    → Kept k m w
    → Kept k m (
        settle
          (record w { acked = id ∷ w.acked })
          (
            record w.adapter {
              layer = record w.adapter.layer {
                server_msg_q = remove_first id w.adapter.layer.server_msg_q;
              };
            },
            [],
          ))
unfolding settle notified stops
ack-Kept k id m w (queued q) = elim (remove_first-Kept id k m w.adapter.layer.server_msg_q q) [
  | inl still ↦ queued still
  | inr this ↦ acknowledged (inl this)
]
ack-Kept k id m w (mailed p) = mailed (Any-append_left (IsPacket k m) w.mailbox [] p)
ack-Kept k id m w (acknowledged a) = acknowledged (inr a)
ack-Kept k id m w (given_up d) = given_up (or_left w.stopped false d)

control-queue :
    (c : ClientAdapterMsg) (a : ClientAdapter)
    → (handle_adapter_msg c a).0.layer.server_msg_q ≡ a.layer.server_msg_q
unfolding handle_adapter_msg
control-queue c a = ground arith

-- Whatever the adapter handles, a message that it keeps stays kept.
step-Kept :
    (k : ℕ) (m : ServerMessage) (w : World) (e : Event)
    → IsReliable w.adapter.client_connection
    → Kept k m w
    → Kept k m (step w e)
unfolding step
step-Kept k m w (emit m') rel h = settle-Kept k m w _ (unfold handle_server_message in λ q. inl q) h
step-Kept k m w (deliver now) rel h = deliver-Kept now k m w.mailbox w rel refl h
step-Kept k m w (tick now) rel h =
    settle-Kept k m w _
      (unfold resend_queued in
        λ q. elim (resend-Kept now k m w.adapter.layer.server_msg_q q) [
          | inl a ↦ inl a
          | inr b ↦ inr (inl b)
        ])
      h
step-Kept k m w (packet now (inl e)) rel h =
    settle-Kept k m w (w.adapter, notify (ReliablePacketOut.err e) ∷ []) (λ q. inl q) h
step-Kept k m w (packet now (inr (ReliablePacketIn.ack id))) rel h = ack-Kept k id m w h
step-Kept k m w (packet now (inr (ReliablePacketIn.msg id m'))) rel h =
    settle-Kept k m w _ (λ q. inl (rw (received_msg-server_msg_q now id m' w.adapter.layer) q)) h
step-Kept k m w unreachable rel h = settle-Kept k m w (w.adapter, forward_failed) (λ q. inl q) h
step-Kept k m w (control c) rel h =
    settle-Kept k m w _ (λ q. inl (rw (control-queue c w.adapter) q)) h

packet_out-connection :
    (now : ℕ) (p : ReliablePacketOut) (c : ConnectionState) (a : ClientAdapter)
    → (packet_out now p c a).0.client_connection ≡ a.client_connection
unfolding packet_out
packet_out-connection now p c a = ground arith

take_mail-IsReliable :
    (now : ℕ) (ps : List ReliablePacketOut) (w : World)
    → IsReliable w.adapter.client_connection
    → IsReliable (take_mail now ps w).adapter.client_connection
unfolding take_mail settle handle_packet_out
take_mail-IsReliable now [] w rel = rel
take_mail-IsReliable now (p ∷ ps) w rel =
    rw (packet_out-connection now p w.adapter.client_connection w.adapter) rel

-- A connection of the reliable protocol never becomes a legacy one.
step-IsReliable :
    (w : World) (e : Event)
    → IsReliable w.adapter.client_connection
    → IsReliable (step w e).adapter.client_connection
unfolding step settle handle_adapter_msg
step-IsReliable w (emit m) rel = unfold handle_server_message in rel
step-IsReliable w (deliver now) rel = take_mail-IsReliable now w.mailbox w rel
step-IsReliable w (tick now) rel = unfold resend_queued in rel
step-IsReliable w (packet now (inl e)) rel = rel
step-IsReliable w (packet now (inr (ReliablePacketIn.ack id))) rel = rel
step-IsReliable w (packet now (inr (ReliablePacketIn.msg id m))) rel = rel
step-IsReliable w unreachable rel = rel
step-IsReliable w (control (connect c)) rel = tt
step-IsReliable w (control disconnect) rel = tt
step-IsReliable w (control close) rel = rel

run-Kept :
    (k : ℕ) (m : ServerMessage) (w : World) (es : List Event)
    → IsReliable w.adapter.client_connection
    → Kept k m w
    → Kept k m (run w es)
unfolding run
run-Kept k m w [] rel h = h
run-Kept k m w (e ∷ es) rel h =
    run-Kept k m (step w e) es (step-IsReliable w e rel) (step-Kept k m w e rel h)

emit-Kept :
    (m : ServerMessage) (w : World)
    → Kept (w.adapter.layer.server_msg_index + 1) m (step w (emit m))
unfolding step settle handle_server_message notified
emit-Kept m w = mailed (Any-append_right (IsPacket _ m) w.mailbox _ (inl (refl, refl)))

-- On a connection of the reliable protocol, a message that the server hands to the adapter gets the
-- next number. Whatever comes from then on, in any order - further messages of the server, lines of
-- the client that are packets or cannot be parsed, the packets in the adapter's mailbox one by one, the
-- interval, forwards that fail, new connections, disconnects and closing - the message under that number
-- waits in the queue or in the mailbox until the client has acknowledged the number or the
-- adapter has stopped.
pub run-emit-Kept :
    (m : ServerMessage) (w : World) (es : List Event)
    → IsReliable w.adapter.client_connection
    → Kept (w.adapter.layer.server_msg_index + 1) m (run (step w (emit m)) es)
run-emit-Kept m w es rel =
    run-Kept _ m (step w (emit m)) es (step-IsReliable w (emit m) rel) (emit-Kept m w)
