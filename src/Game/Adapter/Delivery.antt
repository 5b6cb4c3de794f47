-- ===== src/Game/Adapter/Delivery.antt =====
-- Messages of the server are kept until they are acknowledged: the sending half of the reliable
-- layer of src/game/client_adapter.rs, over any interleaving of what the adapter handles.
pub mod Run
use fourinarow_server.Base.{
  Any, ltb, leb, Bool-cases, ℕ, ◌+◌, ◌-◌, ◌≡◌, refl, ◌⊎◌, inl, inr, Bool, true, false, ◌||◌, List,
  [], ◌∷◌, ◌++◌, arith,
}
use fourinarow_server.Game.Message.{
  Instant, PlayerMessage, ServerMessage, ReliablePacketIn, ReliablePacketOut,
}
use fourinarow_server.Game.Adapter.{
  QueuedMessage, ConnectionState, connected, disconnected, connected_legacy, ClientAdapter, Effect,
  notify, notify_message, forward, send, send_plain, state_backlink, state_close, close_connection,
  stop, to_packet, resend, resend_queued, remove_first, received_packet, received_msg,
  handle_server_message, handle_packet_out, handle_adapter_msg, ClientAdapterMsg, connect,
  disconnect, close, packet_out, ReliabilityLayer, handle_packet, new, rpkt_retry_limit,
  queue_resend_timeout_ms, process_queue, process_pass,
}
use fourinarow_server.Game.Adapter.World.{
  World, Event, emit, deliver, tick, packet, control, notified, stops, settle, note_ack, take_mail,
  step, run,
}

abbrev pub Queued : ℕ → ServerMessage → List (QueuedMessage ServerMessage) → Type 0
Queued k m q = Any (λ entry. (entry.id ≡ k) × (entry.msg ≡ m)) q

abbrev pub IsPacket : ℕ → ServerMessage → ReliablePacketOut → Type 0
IsPacket k m (ReliablePacketOut.msg id m' retry) = (id ≡ k) × (m' ≡ m)
IsPacket k m _ = ⊥

abbrev pub Mailed : ℕ → ServerMessage → List ReliablePacketOut → Type 0
Mailed k m ps = Any (IsPacket k m) ps

-- Message `m` of number `k` is still on its way, or acknowledged, or the adapter has stopped.
pub data Kept (k : ℕ) (m : ServerMessage) (w : World) : Type 0 where
  queued : Queued k m w.adapter.layer.server_msg_q → Kept k m w
  mailed : Mailed k m w.mailbox → Kept k m w
  acknowledged : Any (λ id. id ≡ k) w.acked → Kept k m w
  given_up : w.stopped ≡ true → Kept k m w

-- The connection is not one of the legacy protocol.
abbrev pub IsReliable : ConnectionState → Type 0
IsReliable (connected c) = Unit
IsReliable disconnected = Unit
IsReliable (connected_legacy c) = ⊥

Any-append_left : {A : Type 0} (P : A → Type 0) (xs ys : List A) → Any P xs → Any P (xs ++ ys)
Any-append_left P [] ys h = elim h [ ]
Any-append_left P (x ∷ xs) ys (inl h) = inl h
Any-append_left P (x ∷ xs) ys (inr h) = inr (Any-append_left P xs ys h)

Any-append_right : {A : Type 0} (P : A → Type 0) (xs ys : List A) → Any P ys → Any P (xs ++ ys)
Any-append_right P [] ys h = h
Any-append_right P (x ∷ xs) ys h = inr (Any-append_right P xs ys h)

or_left : (a b : Bool) → a ≡ true → (a || b) ≡ true
or_left a b h = ground arith

-- What a handler leaves of a message that was kept outside the queue.
settle-Kept :
    (k : ℕ) (m : ServerMessage) (w : World) (r : ClientAdapter × List Effect)
    → (Queued k m w.adapter.layer.server_msg_q
        → Queued k m r.0.layer.server_msg_q ⊎ Mailed k m (notified r.1) ⊎ (stops r.1 ≡ true))
    → Kept k m w
    → Kept k m (settle w r)
unfolding settle
settle-Kept k m w (a, out) move (queued q) = elim (move q) [
  | inl still ↦ queued still
  | inr (inl out_again) ↦
      mailed (Any-append_right (IsPacket k m) w.mailbox (notified out) out_again)
  | inr (inr dead) ↦ given_up (ground arith)
]
settle-Kept k m w (a, out) move (mailed p) =
    mailed (Any-append_left (IsPacket k m) w.mailbox (notified out) p)
settle-Kept k m w (a, out) move (acknowledged h) = acknowledged h
settle-Kept k m w (a, out) move (given_up h) = given_up (or_left w.stopped (stops out) h)

-- The interval moves an entry to the mailbox or leaves it.
resend-Kept :
    (now k : ℕ) (m : ServerMessage) (q : List (QueuedMessage ServerMessage))
    → Queued k m q
    → Queued k m (resend now q).0 ⊎ Mailed k m (notified (resend now q).1)
unfolding resend notified to_packet
resend-Kept now k m [] h = elim h [ ]
resend-Kept now k m (e ∷ q) h = elim (Bool-cases (leb queue_resend_timeout_ms (now - e.sent))) [
  | inl late ↦
      rw (late, resend)
        (elim h [
          | inl this ↦ inr (inl this)
          | inr rest ↦ elim (resend-Kept now k m q rest) [ inl a ↦ inl a | inr b ↦ inr (inr b) ]
        ])
  | inr early ↦
      rw (early, resend)
        (elim h [
          | inl this ↦ inl (inl this)
          | inr rest ↦ elim (resend-Kept now k m q rest) [ inl a ↦ inl (inr a) | inr b ↦ inr b ]
        ])
]

remove_first-Kept :
    (id k : ℕ) (m : ServerMessage) (q : List (QueuedMessage ServerMessage))
    → Queued k m q
    → Queued k m (remove_first id q) ⊎ (id ≡ k)
unfolding remove_first
remove_first-Kept id k m [] h = elim h [ ]
remove_first-Kept id k m (e ∷ q) h = ground (arith, remove_first-Kept id k m q)

-- The handling of a packet that the adapter sent to itself puts its message into the queue, unless
-- the adapter stops.
packet_out-Kept :
    (now k : ℕ) (m : ServerMessage) (w : World) (p : ReliablePacketOut) (c : ConnectionState)
    → IsReliable c
    → IsPacket k m p
    → Kept k m (settle w (packet_out now p c w.adapter))
unfolding packet_out settle stops
packet_out-Kept now k m w (ReliablePacketOut.msg id m' retry) (connected c) rel h =
    elim (Bool-cases (ltb rpkt_retry_limit retry)) [
      | inl dead ↦ given_up (ground arith)
      | inr alive ↦ queued (rw alive (Any-append_right _ w.adapter.layer.server_msg_q _ (inl h)))
    ]
packet_out-Kept now k m w (ReliablePacketOut.msg id m' retry) disconnected rel h =
    queued (Any-append_right _ w.adapter.layer.server_msg_q _ (inl h))
packet_out-Kept now k m w (ReliablePacketOut.msg id m' retry) (connected_legacy c) rel h =
    absurd rel
packet_out-Kept now k m w (ReliablePacketOut.ack id) c rel h = absurd h
packet_out-Kept now k m w (ReliablePacketOut.err e) c rel h = absurd h

-- It leaves the queue's entries where they are.
packet_out-Queued :
    (now k : ℕ) (m : ServerMessage) (a : ClientAdapter) (p : ReliablePacketOut)
    (c : ConnectionState)
    → Queued k m a.layer.server_msg_q
    → Queued k m (packet_out now p c a).0.layer.server_msg_q
unfolding packet_out
packet_out-Queued now k m a (ReliablePacketOut.msg id m' retry) (connected c) h =
    elim (Bool-cases (ltb rpkt_retry_limit retry)) [
      | inl dead ↦ rw dead h
      | inr alive ↦ rw alive (Any-append_left _ a.layer.server_msg_q _ h)
    ]
packet_out-Queued now k m a (ReliablePacketOut.msg id m' retry) disconnected h =
    Any-append_left _ a.layer.server_msg_q _ h
packet_out-Queued now k m a (ReliablePacketOut.msg id m' retry) (connected_legacy c) h = h
packet_out-Queued now k m a (ReliablePacketOut.ack id) (connected c) h = h
packet_out-Queued now k m a (ReliablePacketOut.ack id) disconnected h = h
packet_out-Queued now k m a (ReliablePacketOut.ack id) (connected_legacy c) h = h
packet_out-Queued now k m a (ReliablePacketOut.err e) (connected c) h = h
packet_out-Queued now k m a (ReliablePacketOut.err e) disconnected h = h
packet_out-Queued now k m a (ReliablePacketOut.err e) (connected_legacy c) h = h

deliver-Kept :
    (now k : ℕ) (m : ServerMessage) (ps : List ReliablePacketOut) (w : World)
    → IsReliable w.adapter.client_connection
    → w.mailbox ≡ ps
    → Kept k m w
    → Kept k m (take_mail now ps w)
unfolding take_mail handle_packet_out
deliver-Kept now k m [] w rel e h = h
deliver-Kept now k m (p ∷ ps) w rel e h =
    let popped = record w { mailbox = ps } in
    let keep =
      settle-Kept k m popped (packet_out now p w.adapter.client_connection w.adapter)
        (λ q. inl (packet_out-Queued now k m w.adapter p w.adapter.client_connection q)) in
    elim h [
      | queued q ↦ keep (queued q)
      | mailed ms ↦ elim (let at : Mailed k m (p ∷ ps) = rw e at ms in at) [
        | inl this ↦ packet_out-Kept now k m popped p w.adapter.client_connection rel this
        | inr rest ↦ keep (mailed rest)
      ]
      | acknowledged a ↦ keep (acknowledged a)
      | given_up d ↦ keep (given_up d)
    ]
