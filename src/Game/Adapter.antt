-- ===== src/Game/Adapter.antt =====
-- src/game/client_adapter.rs: the reliable layer between one client and its state. A handler returns
-- the adapter and the effects in order; the time of `Instant::now()` is an argument, in milliseconds.
pub mod Pass
pub mod Queue
pub mod Order
pub mod World
pub mod Delivery
use fourinarow_server.Base.{
  length, ltb, leb, ◌==◌, if◌then◌else◌, ℕ, zero, suc, ◌+◌, ◌-◌, String, ◌⊎◌, inl, inr, Bool, true,
  false, Option, none, some, List, [], ◌∷◌, ◌++◌,
}
use fourinarow_server.Game.Error.{internal}
use fourinarow_server.Game.Message.{
  Addr, Instant, PlayerMessage, ServerMessage, ReliabilityError, ReliablePacketIn,
  ReliablePacketOut,
}

abbrev pub queue_resend_timeout_ms : ℕ
queue_resend_timeout_ms = 700

abbrev pub rpkt_retry_limit : ℕ
rpkt_retry_limit = 16

pub record QueuedMessage (M : Type 0) : Type 0 where
  pub sent : Instant
  pub id : ℕ
  pub msg : M
  pub retry_count : ℕ

pub record ReliabilityLayer : Type 0 where
  pub player_msg_index : ℕ
  pub player_msg_q : List (QueuedMessage PlayerMessage)
  pub server_msg_index : ℕ
  pub server_msg_q : List (QueuedMessage ServerMessage)

pub data ConnectionState : Type 0 where
  connected : Addr → ConnectionState
  disconnected : ConnectionState
  connected_legacy : Addr → ConnectionState

pub record ClientAdapter : Type 0 where
  pub client_connection : ConnectionState
  pub client_state : Addr
  pub layer : ReliabilityLayer

-- `notify` queues a message to the adapter itself, `forward` waits for the client's state to take a
-- player's message, `send` and `send_plain` write a line to the connection.
pub data Effect : Type 0 where
  notify : ReliablePacketOut → Effect
  notify_message : ServerMessage → Effect
  forward : PlayerMessage → Effect
  send : Addr → ReliablePacketOut → Effect
  send_plain : Addr → ServerMessage → Effect
  state_backlink state_close : Effect
  close_connection : Addr → Effect
  stop : Effect

unfoldable pub empty_layer : ReliabilityLayer
empty_layer = record {
  player_msg_index = 0;
  player_msg_q = [];
  server_msg_index = 0;
  server_msg_q = [];
}

unfoldable pub new : Addr → Addr → ClientAdapter
unfolding empty_layer
new conn state = record {
  client_connection = connected conn;
  client_state = state;
  layer = empty_layer;
}

unfoldable pub legacy : Addr → Addr → ClientAdapter
unfolding empty_layer
legacy conn state = record {
  client_connection = connected_legacy conn;
  client_state = state;
  layer = empty_layer;
}

-- `QueuedMessage::to_packet`.
unfoldable pub to_packet : QueuedMessage ServerMessage → ReliablePacketOut
to_packet m = ReliablePacketOut.msg m.id m.msg m.retry_count

-- One round of the interval of `resend_queued_interval` over the drained queue.
unfoldable pub resend :
    Instant → List (QueuedMessage ServerMessage) → List (QueuedMessage ServerMessage) × List Effect
unfolding to_packet
resend now [] = ([], [])
resend now (m ∷ ms) =
    let (kept, out) = resend now ms in
    if leb queue_resend_timeout_ms (now - m.sent)
    then (kept, notify (to_packet m) ∷ out)
    else (m ∷ kept, out)

unfoldable pub resend_queued : Instant → ClientAdapter → ClientAdapter × List Effect
resend_queued now a =
    let (kept, out) = resend now a.layer.server_msg_q in
    (record a { layer = record a.layer { server_msg_q = kept } }, out)

-- `position` and `remove`: the first message of that id goes.
unfoldable pub remove_first :
    ℕ → List (QueuedMessage ServerMessage) → List (QueuedMessage ServerMessage)
remove_first id [] = []
remove_first id (m ∷ ms) = let rest = remove_first id ms in if m.id == id then ms else m ∷ rest

-- What the loops over the players' queue carry.
pub record Progress : Type 0 where
  pub index : ℕ
  pub kept : List (QueuedMessage PlayerMessage)
  pub out : List Effect
  pub added : Bool

-- The `for` loop of `process_queue` over the drained messages.
unfoldable pub process_pass : ℕ → List (QueuedMessage PlayerMessage) → Progress
process_pass index [] = record { index = index; kept = []; out = []; added = false }
process_pass index (m ∷ ms) =
    let hit = process_pass (index + 1) ms in
    let miss = process_pass index ms in
    if m.id == index + 1
    then record hit {
      out = forward m.msg ∷ notify (ReliablePacketOut.ack m.id) ∷ hit.out;
      added = true;
    }
    else record miss { kept = m ∷ miss.kept }

-- The `loop` of `process_queue`, on fuel: each round that goes on has taken a message.
unfoldable pub process_queue : ℕ → ℕ → List (QueuedMessage PlayerMessage) → Progress
process_queue zero index q = record { index = index; kept = q; out = []; added = false }
process_queue (suc fuel) index q =
    let pass = process_pass index q in
    let rest = process_queue fuel pass.index pass.kept in
    if pass.added then record rest { out = pass.out ++ rest.out } else pass

unfoldable pub queue_message : Instant → ℕ → PlayerMessage → QueuedMessage PlayerMessage
queue_message now id m = record { sent = now; id = id; msg = m; retry_count = 0 }

unfoldable pub received_msg :
    Instant → ℕ → PlayerMessage → ReliabilityLayer → ReliabilityLayer × List Effect
unfolding process_queue queue_message
received_msg now id m l =
    let q = process_queue (suc (length l.player_msg_q)) (l.player_msg_index + 1) l.player_msg_q in
    if id == l.player_msg_index + 1
    then (
      record l { player_msg_index = q.index; player_msg_q = q.kept },
      forward m ∷ notify (ReliablePacketOut.ack id) ∷ q.out,
    )
    else if ltb (l.player_msg_index + 1) id
    then (
      record l { player_msg_q = l.player_msg_q ++ queue_message now id m ∷ [] },
      notify (ReliablePacketOut.ack l.player_msg_index) ∷ [],
    )
    else (l, notify (ReliablePacketOut.ack id) ∷ [])

unfoldable pub received_packet :
    Instant → ReliablePacketIn → ReliabilityLayer → ReliabilityLayer × List Effect
unfolding received_msg remove_first
received_packet now (ReliablePacketIn.ack id) l =
    (record l { server_msg_q = remove_first id l.server_msg_q }, [])
received_packet now (ReliablePacketIn.msg id m) l = received_msg now id m l

-- The continuation of `forward_message` when the client's state cannot be reached.
unfoldable pub forward_failed : List Effect
forward_failed = notify_message (ServerMessage.error (some internal)) ∷ stop ∷ []

-- The parsers of src/game/msg.rs, applied to the line.
pub record Parsers : Type 0 where
  pub packet : String → ReliabilityError ⊎ ReliablePacketIn
  pub message : String → Option PlayerMessage

pub handle_packet :
    Instant → ReliabilityError ⊎ ReliablePacketIn → ClientAdapter → ClientAdapter × List Effect
unfolding received_packet
handle_packet now (inl e) a = (a, notify (ReliablePacketOut.err e) ∷ [])
handle_packet now (inr p) a =
    let (l, out) = received_packet now p a.layer in (record a { layer = l }, out)

handle_plain : Option PlayerMessage → ClientAdapter → ClientAdapter × List Effect
handle_plain none a = (a, [])
handle_plain (some m) a = (a, forward m ∷ [])

-- `Handler<ClientMsgString>`.
unfoldable pub handle_line :
    Parsers → Instant → String → ClientAdapter → ClientAdapter × List Effect
unfolding handle_packet handle_plain
handle_line parse now line a = elim a.client_connection [
  | connected c ↦ handle_packet now (parse.packet line) a
  | disconnected ↦ handle_packet now (parse.packet line) a
  | connected_legacy c ↦ handle_plain (parse.message line) a
]

-- `Handler<ServerMessage>`.
unfoldable pub handle_server_message : ServerMessage → ClientAdapter → ClientAdapter × List Effect
handle_server_message m a =
    let id = a.layer.server_msg_index + 1 in
    (
      record a { layer = record a.layer { server_msg_index = id } },
      notify (ReliablePacketOut.msg id m 0) ∷ [],
    )

enqueue : Instant → ℕ → ServerMessage → ℕ → ClientAdapter → ClientAdapter
enqueue now id m retry a = record a {
  layer = record a.layer {
    server_msg_q =
        a.layer.server_msg_q ++ record { sent = now; id = id; msg = m; retry_count = retry } ∷ [];
  };
}

-- `Handler<ReliablePacketOut>`, by the connection's state.
packet_out :
    Instant → ReliablePacketOut → ConnectionState → ClientAdapter → ClientAdapter × List Effect
unfolding enqueue
packet_out now (ReliablePacketOut.msg id m retry) (connected c) a =
    if ltb rpkt_retry_limit retry
    then (a, stop ∷ [])
    else (enqueue now id m (retry + 1) a, send c (ReliablePacketOut.msg id m retry) ∷ [])
packet_out now (ReliablePacketOut.msg id m retry) (connected_legacy c) a = (a, send_plain c m ∷ [])
packet_out now (ReliablePacketOut.msg id m retry) disconnected a = (enqueue now id m retry a, [])
packet_out now p (connected c) a = (a, send c p ∷ [])
packet_out now p _ a = (a, [])

unfoldable pub handle_packet_out :
    Instant → ReliablePacketOut → ClientAdapter → ClientAdapter × List Effect
unfolding packet_out
handle_packet_out now p a = packet_out now p a.client_connection a

pub data ClientAdapterMsg : Type 0 where
  connect : Addr → ClientAdapterMsg
  disconnect close : ClientAdapterMsg

-- `Handler<ClientAdapterMsg>`.
unfoldable pub handle_adapter_msg : ClientAdapterMsg → ClientAdapter → ClientAdapter × List Effect
handle_adapter_msg (connect c) a = (record a { client_connection = connected c }, [])
handle_adapter_msg disconnect a = (record a { client_connection = disconnected }, [])
handle_adapter_msg close a = (a, stop ∷ [])

close_of : ConnectionState → List Effect
close_of (connected c) = close_connection c ∷ []
close_of (connected_legacy c) = close_connection c ∷ []
close_of disconnected = []

-- `Actor::started` and `Actor::stopping`.
unfoldable pub started : List Effect
started = state_backlink ∷ []

unfoldable pub stopping : ClientAdapter → List Effect
unfolding close_of
stopping a = state_close ∷ close_of a.client_connection
