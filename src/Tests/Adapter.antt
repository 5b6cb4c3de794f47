-- ===== src/Tests/Adapter.antt =====
-- Packets through src/game/client_adapter.rs.
use fourinarow_server.Base.{ℕ, ◌+◌, ◌*◌, ◌≤◌, ◌<◌, ◌≡◌, refl, ◌↔◌, inl, inr, false, List, [], ◌∷◌}
use fourinarow_server.Game.Message.{
  PlayerMessage, ServerMessage, ReliabilityError, ReliablePacketIn,
}
use fourinarow_server.Game.Adapter.{
  received_msg, process_pass, handle_server_message, handle_packet_out, handle_adapter_msg,
  resend_queued, resend, queue_message, empty_layer, new, disconnect,
}
use fourinarow_server.Game.Adapter.Pass.{forwarded, stream, PlayerQueue}
use fourinarow_server.Game.Adapter.Order.{Arrival, receive_all, Arrived, FromStream}
use fourinarow_server.Game.Adapter.Order.Stream.{receive_all-stream, receive_all-Arrived}
use fourinarow_server.Game.Adapter.World.{
  settle, notified, World, Event, deliver, tick, packet, control, emit, step, run,
}
use fourinarow_server.Game.Adapter.Delivery.{Kept}
use fourinarow_server.Game.Adapter.Delivery.Run.{run-emit-Kept}

-- The client places a chip in column `k` with its message of number `k`.
abbrev content : ℕ → PlayerMessage
content k = PlayerMessage.place_chip k

abbrev arrival : ℕ → Arrival
arrival k = record { now = 10 * k; id = k; msg = content k }

-- Message 2 comes first, then 1 twice, then 3.
abbrev arrivals : List Arrival
arrivals = arrival 2 ∷ arrival 1 ∷ arrival 1 ∷ arrival 3 ∷ []

arrivals-FromStream : FromStream content arrivals
arrivals-FromStream = (refl, (refl, (refl, (refl, tt))))

arrivals-index : (receive_all arrivals empty_layer).0.player_msg_index ≡ 3
unfolding receive_all empty_layer received_msg process_pass
arrivals-index = refl

receive_all-stream_example :
    forwarded (receive_all arrivals empty_layer).1
    ≡ stream content 0 (receive_all arrivals empty_layer).0.player_msg_index
receive_all-stream_example = receive_all-stream content arrivals arrivals-FromStream

receive_all-Arrived_example :
    (3 ≤ (receive_all arrivals empty_layer).0.player_msg_index)
    ↔ ((k : ℕ) → 0 < k → k ≤ 3 → Arrived k arrivals)
receive_all-Arrived_example = receive_all-Arrived content arrivals 3 arrivals-FromStream

abbrev queue : PlayerQueue
queue = queue_message 0 6 (content 6) ∷ queue_message 1 5 (content 5) ∷ []

abbrev world : World
world = record { adapter = new 1 2; mailbox = []; stopped = false; acked = [] }

-- A line that cannot be parsed comes before the message is sent, the connection is lost, the message is
-- sent again to nobody, and the client acknowledges it.
abbrev events : List Event
events =
    packet 0 (inl ReliabilityError.invalid_format)
    ∷ deliver 0
    ∷ control disconnect
    ∷ tick 800
    ∷ deliver 801
    ∷ deliver 802
    ∷ packet 900 (inr (ReliablePacketIn.ack 1))
    ∷ []

run-emit-Kept_example :
    Kept
      (world.adapter.layer.server_msg_index + 1)
      ServerMessage.opponent_leaving
      (run (step world (emit ServerMessage.opponent_leaving)) events)
run-emit-Kept_example = run-emit-Kept ServerMessage.opponent_leaving world events (unfold new in tt)

events-acked :
    (run (step world (emit ServerMessage.opponent_leaving)) events).adapter.layer.server_msg_q ≡ []
unfolding run step new settle notified handle_server_message handle_packet_out handle_adapter_msg
    resend_queued resend
events-acked = refl
