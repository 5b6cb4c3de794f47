-- ===== src/Tests/Connections.antt =====
-- Clients of src/game/connection_mgr.rs that come and go.
use fourinarow_server.Base.{
  Any, lookup, insert, ℕ, ◌+◌, String, ◌≡◌, refl, ◌↔◌, true, false, some, List, [], ◌∷◌, arith,
}
use fourinarow_server.Game.Message.{UserId}
use fourinarow_server.Game.Connections.{
  WsToken, Connection, ConnectionManager, Fresh, new, connected, request_adapter_new,
  request_adapter_existing, disconnect, bind_user, unbind_user, close_adapter,
}
use fourinarow_server.Game.Connections.Cleanup.{is_online, is_expired, sweep}
use fourinarow_server.Game.Connections.Handle.{handle, bind}
use fourinarow_server.Game.Connections.Presence.{bind-bind}
use fourinarow_server.Game.Connections.Sweep.{ExpiredOf, sweep-is_online, handle-reconnect}
use fourinarow_server.Game.Connections.Run.{Event, message, cleanup, run, step, run-cleanup}

abbrev short_name : WsToken → String
short_name token = "token"

abbrev user : UserId
user = 7

abbrev fresh : ℕ → Fresh
fresh n = record { session_token = n; state_addr = 100 + n; adapter_addr = 200 + n }

-- User 7 logs in with token 1 on connection 11, is logged out, logs in with token 2 on connection
-- 12, and connection 11 is lost.
abbrev events : List Event
events =
    message (fresh 11) 0 (request_adapter_new 501)
    ∷ message (fresh 0) 0 (bind_user 7 1 11)
    ∷ message (fresh 0) 0 (unbind_user 7 1)
    ∷ message (fresh 12) 0 (request_adapter_new 502)
    ∷ message (fresh 0) 0 (bind_user 7 2 12)
    ∷ message (fresh 0) 1000 (disconnect 501 11)
    ∷ []

abbrev manager : ConnectionManager
manager = run short_name new events

abbrev second : Connection
second = record { adapter_addr = 212; state_addr = 112; state = connected 502; user_id = some 7 }

run-cleanup_example :
    (lookup 12 (step short_name manager (cleanup 31000)).connections ≡ some second)
    ↔ ((lookup 12 manager.connections ≡ some second) × (is_expired 31000 second ≡ false))
run-cleanup_example = run-cleanup short_name events 31000 12 second

sweep-is_online_example :
    (is_online 7 (sweep 31000 manager).0 ≡ true)
    ↔ ((is_online 7 manager ≡ true) × ¬ Any (ExpiredOf 31000 7) manager.connections)
sweep-is_online_example = sweep-is_online 31000 7 manager

-- The cleanup of the first connection takes the user offline who is connected by the second.
second-lost : (is_online 7 manager ≡ true) × (is_online 7 (sweep 31000 manager).0 ≡ false)
unfolding run is_online lookup handle insert new sweep
second-lost = (refl, refl)

second-there : lookup 12 manager.connections ≡ some second
unfolding run lookup handle insert new
second-there = refl

handle-reconnect_example :
    let back = (handle short_name (fresh 0) 40 (request_adapter_existing 503 12) manager).0 in
    let gone = handle short_name (fresh 0) 50 (disconnect 502 12) back in
    (lookup 12 gone.0.connections ≡ some (record second { state = connected 503 })) × (gone.1 ≡ [])
handle-reconnect_example =
    handle-reconnect short_name (fresh 0) (fresh 0) 40 50 502 503 12 second manager second-there
      (omega arith)

bind-bind_example : (bind 7 4 12 (bind 7 3 12 manager).0).1 ≡ close_adapter 212 ∷ []
bind-bind_example = bind-bind 7 3 4 12 12 second manager second-there
