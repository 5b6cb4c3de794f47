-- ===== src/Tests/Client.antt =====
-- A client of src/game/client_state.rs with the other parts of the server.
use fourinarow_server.Base.{All, String, ◌≡◌, refl, ◌↔◌, true, none, some, List, [], ◌∷◌}
use fourinarow_server.Game.Message.{PlayerMessage, ServerMessage, LobbyKind, public_lobby}
use fourinarow_server.Game.Error.{already_in_lobby}
use fourinarow_server.Game.Board.{one, two}
use fourinarow_server.Game.Lobby.{player_leaving, PlayerLeaveReason}
use fourinarow_server.Game.Manager.{LobbyManager, Fresh, granted, empty, generate}
use fourinarow_server.Game.Client.{
  ClientState, PublicUserMe, waiting_for_host, in_lobby, idle, to_lobby, to_adapter, handle, close,
  response_ready,
}
use fourinarow_server.Game.Client.Play.{handle_player}
use fourinarow_server.Game.Client.Lobbies.{
  OwnPlace, Tells, request_room, handle_player-OwnPlace, handle_player-leaving, request_room-match,
}
use fourinarow_server.Game.Client.Calm.{Event, said, told, answered, host_ready}
use fourinarow_server.Game.Connections.{WsToken, ConnectionManager}
use fourinarow_server.Game.Connections as Connections

abbrev client : ClientState
client = record {
  id = 11;
  address = 111;
  adapter = some 211;
  lobby_state = in_lobby two 300;
  maybe_user_info = none;
  maybe_api_token = none;
}

handle_player-OwnPlace_example :
    All (OwnPlace (in_lobby two 300)) (handle_player (PlayerMessage.place_chip 4) client).out
handle_player-OwnPlace_example = handle_player-OwnPlace (PlayerMessage.place_chip 4) client

-- The client waits for the host of a room.
abbrev waiting : ClientState
waiting = record client { lobby_state = waiting_for_host two 300 }

handle_player-leaving_example :
    ((handle_player PlayerMessage.leaving waiting).state.lobby_state ≡ idle)
    × (Tells
          (to_lobby 300 two (player_leaving PlayerLeaveReason.leave))
          (handle_player PlayerMessage.leaving waiting).out
        ↔ (waiting_for_host two 300 ≡ in_lobby two 300))
    × (Tells
          (to_lobby 300 two (player_leaving PlayerLeaveReason.disconnect))
          (handle close waiting).1
        ↔ (waiting_for_host two 300 ≡ in_lobby two 300))
handle_player-leaving_example = handle_player-leaving waiting 211 two 300 refl

abbrev fresh : Fresh
fresh = record { lobby_id = 1; draws = 1234 ∷ []; lobby_addr = 400 }

draws-fresh : generate empty.open_lobby_map empty.closed_lobby_map fresh.draws ≡ some 1234
unfolding generate empty
draws-fresh = refl

no-open : empty.open_lobby ≡ none
unfolding empty
no-open = refl

abbrev idle_client : ClientState
idle_client = record client { lobby_state = idle }

request_room-match_example :
    (s t : ClientState) × (manager manager' : LobbyManager) × (request_room fresh public_lobby
        idle_client empty
      ≡ some (s, [], manager))
    × (request_room fresh public_lobby idle_client manager ≡ some (t, [], manager'))
    × (s.lobby_state ≡ in_lobby one 400)
    × (t.lobby_state ≡ waiting_for_host two 400)
    × ((response_ready t).lobby_state ≡ in_lobby two 400)
    × (manager'.open_lobby ≡ none)
    × ((again : Fresh) (kind : LobbyKind)
        → (request_room again kind s manager'
            ≡ some (s, to_adapter 211 (ServerMessage.error (some already_in_lobby)) ∷ [], manager'))
          × (request_room again kind t manager'
              ≡ some
                  (t, to_adapter 211 (ServerMessage.error (some already_in_lobby)) ∷ [], manager')))
request_room-match_example =
    request_room-match fresh fresh 211 211 idle_client idle_client empty 1234 refl refl refl refl
      no-open draws-fresh

abbrev user : PublicUserMe
user = record { id = 7; username = "user"; friendships = [] }

abbrev short_name : WsToken → String
short_name token = "token"

abbrev actors : Connections.Fresh
actors = record { session_token = 0; state_addr = 0; adapter_addr = 0 }

-- The client talks to everybody, asks for a room and is in it.
abbrev between : List Event
between =
    said (PlayerMessage.chat_message "hello")
    ∷ said (PlayerMessage.lobby_request public_lobby)
    ∷ answered 211
        (some (granted (record { waiting = true; player = two; game_id = 5; lobby_addr = 300 })))
    ∷ host_ready
    ∷ told close
    ∷ []
