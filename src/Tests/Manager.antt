-- ===== src/Tests/Manager.antt =====
-- Requests to src/game/lobby_mgr.rs.
use fourinarow_server.Base.{
  lookup, insert, ◌≡◌, refl, ◌≢◌, ◌↔◌, false, Option, none, some, List, [], ◌∷◌, map,
}
use fourinarow_server.Game.Message.{Addr, UserId, private_lobby, public_lobby, GameId}
use fourinarow_server.Game.Board.{two}
use fourinarow_server.Game.Manager.{
  LobbyInfo, LobbyManager, Fresh, empty, generate, new_lobby, handle_request, handle_msg,
  close_lobby_msg, granted,
}
use fourinarow_server.Game.Manager.Run.{
  Event, request, run, join_all, IsOrderly, empty-IsOrderly, run-IsOrderly, run-join_again,
}
use fourinarow_server.Game.Manager.Closing.{handle_msg-close}

abbrev room : LobbyInfo
room = record { lobby_id = 1; game_id = 1234; addr = 300; kind = private_lobby }

abbrev room_id : GameId
room_id = 1234

-- One private room is open.
abbrev manager : LobbyManager
manager = record { open_lobby = none; open_lobby_map = (1234, room) ∷ []; closed_lobby_map = [] }

abbrev fresh : Fresh
fresh = record { lobby_id = 2; draws = 1234 ∷ 4321 ∷ []; lobby_addr = 400 }

draws-fresh : generate manager.open_lobby_map manager.closed_lobby_map fresh.draws ≡ some 4321
unfolding generate
draws-fresh = refl

abbrev opener : Fresh
opener = record { lobby_id = 1; draws = 1234 ∷ []; lobby_addr = 300 }

-- The room is opened.
abbrev events : List Event
events = request opener (new_lobby 10 none private_lobby) ∷ []

events-run : run empty events ≡ some manager
unfolding run handle_request insert empty
events-run = refl

room-found : lookup 1234 manager.open_lobby_map ≡ some room
unfolding lookup
room-found = refl

-- Three clients ask for the room.
abbrev clients : List (Fresh × Addr × Option UserId)
clients = (fresh, 20, none) ∷ (fresh, 30, none) ∷ (fresh, 40, some 4) ∷ []

run-join_again_example :
    join_all 1234 clients manager
    ≡ some (
      map
          (λ client.
            granted (record { waiting = false; player = two; game_id = 1234; lobby_addr = 300 }))
          clients,
      manager,
    )
run-join_again_example = run-join_again events manager 1234 room clients events-run room-found

run-IsOrderly_example : IsOrderly manager
run-IsOrderly_example = run-IsOrderly empty manager events empty-IsOrderly events-run

-- A private room gets the id of the public room that waits for a player.
abbrev same_id : List Event
same_id =
    request opener (new_lobby 10 none public_lobby)
    ∷ request opener (new_lobby 20 none private_lobby)
    ∷ []

same_id-taken :
    (s : LobbyManager) × (public private : LobbyInfo) × (run empty same_id ≡ some s)
    × (s.open_lobby ≡ some public)
    × (lookup 1234 s.open_lobby_map ≡ some private)
    × (public.game_id ≡ private.game_id)
unfolding run handle_request insert empty lookup
same_id-taken = (_, _, _, refl, refl, refl, refl)

handle_msg-close_example :
    let t = (handle_msg (close_lobby_msg 1234) manager).0 in
    ((t.open_lobby ≡ some room) ↔ ((room_id ≢ room_id) × (manager.open_lobby ≡ some room)))
    × ((lookup 1234 t.open_lobby_map ≡ some room)
        ↔ ((room_id ≢ room_id) × (lookup 1234 manager.open_lobby_map ≡ some room)))
    × ((lookup 1234 t.closed_lobby_map ≡ some room)
        ↔ ((room_id ≢ room_id) × (lookup 1234 manager.closed_lobby_map ≡ some room)))
handle_msg-close_example = handle_msg-close manager 1234 1234 room
