-- ===== src/Tests/Lobby.antt =====
-- A ranked game in a room of src/game/lobby.rs.
use fourinarow_server.Base.{
  length, replicate, All, ◌-◌, ◌≡◌, refl, true, false, none, some, List, [], ◌∷◌, ◌++◌, map,
}
use fourinarow_server.Game.Message.{ServerMessage}
use fourinarow_server.Game.Board.{
  Player, one, two, GameInfo, WinnerInfo, Cell, place_chip, placed, new, same, free_cell, check_win,
  check_win_internal, put, select, other,
}
use fourinarow_server.Game.Lobby.{
  Lobby, two_players, registered, Fresh, place_chip_at, play_again_request, to_client, played_game,
  game_start, new_lobby, player_joined, received_ready_for_game_pong,
}
use fourinarow_server.Game.Lobby.Handle.{handle_client}
use fourinarow_server.Game.Lobby.Run.{Event, from_client, from_server, run}
use fourinarow_server.Game.Lobby.Sound.{IsSound, run-IsSound}
use fourinarow_server.Game.Lobby.Settle.{InGame, OfGame, run-OfGame}
use fourinarow_server.Game.Lobby.Play.{Sends, handle_client-game_over}

abbrev lobby : Lobby
lobby = record {
  lobby_id = 1;
  game_id = 1234;
  lobby_state = two_players 50 (registered (new one) 7 8) 100 200;
  last_hb = 0;
}

abbrev fresh : Fresh
fresh = record { coin = two; game_oid = 60; handle = 3 }

abbrev chips : List Event
chips =
    from_client 1 one (place_chip_at 0)
    ∷ from_client 2 two (place_chip_at 1)
    ∷ from_client 3 one (place_chip_at 0)
    ∷ from_client 4 two (place_chip_at 1)
    ∷ from_client 5 one (place_chip_at 0)
    ∷ from_client 6 two (place_chip_at 1)
    ∷ []

-- The host wins, and both ask for another game.
abbrev events : List Event
events =
    chips
    ++ from_client 7 one (place_chip_at 0)
      ∷ from_client 8 one play_again_request
      ∷ from_client 9 two play_again_request
      ∷ from_server fresh game_start
      ∷ []

-- A room from its host's arrival on.
abbrev new_room : Lobby
new_room = new_lobby 1 1234 100 (some 7) 0

abbrev arrivals : List Event
arrivals =
    from_server fresh (player_joined 200 (some 8))
    ∷ from_server fresh received_ready_for_game_pong
    ∷ from_server fresh game_start
    ∷ from_client 1 two (place_chip_at 3)
    ∷ []

run-IsSound_example : IsSound (run new_room arrivals).0.lobby_state
run-IsSound_example = run-IsSound new_room arrivals (unfold new_lobby in tt)

run-OfGame_example :
    InGame 50 (run lobby events).0.lobby_state × All (OfGame 50) (run lobby events).1
run-OfGame_example = run-OfGame 50 lobby events refl

-- Player one has three chips in the first column.
abbrev column : List Player → List Cell
column chips = replicate (7 - length chips) none ++ map some chips

abbrev game : GameInfo
game = record {
  field =
      column (one ∷ one ∷ one ∷ [])
      ∷ column (two ∷ two ∷ two ∷ [])
      ∷ column []
      ∷ column []
      ∷ column []
      ∷ column []
      ∷ column []
      ∷ [];
  turn = one;
  winner = none;
}

abbrev last_move : Lobby
last_move = record lobby { lobby_state = two_players 50 (registered game 7 8) 100 200 }

game-won : (place_chip game 0 one).1 ≡ placed (some one)
unfolding place_chip same free_cell check_win check_win_internal put
game-won = refl

handle_client-game_over_example :
    let out = (handle_client 9 one (place_chip_at 0) last_move).out in
    Sends (to_client 200 (ServerMessage.place_chip 0)) out
    × Sends (to_client 100 (ServerMessage.game_over true)) out
    × Sends (to_client 200 (ServerMessage.game_over false)) out
    × Sends (played_game 50 7 8) out
unfolding select other
handle_client-game_over_example =
    handle_client-game_over 9 one 0 50 game 7 8 100 200 last_move one refl game-won

abbrev won : WinnerInfo
won = record { winner = one; requesting_rematch = none }

abbrev finished : Lobby
finished = record lobby {
  lobby_state = two_players 50 (registered (record game { winner = some won }) 7 8) 100 200;
}
