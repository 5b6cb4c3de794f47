-- ===== src/Game/Lobby/Run.antt =====
-- Sequences of messages to a room of src/game/lobby.rs.
use fourinarow_server.Base.{List, [], ◌∷◌, ◌++◌}
use fourinarow_server.Game.Message.{Instant}
use fourinarow_server.Game.Board.{Player}
use fourinarow_server.Game.Lobby.{Lobby, ClientLobbyMessage, LobbyMessage, Effect, Outcome, Fresh}
use fourinarow_server.Game.Lobby.Handle.{handle_client, handle_lobby}

-- One message to the room.
pub data Event : Type 0 where
  from_client : Instant → Player → ClientLobbyMessage → Event
  from_server : Fresh → LobbyMessage → Event

unfoldable pub step : Lobby → Event → Outcome
step l (from_client now sender m) = handle_client now sender m l
step l (from_server fresh m) = handle_lobby fresh m l

-- The lobby and all effects of a sequence of messages.
unfoldable pub run : Lobby → List Event → Lobby × List Effect
run l [] = (l, [])
run l (e ∷ es) =
    let first = step l e in let (l', out) = run first.lobby es in (l', first.out ++ out)
