-- ===== src/Game/Manager/Closing.antt =====
-- What src/game/lobby_mgr.rs keeps of a room after it is closed.
use fourinarow_server.Base.{lookup, remove, lookup-remove, ◌≡◌, ◌≢◌, ◌↔◌, Option, none, some, arith}
use fourinarow_server.Game.Message.{GameId}
use fourinarow_server.Game.Manager.{
  LobbyInfo, LobbyMap, LobbyManager, close_lobby_msg, handle_msg, close_open,
}

close_open_iff :
    (id : GameId) (o : Option LobbyInfo) (info : LobbyInfo)
    → (close_open id o ≡ some info) ↔ ((info.game_id ≢ id) × (o ≡ some info))
unfolding close_open
close_open_iff id none info = ground arith
close_open_iff id (some i) info =
    (λ h. ground arith, λ p. let ne = p.0 in let e = p.1 in ground arith)

remove_iff :
    (id j : GameId) (m : LobbyMap) (info : LobbyInfo)
    → (lookup j (remove id m) ≡ some info) ↔ ((j ≢ id) × (lookup j m ≡ some info))
remove_iff id j m info = (
  λ h. ground (arith, lookup-remove j id m),
  λ p. let ne = p.0 in let e = p.1 in ground (arith, lookup-remove j id m),
)

-- Closing a room takes every room of its id from each of the three places where the manager keeps rooms,
-- the open public one, those to be joined by their id and those that are full, and leaves every room
-- of another id at the place where it was.
pub handle_msg-close :
    (s : LobbyManager) (id j : GameId) (info : LobbyInfo)
    → let t = (handle_msg (close_lobby_msg id) s).0 in
      ((t.open_lobby ≡ some info) ↔ ((info.game_id ≢ id) × (s.open_lobby ≡ some info)))
      × ((lookup j t.open_lobby_map ≡ some info)
          ↔ ((j ≢ id) × (lookup j s.open_lobby_map ≡ some info)))
      × ((lookup j t.closed_lobby_map ≡ some info)
          ↔ ((j ≢ id) × (lookup j s.closed_lobby_map ≡ some info)))
unfolding handle_msg
handle_msg-close s id j info = (
  close_open_iff id s.open_lobby info,
  remove_iff id j s.open_lobby_map info,
  remove_iff id j s.closed_lobby_map info,
)
