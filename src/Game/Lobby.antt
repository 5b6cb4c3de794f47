-- ===== src/Game/Lobby.antt =====
-- src/game/lobby.rs: one room. A handler returns the lobby, the effects in order and its result;
-- what it draws at random (the first turn, the id of a game, a timer's handle) is an argument.
pub mod Run
pub mod Sound
pub mod Settle
pub mod Play
pub mod Handle
use fourinarow_server.Base.{
  ltb, if◌then◌else◌, ℕ, ◌-◌, String, Bool, true, false, Option, none, some, List, [], ◌∷◌, ◌++◌,
}
use fourinarow_server.Game.Error.{SrvMsgError, game_not_started, game_not_over}
use fourinarow_server.Game.Message.{Addr, UserId, GameId, Instant, ServerMessage}
use fourinarow_server.Game.Board.{
  Player, one, two, same, other, select, select_both, GameInfo, WinnerInfo, Placed, placed, refused,
  new, reset, place_chip,
}

abbrev pub lobby_timeout_ms : ℕ
lobby_timeout_ms = 1800000

abbrev pub game_start_delay_s : ℕ
game_start_delay_s = 2

abbrev pub game_ready_response_timeout_ms : ℕ
game_ready_response_timeout_ms = 5000

pub data GameType : Type 0 where
  anonymous : GameInfo → GameType
  registered : GameInfo → UserId → UserId → GameType

pub record LobbyPlayerInfo : Type 0 where
  pub addr : Addr
  pub maybe_uid : Option UserId

-- The fields of `TwoPlayers` are the id of the game, its kind, and the addresses of host and guest.
pub data LobbyState : Type 0 where
  one_player : LobbyPlayerInfo → LobbyState
  two_players_waiting : LobbyPlayerInfo → LobbyPlayerInfo → ℕ → LobbyState
  two_players : ℕ → GameType → Addr → Addr → LobbyState

pub record Lobby : Type 0 where
  pub lobby_id : ℕ
  pub game_id : GameId
  pub lobby_state : LobbyState
  pub last_hb : Instant

pub data PlayerLeaveReason : Type 0 where
  leave disconnect : PlayerLeaveReason

pub data GameEndReason : Type 0 where
  regular player_left player_disconnected : GameEndReason

pub data ClientLobbyMessage : Type 0 where
  player_leaving : PlayerLeaveReason → ClientLobbyMessage
  play_again_request : ClientLobbyMessage
  place_chip_at : ℕ → ClientLobbyMessage
  chat_message : String → Option String → ClientLobbyMessage
  chat_read : ClientLobbyMessage

pub data LobbyMessage : Type 0 where
  received_ready_for_game_pong game_start lobby_close : LobbyMessage
  player_joined : Addr → Option UserId → LobbyMessage

pub data Effect : Type 0 where
  to_client : Addr → ServerMessage → Effect
  reset_client response_ready : Addr → Effect
  close_lobby : GameId → Effect
  played_game : ℕ → UserId → UserId → Effect
  log_lobby_closed : ℕ → Effect
  log_start_game : ℕ → Bool → Effect
  log_end_game : ℕ → GameEndReason → Effect
  start_timeout : ℕ → ℕ → Effect
  cancel_timeout : ℕ → Effect
  notify_self : LobbyMessage → Effect
  notify_later : ℕ → LobbyMessage → Effect
  stop : Effect

pub data Reply : Type 0 where
  ok failed : Reply

pub record Outcome : Type 0 where
  pub lobby : Lobby
  pub out : List Effect
  pub reply : Reply

abbrev answer : Lobby → List Effect → Reply → Outcome
answer l out r = record { lobby = l; out = out; reply = r }

pub record Fresh : Type 0 where
  pub coin : Player
  pub game_oid : ℕ
  pub handle : ℕ

unfoldable pub new_lobby : ℕ → GameId → Addr → Option UserId → Instant → Lobby
new_lobby id game host uid now = record {
  lobby_id = id;
  game_id = game;
  lobby_state = one_player (record { addr = host; maybe_uid = uid });
  last_hb = now;
}
