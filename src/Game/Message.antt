-- ===== src/Game/Message.antt =====
-- src/game/msg.rs: what clients and server say to one another. Actor addresses, user ids, game ids,
-- session tokens and instants are only compared and passed on: a number stands for each.
use fourinarow_server.Base.{ℤ, ℕ, String, Bool, true, false, Option, List}
use fourinarow_server.Game.Error.{SrvMsgError}

abbrev pub Addr : Type 0
Addr = ℕ

abbrev pub UserId : Type 0
UserId = ℕ

abbrev pub GameId : Type 0
GameId = ℕ

abbrev pub SessionToken : Type 0
SessionToken = ℕ

abbrev pub Instant : Type 0
Instant = ℕ

pub data LobbyKind : Type 0 where
  private_lobby public_lobby : LobbyKind

unfoldable pub same_kind : LobbyKind → LobbyKind → Bool
same_kind private_lobby private_lobby = true
same_kind public_lobby public_lobby = true
same_kind _ _ = false

pub data GameMsgIn : Type 0 where
  start_game : GameMsgIn
  level_page : ℤ → ℤ → ℕ → GameMsgIn
  complete_level : ℤ → ℤ → ℤ → GameMsgIn

pub record LeaderboardEntry : Type 0 where
  pub user_id : UserId
  pub username : String
  pub rank : ℤ
  pub score : ℤ

pub record ModeStatus : Type 0 where
  pub mode : ℤ
  pub unlocked : Bool
  pub current_level : ℤ
  pub total_levels : ℤ

pub record LevelEntry : Type 0 where
  pub id : ℤ
  pub mode : ℤ
  pub best_stars : ℤ
  pub level_min : ℤ
  pub level_max : ℤ
  pub chapter : ℤ
  pub ammo_count : ℤ
  pub triple_star : ℤ
  pub double_star : ℤ
  pub single_star : ℤ
  pub scene_id : ℤ

pub record RewardEntry : Type 0 where
  pub item_id : String
  pub amount : ℤ

pub data GameMsgOut : Type 0 where
  friend_online : UserId → GameMsgOut
  achievement_unlocked : String → ℤ → GameMsgOut
  leaderboard_update : List LeaderboardEntry → GameMsgOut
  start_game_resp : List ModeStatus → List LevelEntry → GameMsgOut
  level_page_resp : List LevelEntry → Bool → GameMsgOut
  complete_level_resp : Bool → ℤ → List RewardEntry → GameMsgOut
  quest_completed : String → String → GameMsgOut
  progressive_milestone : String → ℤ → GameMsgOut
  new_inbox_message : ℤ → String → Bool → GameMsgOut

pub data ServerMessage : Type 0 where
  place_chip : ℕ → ServerMessage
  opponent_leaving opponent_joining : ServerMessage
  game_start : Bool → Option UserId → ServerMessage
  game_over : Bool → ServerMessage
  lobby_closing ready_for_game_ping : ServerMessage
  login_response : Bool → ServerMessage
  error : Option SrvMsgError → ServerMessage
  battle_req : UserId → GameId → ServerMessage
  current_server_state : ℕ → Bool → ServerMessage
  chat_message : Bool → String → Option String → ServerMessage
  chat_read : Bool → ServerMessage
  close_other_client_login : ServerMessage
  game_protocol : GameMsgOut → ServerMessage

pub data PlayerMessage : Type 0 where
  place_chip : ℕ → PlayerMessage
  play_again_request leaving ready_for_game_pong : PlayerMessage
  lobby_request : LobbyKind → PlayerMessage
  lobby_join : GameId → PlayerMessage
  login : SessionToken → PlayerMessage
  logout : PlayerMessage
  battle_req : UserId → PlayerMessage
  chat_message : String → PlayerMessage
  chat_read : PlayerMessage
  game_protocol : GameMsgIn → PlayerMessage

pub data ReliabilityError : Type 0 where
  invalid_content invalid_format unknown_message kill_client : ReliabilityError

pub data ReliablePacketIn : Type 0 where
  ack : ℕ → ReliablePacketIn
  msg : ℕ → PlayerMessage → ReliablePacketIn

pub data ReliablePacketOut : Type 0 where
  ack : ℕ → ReliablePacketOut
  msg : ℕ → ServerMessage → ℕ → ReliablePacketOut
  err : ReliabilityError → ReliablePacketOut
