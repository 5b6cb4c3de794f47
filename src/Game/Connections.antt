-- ===== src/Game/Connections.antt =====
-- src/game/connection_mgr.rs: the connections of the server and who is online. Session tokens of
-- both kinds are compared and passed on, so numbers stand for them; instants are milliseconds; the
-- addresses of new actors and the new token are an argument, `Fresh`. Maps are walked in list order.
pub mod Presence
pub mod Sweep
pub mod Run
pub mod Handle
pub mod Cleanup
use fourinarow_server.Base.{
  length, Dict, lookup, remove, insert, leb, ◌==◌, if◌then◌else◌, is_some, ℕ, ◌-◌, ◌/◌, String,
  Bool, true, false, Option, none, some, List, [], ◌∷◌, ◌++◌,
}
use fourinarow_server.Game.Message.{Addr, UserId, SessionToken, Instant, GameMsgOut, ServerMessage}

abbrev pub WsToken : Type 0
WsToken = ℕ

abbrev pub connection_keepalive_seconds : ℕ
connection_keepalive_seconds = 30

pub data ConnectionState : Type 0 where
  connected : Addr → ConnectionState
  disconnected : Instant → ConnectionState

pub record Connection : Type 0 where
  pub adapter_addr : Addr
  pub state_addr : Addr
  pub state : ConnectionState
  pub user_id : Option UserId

-- An entry of `user_to_session`.
pub record Session : Type 0 where
  pub ws_token : WsToken
  pub api_token : SessionToken

-- `lobby_mgr` is the address of a linked `BacklinkState`.
pub record ConnectionManager : Type 0 where
  pub lobby_mgr : Option Addr
  pub connections : Dict Connection
  pub user_to_session : Dict Session
  pub player_in_queue : Bool
  pub send_server_info_batched : Bool

pub data ConnectionType : Type 0 where
  reliable : Bool → ConnectionType
  legacy : ConnectionType

-- `Disconnect` is two constructors, by its `is_legacy`; of the addresses of a request only that of
-- the client's connection is used here.
pub data ConnectionManagerMsg : Type 0 where
  disconnect disconnect_legacy : Addr → WsToken → ConnectionManagerMsg
  update : Bool → ConnectionManagerMsg
  chat_message : WsToken → String → ConnectionManagerMsg
  chat_read : WsToken → ConnectionManagerMsg
  backlink : Addr → ConnectionManagerMsg
  request_adapter_new : Addr → ConnectionManagerMsg
  request_adapter_existing : Addr → WsToken → ConnectionManagerMsg
  request_adapter_legacy : Addr → Option String → ConnectionManagerMsg
  bind_user : UserId → SessionToken → WsToken → ConnectionManagerMsg
  unbind_user : UserId → SessionToken → ConnectionManagerMsg

-- The messages to the adapter of a client, to its state and to its connection, the actors that are
-- started, and the record of a user who went offline.
pub data Effect : Type 0 where
  close_adapter disconnect_adapter : Addr → Effect
  connect_adapter : Addr → Addr → Effect
  server_state : Addr → ℕ → Bool → Effect
  to_state : Addr → ServerMessage → Effect
  connect_client : Addr → WsToken → Addr → ConnectionType → Effect
  start_state : Addr → WsToken → Effect
  start_adapter start_legacy_adapter : Addr → Addr → Addr → Effect
  client_line : Addr → String → Effect
  log_offline : UserId → Effect
  notify_self : ConnectionManagerMsg → Effect

pub record Fresh : Type 0 where
  pub session_token : WsToken
  pub state_addr : Addr
  pub adapter_addr : Addr

unfoldable pub new : ConnectionManager
new = record {
  lobby_mgr = none;
  connections = [];
  user_to_session = [];
  player_in_queue = false;
  send_server_info_batched = false;
}

abbrev pub Step : Type 0
Step = ConnectionManager × List Effect
