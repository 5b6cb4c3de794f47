-- ===== src/Game/Client.antt =====
-- src/game/client_state.rs: what the server keeps of one client, and the messages of the server's
-- other parts to it. A request whose answer the client waits for is an effect, and its continuation
-- a handler of the answer; the address of the client's own actor is a field.
pub mod Play
pub mod Lobbies
pub mod Calm
pub mod Presence
use fourinarow_server.Base.{
  if◌then◌else◌, ℕ, String, Bool, true, false, Option, none, some, List, [], ◌∷◌, ◌++◌,
}
use fourinarow_server.Game.Error.{internal}
use fourinarow_server.Game.Message.{
  Addr, UserId, SessionToken, GameMsgIn, GameMsgOut, ServerMessage,
}
use fourinarow_server.Game.Board.{Player, one}
use fourinarow_server.Game.Lobby.{ClientLobbyMessage, player_leaving, PlayerLeaveReason}
use fourinarow_server.Game.Manager.{LobbyRequest, LobbyRequestResponse, Response, granted, denied}
use fourinarow_server.Game.Adapter.{ClientAdapterMsg}
use fourinarow_server.Game.Connections.{WsToken, ConnectionManagerMsg, bind_user, unbind_user}

pub data PublicFriendState : Type 0 where
  is_friend is_requested_by_me has_requested_me : PublicFriendState

pub record PublicFriend : Type 0 where
  pub user : UserId
  pub friend_state : PublicFriendState

-- The fields of `PublicUserMe` that the client's state reads.
pub record PublicUserMe : Type 0 where
  pub id : UserId
  pub username : String
  pub friendships : List PublicFriend

pub data ClientLobbyState : Type 0 where
  idle : ClientLobbyState
  waiting_for_host in_lobby : Player → Addr → ClientLobbyState

-- `adapter` is the address of a linked `BacklinkState`.
pub record ClientState : Type 0 where
  pub id : WsToken
  pub address : Addr
  pub adapter : Option Addr
  pub lobby_state : ClientLobbyState
  pub maybe_user_info : Option PublicUserMe
  pub maybe_api_token : Option SessionToken

pub data ClientStateMessage : Type 0 where
  back_link : Addr → ClientStateMessage
  reset close : ClientStateMessage
  battle_req_join_lobby : Addr → ClientStateMessage
  current_server_state : ℕ → Bool → Bool → ClientStateMessage

-- `request_lobby`, `start_playing` and `ask_game` are the requests whose answer is waited for.
pub data Effect : Type 0 where
  to_adapter : Addr → ServerMessage → Effect
  control_adapter : Addr → ClientAdapterMsg → Effect
  to_lobby : Addr → Player → ClientLobbyMessage → Effect
  lobby_pong : Addr → Effect
  request_lobby : LobbyRequest → Effect
  start_playing : SessionToken → Effect
  ask_game : UserId → GameMsgIn → Effect
  stop_playing : UserId → Effect
  battle_req : UserId → UserId → Effect
  to_connections : ConnectionManagerMsg → Effect
  push_to_user : UserId → GameMsgOut → Effect
  notify_self : ClientStateMessage → Effect
  stop : Effect

abbrev pub Step : Type 0
Step = ClientState × List Effect

unfoldable pub new : WsToken → Addr → ClientState
new id address = record {
  id = id;
  address = address;
  adapter = none;
  lobby_state = idle;
  maybe_user_info = none;
  maybe_api_token = none;
}

abbrev pub in_place : ClientLobbyState → ClientState → ClientState
in_place p s = record s { lobby_state = p }

-- The answer of the lobby manager, or none of a manager that cannot be reached.
unfoldable pub received_lobby_request_response : Addr → Option Response → ClientState → Step
received_lobby_request_response a none s =
    (s, to_adapter a (ServerMessage.error (some internal)) ∷ [])
received_lobby_request_response a (some (denied e)) s =
    (s, to_adapter a (ServerMessage.error (some e)) ∷ [])
received_lobby_request_response a (some (granted r)) s = (
  if r.waiting
      then in_place (waiting_for_host r.player r.lobby_addr) s
      else in_place (in_lobby r.player r.lobby_addr) s,
  [],
)

leave_lobby : PlayerLeaveReason → ClientLobbyState → List Effect
leave_lobby r (in_lobby player lobby) = to_lobby lobby player (player_leaving r) ∷ []
leave_lobby r _ = []

-- `Close` sets a client in a lobby idle, and leaves one that waits for the host where it is.
close_state : ClientLobbyState → ClientLobbyState
close_state (in_lobby player lobby) = idle
close_state p = p

server_state : ℕ → Bool → Bool → Option Addr → List Effect
server_state n queued again (some a) =
    to_adapter a (ServerMessage.current_server_state n queued) ∷ []
server_state n queued true none = stop ∷ []
server_state n queued false none = notify_self (current_server_state n queued true) ∷ []

-- `Handler<ClientStateMessage>`.
unfoldable pub handle : ClientStateMessage → ClientState → Step
unfolding leave_lobby close_state server_state
handle (back_link a) s =
    (elim s.adapter [ none ↦ record s { adapter = some a } | some linked ↦ s ], [])
handle close s = (
  in_place (close_state s.lobby_state) s,
  leave_lobby PlayerLeaveReason.disconnect s.lobby_state ++ stop ∷ [],
)
handle reset s = (in_place idle s, [])
handle (battle_req_join_lobby lobby) s =
    (elim s.adapter [ none ↦ s | some linked ↦ in_place (in_lobby one lobby) s ], [])
handle (current_server_state n queued again) s = (s, server_state n queued again s.adapter)

tell_friend : UserId → UserId → PublicFriendState → List Effect → List Effect
tell_friend u friend is_friend out = push_to_user friend (GameMsgOut.friend_online u) ∷ out
tell_friend u friend is_requested_by_me out = out
tell_friend u friend has_requested_me out = out

friend_online : UserId → List PublicFriend → List Effect
unfolding tell_friend
friend_online u [] = []
friend_online u (f ∷ fs) = tell_friend u f.user f.friend_state (friend_online u fs)

-- The answer of the user manager to `StartPlaying`, or none of one that refuses or cannot be reached.
unfoldable pub login_answered : Addr → SessionToken → Option PublicUserMe → ClientState → Step
unfolding friend_online
login_answered a token none s = (s, to_adapter a (ServerMessage.login_response false) ∷ [])
login_answered a token (some user) s = (
  record s { maybe_user_info = some user; maybe_api_token = some token },
  to_connections (bind_user user.id token s.id)
      ∷ (friend_online user.id user.friendships
          ++ to_adapter a (ServerMessage.login_response true) ∷ []),
)

-- The answer to a request about the game's progress.
unfoldable pub game_answered : Addr → Option GameMsgOut → List Effect
game_answered a none = []
game_answered a (some m) = to_adapter a (ServerMessage.game_protocol m) ∷ []

-- `Handler<ServerMessage>`, with whether it succeeds, and `Handler<ClientAdapterMsg>`.
unfoldable pub handle_server_message : ServerMessage → ClientState → List Effect × Bool
handle_server_message m s = elim s.adapter [
  | none ↦ ([], false)
  | some a ↦ (to_adapter a m ∷ [], true)
]

unfoldable pub handle_adapter_msg : ClientAdapterMsg → ClientState → List Effect
handle_adapter_msg m s = elim s.adapter [ none ↦ [] | some a ↦ control_adapter a m ∷ [] ]

-- `Handler<LobbyRequestResponseReady>`.
unfoldable pub response_ready : ClientState → ClientState
response_ready s = elim s.lobby_state [
  | idle ↦ s
  | waiting_for_host player lobby ↦ in_place (in_lobby player lobby) s
  | in_lobby player lobby ↦ s
]

goodbye : UserId → Option SessionToken → List Effect
goodbye u none = stop_playing u ∷ []
goodbye u (some token) = stop_playing u ∷ to_connections (unbind_user u token) ∷ []

-- `Actor::stopping`; the token is taken when it is used.
unfoldable pub stopping : ClientState → Step
unfolding goodbye handle_adapter_msg
stopping s =
    let closing = handle_adapter_msg ClientAdapterMsg.close s in
    elim s.maybe_user_info [
      | none ↦ (s, closing)
      | some user ↦
          (record s { maybe_api_token = none }, goodbye user.id s.maybe_api_token ++ closing)
    ]
