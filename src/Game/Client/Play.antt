-- ===== src/Game/Client/Play.antt =====
-- src/game/client_state.rs: the messages of the client itself, `Handler<PlayerMessage>`.
use fourinarow_server.Base.{String, Bool, true, false, Option, none, some, List, [], ◌∷◌, ◌++◌}
use fourinarow_server.Game.Error.{SrvMsgError, not_in_lobby, already_in_lobby, not_logged_in}
use fourinarow_server.Game.Message.{
  Addr, UserId, SessionToken, GameMsgIn, PlayerMessage, ServerMessage, private_lobby,
}
use fourinarow_server.Game.Lobby.{
  ClientLobbyMessage, player_leaving, play_again_request, place_chip_at, PlayerLeaveReason,
}
use fourinarow_server.Game.Manager.{LobbyRequest, new_lobby, join_lobby}
use fourinarow_server.Game.Connections.{ConnectionManagerMsg}
use fourinarow_server.Game.Client.{
  PublicUserMe, ClientLobbyState, idle, in_lobby, ClientState, Effect, to_adapter, to_lobby,
  lobby_pong, request_lobby, start_playing, ask_game, stop_playing, battle_req, to_connections,
  in_place,
}

-- The state, the effects and whether the handler succeeds.
pub record Outcome : Type 0 where
  pub state : ClientState
  pub out : List Effect
  pub succeeds : Bool

abbrev pub answer : ClientState → List Effect → Bool → Outcome
answer s out ok = record { state = s; out = out; succeeds = ok }

abbrev pub refuse : Addr → SrvMsgError → ClientState → Outcome
refuse a e s = answer s (to_adapter a (ServerMessage.error (some e)) ∷ []) false

-- A message to the game that the client is in.
unfoldable pub in_game : Addr → ClientLobbyMessage → ClientLobbyState → ClientState → Outcome
in_game a m (in_lobby player lobby) s = answer s (to_lobby lobby player m ∷ []) true
in_game a m _ s = refuse a not_in_lobby s

unfoldable pub leave : Addr → ClientLobbyState → ClientState → Outcome
leave a (in_lobby player lobby) s =
    answer (in_place idle s) (to_lobby lobby player (player_leaving PlayerLeaveReason.leave) ∷ [])
      true
leave a _ s =
    answer (in_place idle s) (to_adapter a (ServerMessage.error (some not_in_lobby)) ∷ []) true

abbrev pub user_id : ClientState → Option UserId
user_id s = elim s.maybe_user_info [ none ↦ none | some user ↦ some user.id ]

unfoldable pub ask_lobby : Addr → LobbyRequest → ClientLobbyState → ClientState → Outcome
ask_lobby a r idle s = answer s (request_lobby r ∷ []) true
ask_lobby a r _ s = refuse a already_in_lobby s

unfoldable pub stop_former : Option PublicUserMe → List Effect
stop_former none = []
stop_former (some user) = stop_playing user.id ∷ []

unfoldable pub login : Addr → SessionToken → ClientLobbyState → ClientState → Outcome
unfolding stop_former
login a token (in_lobby player lobby) s = refuse a already_in_lobby s
login a token _ s = answer s (stop_former s.maybe_user_info ++ start_playing token ∷ []) true

unfoldable pub logout : ClientState → Outcome
unfolding stop_former
logout s = answer (record s { maybe_user_info = none }) (stop_former s.maybe_user_info) true

unfoldable pub challenge :
    Addr → UserId → ClientLobbyState → Option PublicUserMe → ClientState → Outcome
challenge a friend idle (some user) s = answer s (battle_req user.id friend ∷ []) true
challenge a friend idle none s = refuse a not_logged_in s
challenge a friend _ user s = refuse a already_in_lobby s

-- Chat goes to the game or, outside of one, to everybody.
unfoldable pub chat :
    ClientLobbyMessage → ConnectionManagerMsg → ClientLobbyState → ClientState → Outcome
chat m to_all (in_lobby player lobby) s = answer s (to_lobby lobby player m ∷ []) true
chat m to_all _ s = answer s (to_connections to_all ∷ []) true

unfoldable pub pong : ClientLobbyState → ClientState → Outcome
pong (in_lobby player lobby) s = answer s (lobby_pong lobby ∷ []) true
pong _ s = answer s [] false

unfoldable pub ask_progress : GameMsgIn → Option UserId → List Effect
ask_progress m none = []
ask_progress m (some u) = ask_game u m ∷ []

abbrev pub username : ClientState → Option String
username s = elim s.maybe_user_info [ none ↦ none | some user ↦ some user.username ]

-- The handler of a client whose adapter has that address.
unfoldable pub play : Addr → PlayerMessage → ClientState → Outcome
unfolding in_game leave ask_lobby login logout challenge chat pong ask_progress
play a (PlayerMessage.place_chip c) s = in_game a (place_chip_at c) s.lobby_state s
play a PlayerMessage.play_again_request s = in_game a play_again_request s.lobby_state s
play a PlayerMessage.leaving s = leave a s.lobby_state s
play a (PlayerMessage.lobby_request kind) s =
    ask_lobby a (new_lobby s.address (user_id s) kind) s.lobby_state s
play a (PlayerMessage.lobby_join id) s =
    ask_lobby a (join_lobby id s.address (user_id s) private_lobby) s.lobby_state s
play a (PlayerMessage.login token) s = login a token s.lobby_state s
play a PlayerMessage.logout s = logout s
play a (PlayerMessage.battle_req friend) s = challenge a friend s.lobby_state s.maybe_user_info s
play a (PlayerMessage.chat_message text) s =
    chat (ClientLobbyMessage.chat_message text (username s))
      (ConnectionManagerMsg.chat_message s.id text) s.lobby_state s
play a PlayerMessage.chat_read s =
    chat ClientLobbyMessage.chat_read (ConnectionManagerMsg.chat_read s.id) s.lobby_state s
play a PlayerMessage.ready_for_game_pong s = pong s.lobby_state s
play a (PlayerMessage.game_protocol m) s = answer s (ask_progress m (user_id s)) true

-- `Handler<PlayerMessage>`.
unfoldable pub handle_player : PlayerMessage → ClientState → Outcome
unfolding play
handle_player m s = elim s.adapter [ none ↦ answer s [] false | some a ↦ play a m s ]
