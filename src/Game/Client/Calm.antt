-- ===== src/Game/Client/Calm.antt =====
-- What a client of src/game/client_state.rs does between its logins and logouts leaves its user, as
-- the connection manager sees it.
use fourinarow_server.Base.{
  All, Bool-cases, Option-cases, ℕ, ◌≡◌, refl, inl, inr, Bool, true, false, Option, none, some, [],
  ◌∷◌, ◌++◌, arith,
}
use fourinarow_server.Game.Message.{Addr, UserId, GameMsgIn, PlayerMessage}
use fourinarow_server.Game.Lobby.{ClientLobbyMessage, PlayerLeaveReason}
use fourinarow_server.Game.Manager.{LobbyRequest, Response, granted, denied}
use fourinarow_server.Game.Connections.{ConnectionManagerMsg, chat_message, chat_read}
use fourinarow_server.Game.Client
use fourinarow_server.Game.Client.{
  Effect, PublicUserMe, ClientLobbyState, idle, waiting_for_host, in_lobby, ClientState,
  ClientStateMessage, back_link, reset, close, battle_req_join_lobby, current_server_state, Step,
  to_connections, stop, leave_lobby, server_state, received_lobby_request_response, response_ready,
}
use fourinarow_server.Game.Client.Play.{
  handle_player, play, user_id, in_game, leave, ask_lobby, challenge, chat, pong, ask_progress,
}

-- What the actor of a client handles, apart from the answers to its logins.
pub data Event : Type 0 where
  said : PlayerMessage → Event
  told : ClientStateMessage → Event
  answered : Addr → Option Response → Event
  host_ready : Event

unfoldable pub step : Event → ClientState → Step
step (said m) s = ((handle_player m s).state, (handle_player m s).out)
step (told m) s = Client.handle m s
step (answered a response) s = received_lobby_request_response a response s
step host_ready s = (response_ready s, [])

-- Anything but a login or a logout.
abbrev pub IsOther : Event → Type 0
IsOther (said (PlayerMessage.login token)) = ⊥
IsOther (said PlayerMessage.logout) = ⊥
IsOther _ = Unit

abbrev pub Quiet : Effect → Type 0
Quiet (to_connections (chat_message token text)) = Unit
Quiet (to_connections (chat_read token)) = Unit
Quiet (to_connections _) = ⊥
Quiet _ = Unit

-- The user and the token stay, and the connection manager is sent nothing but chat.
abbrev Calm : ClientState → Step → Type 0
Calm s (t, out) =
    (t.maybe_user_info ≡ s.maybe_user_info)
    × (t.maybe_api_token ≡ s.maybe_api_token)
    × All Quiet out

in_game-Calm :
    (a : Addr) (m : ClientLobbyMessage) (p : ClientLobbyState) (s : ClientState)
    → Calm s ((in_game a m p s).state, (in_game a m p s).out)
unfolding in_game
in_game-Calm a m idle s = (refl, refl, (tt, tt))
in_game-Calm a m (waiting_for_host player lobby) s = (refl, refl, (tt, tt))
in_game-Calm a m (in_lobby player lobby) s = (refl, refl, (tt, tt))

leave-Calm :
    (a : Addr) (p : ClientLobbyState) (s : ClientState)
    → Calm s ((leave a p s).state, (leave a p s).out)
unfolding leave
leave-Calm a idle s = (refl, refl, (tt, tt))
leave-Calm a (waiting_for_host player lobby) s = (refl, refl, (tt, tt))
leave-Calm a (in_lobby player lobby) s = (refl, refl, (tt, tt))

ask_lobby-Calm :
    (a : Addr) (r : LobbyRequest) (p : ClientLobbyState) (s : ClientState)
    → Calm s ((ask_lobby a r p s).state, (ask_lobby a r p s).out)
unfolding ask_lobby
ask_lobby-Calm a r idle s = (refl, refl, (tt, tt))
ask_lobby-Calm a r (waiting_for_host player lobby) s = (refl, refl, (tt, tt))
ask_lobby-Calm a r (in_lobby player lobby) s = (refl, refl, (tt, tt))

challenge-Calm :
    (a : Addr) (friend : UserId) (p : ClientLobbyState) (u : Option PublicUserMe) (s : ClientState)
    → Calm s ((challenge a friend p u s).state, (challenge a friend p u s).out)
unfolding challenge
challenge-Calm a friend idle none s = (refl, refl, (tt, tt))
challenge-Calm a friend idle (some user) s = (refl, refl, (tt, tt))
challenge-Calm a friend (waiting_for_host player lobby) u s = (refl, refl, (tt, tt))
challenge-Calm a friend (in_lobby player lobby) u s = (refl, refl, (tt, tt))

chat-Calm :
    (m : ClientLobbyMessage) (to_all : ConnectionManagerMsg) (p : ClientLobbyState)
    (s : ClientState)
    → Quiet (to_connections to_all)
    → Calm s ((chat m to_all p s).state, (chat m to_all p s).out)
unfolding chat
chat-Calm m to_all idle s quiet = (refl, refl, (quiet, tt))
chat-Calm m to_all (waiting_for_host player lobby) s quiet = (refl, refl, (quiet, tt))
chat-Calm m to_all (in_lobby player lobby) s quiet = (refl, refl, (tt, tt))

pong-Calm : (p : ClientLobbyState) (s : ClientState) → Calm s ((pong p s).state, (pong p s).out)
unfolding pong
pong-Calm idle s = (refl, refl, tt)
pong-Calm (waiting_for_host player lobby) s = (refl, refl, tt)
pong-Calm (in_lobby player lobby) s = (refl, refl, (tt, tt))

ask_progress-Quiet : (m : GameMsgIn) (u : Option UserId) → All Quiet (ask_progress m u)
unfolding ask_progress
ask_progress-Quiet m none = tt
ask_progress-Quiet m (some u) = (tt, tt)

play-Calm :
    (a : Addr) (m : PlayerMessage) (s : ClientState)
    → IsOther (said m)
    → Calm s ((play a m s).state, (play a m s).out)
unfolding play
play-Calm a (PlayerMessage.place_chip c) s other = in_game-Calm a _ s.lobby_state s
play-Calm a PlayerMessage.play_again_request s other = in_game-Calm a _ s.lobby_state s
play-Calm a PlayerMessage.leaving s other = leave-Calm a s.lobby_state s
play-Calm a (PlayerMessage.lobby_request kind) s other = ask_lobby-Calm a _ s.lobby_state s
play-Calm a (PlayerMessage.lobby_join id) s other = ask_lobby-Calm a _ s.lobby_state s
play-Calm a (PlayerMessage.login token) s other = absurd other
play-Calm a PlayerMessage.logout s other = absurd other
play-Calm a (PlayerMessage.battle_req friend) s other =
    challenge-Calm a friend s.lobby_state s.maybe_user_info s
play-Calm a (PlayerMessage.chat_message text) s other = chat-Calm _ _ s.lobby_state s tt
play-Calm a PlayerMessage.chat_read s other = chat-Calm _ _ s.lobby_state s tt
play-Calm a PlayerMessage.ready_for_game_pong s other = pong-Calm s.lobby_state s
play-Calm a (PlayerMessage.game_protocol m) s other = (refl, refl, ask_progress-Quiet m (user_id s))

handle_player-Calm :
    (m : PlayerMessage) (s : ClientState)
    → IsOther (said m)
    → Calm s ((handle_player m s).state, (handle_player m s).out)
unfolding handle_player
handle_player-Calm m s other = elim (Option-cases s.adapter) [
  | inl e ↦ rw (e, handle_player) (refl, refl, tt)
  | inr (a, e) ↦ rw (e, handle_player) (play-Calm a m s other)
]

leave_lobby-Quiet :
    (r : PlayerLeaveReason) (p : ClientLobbyState) → All Quiet (leave_lobby r p ++ stop ∷ [])
unfolding leave_lobby
leave_lobby-Quiet r idle = (tt, tt)
leave_lobby-Quiet r (waiting_for_host player lobby) = (tt, tt)
leave_lobby-Quiet r (in_lobby player lobby) = (tt, (tt, tt))

server_state-Quiet :
    (n : ℕ) (queued again : Bool) (a : Option Addr) → All Quiet (server_state n queued again a)
unfolding server_state
server_state-Quiet n queued again (some a) = (tt, tt)
server_state-Quiet n queued true none = (tt, tt)
server_state-Quiet n queued false none = (tt, tt)

handle-Calm : (m : ClientStateMessage) (s : ClientState) → Calm s (Client.handle m s)
unfolding Client.handle
handle-Calm (back_link a) s = elim (Option-cases s.adapter) [
  | inl e ↦ rw (e, Client.handle) (refl, refl, tt)
  | inr (linked, e) ↦ rw (e, Client.handle) (refl, refl, tt)
]
handle-Calm close s = (refl, refl, leave_lobby-Quiet PlayerLeaveReason.disconnect s.lobby_state)
handle-Calm reset s = (refl, refl, tt)
handle-Calm (battle_req_join_lobby lobby) s = elim (Option-cases s.adapter) [
  | inl e ↦ rw (e, Client.handle) (refl, refl, tt)
  | inr (linked, e) ↦ rw (e, Client.handle) (refl, refl, tt)
]
handle-Calm (current_server_state n queued again) s =
    (refl, refl, server_state-Quiet n queued again s.adapter)

answered-Calm :
    (a : Addr) (response : Option Response) (s : ClientState)
    → Calm s (received_lobby_request_response a response s)
unfolding received_lobby_request_response
answered-Calm a none s = (refl, refl, (tt, tt))
answered-Calm a (some (denied e)) s = (refl, refl, (tt, tt))
answered-Calm a (some (granted r)) s = elim (Bool-cases r.waiting) [
  | inl waiting ↦ rw waiting (refl, refl, tt)
  | inr ready ↦ rw ready (refl, refl, tt)
]

response_ready-Calm : (s : ClientState) → Calm s (response_ready s, [])
unfolding response_ready
response_ready-Calm s = (ground arith, ground arith, tt)

pub step-Calm : (e : Event) (s : ClientState) → IsOther e → Calm s (step e s)
unfolding step
step-Calm (said m) s other = handle_player-Calm m s other
step-Calm (told m) s other = handle-Calm m s
step-Calm (answered a response) s other = answered-Calm a response s
step-Calm host_ready s other = response_ready-Calm s
