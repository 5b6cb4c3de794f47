-- ===== src/Game/Client/Lobbies.antt =====
-- A client of src/game/client_state.rs and the rooms: which room its messages reach, and how two
-- clients come into one.
use fourinarow_server.Base.{
  All, Any, Option-cases, ℕ, ◌≡◌, refl, ◌↔◌, inl, inr, Option, none, some, List, [], ◌∷◌, ◌++◌,
  arith,
}
use fourinarow_server.Game.Error.{already_in_lobby}
use fourinarow_server.Game.Message.{
  Addr, UserId, GameId, GameMsgIn, PlayerMessage, ServerMessage, LobbyKind, public_lobby,
}
use fourinarow_server.Game.Board.{Player, one, two}
use fourinarow_server.Game.Lobby.{ClientLobbyMessage, player_leaving, PlayerLeaveReason}
use fourinarow_server.Game.Manager.{
  Fresh, LobbyManager, LobbyRequest, new_lobby, handle_request, generate,
}
use fourinarow_server.Game.Manager.Matching.{handle_request-match}
use fourinarow_server.Game.Connections.{ConnectionManagerMsg}
use fourinarow_server.Game.Client.{
  Effect, PublicUserMe, ClientLobbyState, idle, waiting_for_host, in_lobby, ClientState, to_lobby,
  lobby_pong, start_playing, stop, in_place, to_adapter, request_lobby, close, handle,
  received_lobby_request_response, response_ready, leave_lobby,
}
use fourinarow_server.Game.Client.Play.{
  user_id, in_game, leave, ask_lobby, login, logout, challenge, chat, pong, ask_progress,
  stop_former, play, handle_player,
}

-- A message to a room goes to the one that the client is in, in the name of the client's own place.
abbrev pub OwnPlace : ClientLobbyState → Effect → Type 0
OwnPlace p (to_lobby lobby player m) = p ≡ in_lobby player lobby
OwnPlace p (lobby_pong lobby) = (player : Player) × (p ≡ in_lobby player lobby)
OwnPlace p _ = Unit

stop_former-OwnPlace :
    (p : ClientLobbyState) (u : Option PublicUserMe) (token : ℕ)
    → All (OwnPlace p) (stop_former u)
      × All (OwnPlace p) (stop_former u ++ start_playing token ∷ [])
unfolding stop_former
stop_former-OwnPlace p none token = (tt, (tt, tt))
stop_former-OwnPlace p (some user) token = ((tt, tt), (tt, (tt, tt)))

in_game-OwnPlace :
    (a : Addr) (m : ClientLobbyMessage) (p : ClientLobbyState) (s : ClientState)
    → All (OwnPlace p) (in_game a m p s).out
unfolding in_game
in_game-OwnPlace a m idle s = (tt, tt)
in_game-OwnPlace a m (waiting_for_host player lobby) s = (tt, tt)
in_game-OwnPlace a m (in_lobby player lobby) s = (refl, tt)

leave-OwnPlace :
    (a : Addr) (p : ClientLobbyState) (s : ClientState) → All (OwnPlace p) (leave a p s).out
unfolding leave
leave-OwnPlace a idle s = (tt, tt)
leave-OwnPlace a (waiting_for_host player lobby) s = (tt, tt)
leave-OwnPlace a (in_lobby player lobby) s = (refl, tt)

ask_lobby-OwnPlace :
    (a : Addr) (r : LobbyRequest) (p : ClientLobbyState) (s : ClientState)
    → All (OwnPlace p) (ask_lobby a r p s).out
unfolding ask_lobby
ask_lobby-OwnPlace a r idle s = (tt, tt)
ask_lobby-OwnPlace a r (waiting_for_host player lobby) s = (tt, tt)
ask_lobby-OwnPlace a r (in_lobby player lobby) s = (tt, tt)

login-OwnPlace :
    (a : Addr) (token : ℕ) (p : ClientLobbyState) (s : ClientState)
    → All (OwnPlace p) (login a token p s).out
unfolding login
login-OwnPlace a token idle s = (stop_former-OwnPlace idle s.maybe_user_info token).1
login-OwnPlace a token (waiting_for_host player lobby) s =
    (stop_former-OwnPlace (waiting_for_host player lobby) s.maybe_user_info token).1
login-OwnPlace a token (in_lobby player lobby) s = (tt, tt)

challenge-OwnPlace :
    (a : Addr) (friend : UserId) (p : ClientLobbyState) (u : Option PublicUserMe) (s : ClientState)
    → All (OwnPlace p) (challenge a friend p u s).out
unfolding challenge
challenge-OwnPlace a friend idle none s = (tt, tt)
challenge-OwnPlace a friend idle (some user) s = (tt, tt)
challenge-OwnPlace a friend (waiting_for_host player lobby) u s = (tt, tt)
challenge-OwnPlace a friend (in_lobby player lobby) u s = (tt, tt)

chat-OwnPlace :
    (m : ClientLobbyMessage) (to_all : ConnectionManagerMsg) (p : ClientLobbyState)
    (s : ClientState)
    → All (OwnPlace p) (chat m to_all p s).out
unfolding chat
chat-OwnPlace m to_all idle s = (tt, tt)
chat-OwnPlace m to_all (waiting_for_host player lobby) s = (tt, tt)
chat-OwnPlace m to_all (in_lobby player lobby) s = (refl, tt)

pong-OwnPlace : (p : ClientLobbyState) (s : ClientState) → All (OwnPlace p) (pong p s).out
unfolding pong
pong-OwnPlace idle s = tt
pong-OwnPlace (waiting_for_host player lobby) s = tt
pong-OwnPlace (in_lobby player lobby) s = ((player, refl), tt)

ask_progress-OwnPlace :
    (m : GameMsgIn) (p : ClientLobbyState) (u : Option UserId) → All (OwnPlace p) (ask_progress m u)
unfolding ask_progress
ask_progress-OwnPlace m p none = tt
ask_progress-OwnPlace m p (some u) = (tt, tt)

play-OwnPlace :
    (a : Addr) (m : PlayerMessage) (s : ClientState) → All (OwnPlace s.lobby_state) (play a m s).out
unfolding play
play-OwnPlace a (PlayerMessage.place_chip c) s = in_game-OwnPlace a _ s.lobby_state s
play-OwnPlace a PlayerMessage.play_again_request s = in_game-OwnPlace a _ s.lobby_state s
play-OwnPlace a PlayerMessage.leaving s = leave-OwnPlace a s.lobby_state s
play-OwnPlace a (PlayerMessage.lobby_request kind) s = ask_lobby-OwnPlace a _ s.lobby_state s
play-OwnPlace a (PlayerMessage.lobby_join id) s = ask_lobby-OwnPlace a _ s.lobby_state s
play-OwnPlace a (PlayerMessage.login token) s = login-OwnPlace a token s.lobby_state s
play-OwnPlace a PlayerMessage.logout s =
    unfold logout in (stop_former-OwnPlace s.lobby_state s.maybe_user_info 0).0
play-OwnPlace a (PlayerMessage.battle_req friend) s =
    challenge-OwnPlace a friend s.lobby_state s.maybe_user_info s
play-OwnPlace a (PlayerMessage.chat_message text) s = chat-OwnPlace _ _ s.lobby_state s
play-OwnPlace a PlayerMessage.chat_read s = chat-OwnPlace _ _ s.lobby_state s
play-OwnPlace a PlayerMessage.ready_for_game_pong s = pong-OwnPlace s.lobby_state s
play-OwnPlace a (PlayerMessage.game_protocol m) s =
    ask_progress-OwnPlace m s.lobby_state (user_id s)

-- Whatever a client sends, its messages reach no room but the one that it is in, and only in the
-- name of the player that it is there.
pub handle_player-OwnPlace :
    (m : PlayerMessage) (s : ClientState) → All (OwnPlace s.lobby_state) (handle_player m s).out
unfolding handle_player
handle_player-OwnPlace m s = elim (Option-cases s.adapter) [
  | inl e ↦ rw (e, handle_player) tt
  | inr (a, e) ↦ rw (e, handle_player) (play-OwnPlace a m s)
]

-- The client sends that message.
abbrev pub Tells : Effect → List Effect → Type 0
Tells e out = Any (λ x. x ≡ e) out

leave-Tells :
    (a : Addr) (s : ClientState) (p : ClientLobbyState) (player : Player) (lobby : Addr)
    → Tells (to_lobby lobby player (player_leaving PlayerLeaveReason.leave)) (leave a p s).out
      ↔ (p ≡ in_lobby player lobby)
unfolding leave
leave-Tells a s idle player lobby = (λ h. ground arith, λ e. absurd (ground arith))
leave-Tells a s (waiting_for_host q l) player lobby =
    (λ h. ground arith, λ e. absurd (ground arith))
leave-Tells a s (in_lobby q l) player lobby = (λ h. ground arith, λ e. inl (ground arith))

close-Tells :
    (p : ClientLobbyState) (player : Player) (lobby : Addr)
    → Tells
        (to_lobby lobby player (player_leaving PlayerLeaveReason.disconnect))
        (leave_lobby PlayerLeaveReason.disconnect p ++ stop ∷ [])
      ↔ (p ≡ in_lobby player lobby)
unfolding leave_lobby
close-Tells idle player lobby = (λ h. ground arith, λ e. absurd (ground arith))
close-Tells (waiting_for_host q l) player lobby = (λ h. ground arith, λ e. absurd (ground arith))
close-Tells (in_lobby q l) player lobby = (λ h. ground arith, λ e. inl (ground arith))

leave-idle :
    (a : Addr) (p : ClientLobbyState) (s : ClientState) → (leave a p s).state.lobby_state ≡ idle
unfolding leave
leave-idle a p s = ground arith

-- A linked client that leaves is idle afterwards; whether it leaves or is closed, a room is told of it
-- exactly if the client is in that room, and so none by a client that waits for the host of one.
pub handle_player-leaving :
    (s : ClientState) (a : Addr) (player : Player) (lobby : Addr)
    → s.adapter ≡ some a
    → ((handle_player PlayerMessage.leaving s).state.lobby_state ≡ idle)
      × (Tells
            (to_lobby lobby player (player_leaving PlayerLeaveReason.leave))
            (handle_player PlayerMessage.leaving s).out
          ↔ (s.lobby_state ≡ in_lobby player lobby))
      × (Tells
            (to_lobby lobby player (player_leaving PlayerLeaveReason.disconnect))
            (handle close s).1
          ↔ (s.lobby_state ≡ in_lobby player lobby))
unfolding handle_player play handle
handle_player-leaving s a player lobby e =
    rw (e, handle_player)
      (
        leave-idle a s.lobby_state s,
        leave-Tells a s s.lobby_state player lobby,
        close-Tells s.lobby_state player lobby,
      )

-- What the handler of the client sends, up to the answer of the manager if it asks the manager.
unfoldable pub with_manager :
    Fresh
    → Addr
    → List Effect
    → ClientState
    → LobbyManager
    → Option (ClientState × List Effect × LobbyManager)
with_manager fresh a (request_lobby r ∷ out) s manager = elim (handle_request fresh r manager) [
  | none ↦ none
  | some h ↦
      let (s', replies) = received_lobby_request_response a (some h.response) s in
      some (s', out ++ replies, h.manager)
]
with_manager fresh a out s manager = some (s, out, manager)

-- `LobbyRequest` of a client, handled by the client's state and, unless it is refused there, by the manager.
unfoldable pub request_room :
    Fresh
    → LobbyKind
    → ClientState
    → LobbyManager
    → Option (ClientState × List Effect × LobbyManager)
unfolding with_manager
request_room fresh kind s manager =
    let asked = handle_player (PlayerMessage.lobby_request kind) s in
    elim s.adapter [
      | none ↦ some (asked.state, asked.out, manager)
      | some a ↦ with_manager fresh a asked.out asked.state manager
    ]

-- A linked and idle client asks the manager.
request_room-idle :
    (fresh : Fresh) (kind : LobbyKind) (s : ClientState) (a : Addr) (manager : LobbyManager)
    → s.adapter ≡ some a
    → s.lobby_state ≡ idle
    → request_room fresh kind s manager
      ≡ with_manager fresh a (request_lobby (new_lobby s.address (user_id s) kind) ∷ []) s manager
unfolding request_room handle_player play ask_lobby
request_room-idle fresh kind s a manager linked free = rw (linked, handle_player, free) refl

request_room-waiting :
    (fresh : Fresh) (kind : LobbyKind) (s : ClientState) (a : Addr) (player : Player) (lobby : Addr)
    (manager : LobbyManager)
    → s.adapter ≡ some a
    → request_room fresh kind (in_place (waiting_for_host player lobby) s) manager
      ≡ some (
        in_place (waiting_for_host player lobby) s,
        to_adapter a (ServerMessage.error (some already_in_lobby)) ∷ [],
        manager,
      )
unfolding request_room handle_player play ask_lobby with_manager
request_room-waiting fresh kind s a player lobby manager linked = rw (linked, handle_player) refl

request_room-in_lobby :
    (fresh : Fresh) (kind : LobbyKind) (s : ClientState) (a : Addr) (player : Player) (lobby : Addr)
    (manager : LobbyManager)
    → s.adapter ≡ some a
    → request_room fresh kind (in_place (in_lobby player lobby) s) manager
      ≡ some (
        in_place (in_lobby player lobby) s,
        to_adapter a (ServerMessage.error (some already_in_lobby)) ∷ [],
        manager,
      )
unfolding request_room handle_player play ask_lobby with_manager
request_room-in_lobby fresh kind s a player lobby manager linked = rw (linked, handle_player) refl

-- When no public room is open and an id can be drawn, the first of two linked and idle clients that ask
-- for one is in a new room as player one, and the second waits for the host of the same room and is in
-- it as player two once the room tells it that the host is ready; no public room is open then. If
-- either of them asks for a room again, of whatever kind, it is told that it is in one already, and
-- the manager is not asked.
pub request_room-match :
    (fresh fresh' : Fresh) (a b : Addr) (s t : ClientState) (manager : LobbyManager) (id : GameId)
    → s.adapter ≡ some a
    → t.adapter ≡ some b
    → s.lobby_state ≡ idle
    → t.lobby_state ≡ idle
    → manager.open_lobby ≡ none
    → generate manager.open_lobby_map manager.closed_lobby_map fresh.draws ≡ some id
    → (s' t' : ClientState) × (manager' manager'' : LobbyManager) × (request_room fresh public_lobby
          s manager
        ≡ some (s', [], manager'))
      × (request_room fresh' public_lobby t manager' ≡ some (t', [], manager''))
      × (s'.lobby_state ≡ in_lobby one fresh.lobby_addr)
      × (t'.lobby_state ≡ waiting_for_host two fresh.lobby_addr)
      × ((response_ready t').lobby_state ≡ in_lobby two fresh.lobby_addr)
      × (manager''.open_lobby ≡ none)
      × ((again : Fresh) (kind : LobbyKind)
          → (request_room again kind s' manager''
              ≡ some
                  (s', to_adapter a (ServerMessage.error (some already_in_lobby)) ∷ [], manager''))
            × (request_room again kind t' manager''
                ≡ some (
                  t',
                  to_adapter b (ServerMessage.error (some already_in_lobby)) ∷ [],
                  manager'',
                )))
unfolding with_manager received_lobby_request_response response_ready
request_room-match fresh fresh' a b s t manager id linked linked' free free' closed drawn =
    let (h, k, first, second, granted_first, granted_second, out, out', gone) =
      handle_request-match fresh fresh' s.address t.address (user_id s) (user_id t) manager id
        closed drawn in
    (
      in_place (in_lobby one fresh.lobby_addr) s,
      in_place (waiting_for_host two fresh.lobby_addr) t,
      h.manager,
      k.manager,
      rw
          (
            request_room-idle fresh public_lobby s a manager linked free,
            first,
            with_manager,
            granted_first,
          )
          refl,
      rw
          (
            request_room-idle fresh' public_lobby t b h.manager linked' free',
            second,
            with_manager,
            granted_second,
          )
          refl,
      refl,
      refl,
      refl,
      gone,
      λ again kind. (
        request_room-in_lobby again kind s a one fresh.lobby_addr k.manager linked,
        request_room-waiting again kind t b two fresh.lobby_addr k.manager linked',
      ),
    )
