-- ===== src/Game/Lobby/Handle.antt =====
-- The handlers of a room, of src/game/lobby.rs.
use fourinarow_server.Base.{
  ltb, if◌then◌else◌, ℕ, ◌-◌, Bool, true, false, Option, none, some, List, [], ◌∷◌, ◌++◌,
}
use fourinarow_server.Game.Error.{game_not_started, game_not_over}
use fourinarow_server.Game.Message.{Addr, UserId, Instant, ServerMessage}
use fourinarow_server.Game.Board.{
  Player, one, two, same, other, select, select_both, GameInfo, WinnerInfo, Placed, placed, refused,
  new, reset, place_chip,
}
use fourinarow_server.Game.Lobby.{
  ClientLobbyMessage, Effect, Fresh, GameEndReason, GameType, Lobby, LobbyMessage, LobbyPlayerInfo,
  LobbyState, Outcome, PlayerLeaveReason, Reply, anonymous, answer, cancel_timeout, chat_message,
  chat_read, close_lobby, disconnect, failed, game_ready_response_timeout_ms, game_start,
  game_start_delay_s, leave, lobby_close, lobby_timeout_ms, log_end_game, log_lobby_closed,
  log_start_game, notify_later, notify_self, ok, one_player, place_chip_at, play_again_request,
  played_game, player_disconnected, player_joined, player_leaving, player_left,
  received_ready_for_game_pong, registered, regular, reset_client, response_ready, start_timeout,
  stop, to_client, two_players, two_players_waiting,
}

end_reason : PlayerLeaveReason → GameEndReason
end_reason leave = player_left
end_reason disconnect = player_disconnected

-- `send_messages` of the handler of `PlayerLeaving`.
pub opponent_left : Player → Addr → Addr → List Effect
unfolding select other
opponent_left sender host joined =
    let other_addr = select (other sender) host joined in
    reset_client other_addr ∷ to_client other_addr ServerMessage.opponent_leaving ∷ []

unfoldable pub leaving_messages : PlayerLeaveReason → Player → LobbyState → List Effect
unfolding opponent_left end_reason
leaving_messages r sender (one_player host) = []
leaving_messages r sender (two_players_waiting host joined h) =
    opponent_left sender host.addr joined.addr
leaving_messages r sender (two_players oid g host joined) =
    log_end_game oid (end_reason r) ∷ opponent_left sender host joined

unfoldable pub player_leaves : PlayerLeaveReason → Player → Lobby → Outcome
unfolding leaving_messages
player_leaves r sender l =
    answer l
      (close_lobby l.game_id
        ∷ log_lobby_closed l.lobby_id
        ∷ (leaving_messages r sender l.lobby_state ++ stop ∷ []))
      ok

abbrev not_started : Addr → Effect
not_started a = to_client a (ServerMessage.error (some game_not_started))

-- What a message about a game gets before the game has begun.
unfoldable pub before_start : Lobby → LobbyState → Outcome
before_start l (one_player host) = answer l (not_started host.addr ∷ []) failed
before_start l (two_players_waiting host joined h) =
    answer l (not_started host.addr ∷ not_started joined.addr ∷ []) failed
before_start l (two_players oid g host joined) = answer l [] failed

abbrev pub info_of : GameType → GameInfo
info_of (anonymous g) = g
info_of (registered g host joined) = g

abbrev pub with_info : GameType → GameInfo → GameType
with_info (anonymous g) h = anonymous h
with_info (registered g host joined) h = registered h host joined

abbrev pub requested : Player → WinnerInfo → GameInfo → GameInfo
requested sender w g = record g { winner = some (record w { requesting_rematch = some sender }) }

-- The game and the effects after a request to play again.
unfoldable pub rematch : Player → Addr → Option WinnerInfo → GameInfo → GameInfo × List Effect
unfolding same
rematch sender addr none g = (g, to_client addr (ServerMessage.error (some game_not_over)) ∷ [])
rematch sender addr (some w) g = elim w.requesting_rematch [
  | none ↦ (requested sender w g, [])
  | some already ↦ (g, if same already sender then [] else notify_self game_start ∷ [])
]

unfoldable pub play_again : Player → Lobby → LobbyState → Outcome
unfolding rematch before_start select
play_again sender l (two_players oid t host joined) =
    let g = info_of t in
    let (g', out) = rematch sender (select sender host joined) g.winner g in
    answer (record l { lobby_state = two_players oid (with_info t g') host joined }) out ok
play_again sender l (one_player host) = before_start l (one_player host)
play_again sender l (two_players_waiting host joined h) =
    before_start l (two_players_waiting host joined h)

-- `PlayedGame` for a game between two accounts: the winner's id comes first.
unfoldable pub settlement : ℕ → GameType → Player → List Effect
unfolding select_both
settlement oid (anonymous g) winner = []
settlement oid (registered g host joined) winner =
    let (won, lost) = select_both winner host joined in played_game oid won lost ∷ []

-- The messages after a chip was placed.
unfoldable pub game_over_messages :
    ℕ → GameType → Player → Addr → Addr → Option Player → List Effect
unfolding same other settlement
game_over_messages oid t sender placing opponent none = []
game_over_messages oid t sender placing opponent (some winner) =
    to_client placing (ServerMessage.game_over (same sender winner))
    ∷ to_client opponent (ServerMessage.game_over (same (other sender) winner))
    ∷ log_end_game oid regular
    ∷ settlement oid t winner

unfoldable pub placed_messages :
    ℕ → GameType → Player → ℕ → Addr → Addr → Placed → List Effect × Reply
unfolding game_over_messages
placed_messages oid t sender c placing opponent (placed winner) = (
  to_client opponent (ServerMessage.place_chip c)
      ∷ game_over_messages oid t sender placing opponent winner,
  ok,
)
placed_messages oid t sender c placing opponent (refused e) =
    (to_client placing (ServerMessage.error (some e)) ∷ [], failed)

unfoldable pub chip : Player → ℕ → Lobby → LobbyState → Outcome
unfolding placed_messages before_start select other
chip sender c l (two_players oid t host joined) =
    let (g', result) = place_chip (info_of t) c sender in
    let (out, reply) =
      placed_messages oid t sender c (select sender host joined) (select (other sender) host joined)
        result in
    answer (record l { lobby_state = two_players oid (with_info t g') host joined }) out reply
chip sender c l (one_player host) = before_start l (one_player host)
chip sender c l (two_players_waiting host joined h) =
    before_start l (two_players_waiting host joined h)

-- Chat goes to the opponent of a game that has begun.
unfoldable pub to_opponent : Player → ServerMessage → Lobby → LobbyState → Outcome
unfolding select other
to_opponent sender m l (two_players oid t host joined) =
    answer l (to_client (select (other sender) host joined) m ∷ []) ok
to_opponent sender m l _ = answer l [] failed

-- `Handler<ClientLobbyMessageNamed>`.
unfoldable pub handle_client : Instant → Player → ClientLobbyMessage → Lobby → Outcome
unfolding player_leaves play_again chip to_opponent
handle_client now sender m l =
    let l' = record l { last_hb = now } in
    elim m [
      | player_leaving r ↦ player_leaves r sender l'
      | play_again_request ↦ play_again sender l' l'.lobby_state
      | place_chip_at c ↦ chip sender c l' l'.lobby_state
      | chat_message text name ↦
          to_opponent sender (ServerMessage.chat_message false text name) l' l'.lobby_state
      | chat_read ↦ to_opponent sender (ServerMessage.chat_read false) l' l'.lobby_state
    ]

-- The opponents' names of `ServerMessage::GameStart`.
opponent_names : GameType → Option UserId × Option UserId
opponent_names (anonymous g) = (none, none)
opponent_names (registered g host joined) = (some joined, some host)

unfoldable pub start_game : Fresh → Lobby → LobbyState → Outcome
unfolding reset same opponent_names
start_game fresh l (two_players oid t host joined) =
    let g = reset fresh.coin (info_of t) in
    let (for_host, for_joined) = opponent_names t in
    answer (record l { lobby_state = two_players oid (with_info t g) host joined })
      (to_client host (ServerMessage.game_start (same g.turn one) for_host)
        ∷ to_client joined (ServerMessage.game_start (same g.turn two) for_joined)
        ∷ [])
      ok
start_game fresh l _ = answer l [] failed

unfoldable pub new_game : Fresh → LobbyPlayerInfo → LobbyPlayerInfo → GameType × Bool
unfolding new
new_game fresh host joined = elim host.maybe_uid [
  | none ↦ (anonymous (new fresh.coin), false)
  | some h ↦ elim joined.maybe_uid [
    | none ↦ (anonymous (new fresh.coin), false)
    | some j ↦ (registered (new fresh.coin) h j, true)
  ]
]

unfoldable pub pong : Fresh → Lobby → LobbyState → Outcome
unfolding new_game
pong fresh l (two_players_waiting host joined handle) =
    let (t, ranked) = new_game fresh host joined in
    answer (record l { lobby_state = two_players fresh.game_oid t host.addr joined.addr })
      (cancel_timeout handle
        ∷ response_ready joined.addr
        ∷ to_client host.addr ServerMessage.opponent_joining
        ∷ to_client joined.addr ServerMessage.opponent_joining
        ∷ log_start_game fresh.game_oid ranked
        ∷ notify_later game_start_delay_s game_start
        ∷ [])
      ok
pong fresh l _ = answer l [] failed

unfoldable pub joins : Fresh → Addr → Option UserId → Lobby → LobbyState → Outcome
joins fresh addr uid l (one_player host) =
    answer
      (record l {
        lobby_state =
            two_players_waiting host (record { addr = addr; maybe_uid = uid }) fresh.handle;
      })
      (start_timeout fresh.handle game_ready_response_timeout_ms
        ∷ to_client host.addr ServerMessage.ready_for_game_ping
        ∷ [])
      ok
joins fresh addr uid l _ = answer l (to_client addr ServerMessage.opponent_joining ∷ []) failed

-- `Handler<LobbyMessage>`.
unfoldable pub handle_lobby : Fresh → LobbyMessage → Lobby → Outcome
unfolding start_game pong joins
handle_lobby fresh lobby_close l = answer l (stop ∷ []) ok
handle_lobby fresh game_start l = start_game fresh l l.lobby_state
handle_lobby fresh received_ready_for_game_pong l = pong fresh l l.lobby_state
handle_lobby fresh (player_joined addr uid) l = joins fresh addr uid l l.lobby_state

-- The closure that `PlayerJoined` runs later, and the interval of `started`.
unfoldable pub ready_timeout : LobbyState → List Effect
ready_timeout (two_players_waiting host joined h) = stop ∷ []
ready_timeout _ = []

unfoldable pub heartbeat : Instant → Lobby → List Effect
heartbeat now l =
    if ltb lobby_timeout_ms (now - l.last_hb) then notify_self lobby_close ∷ [] else []

abbrev closing : Addr → List Effect → List Effect
closing a out = reset_client a ∷ to_client a ServerMessage.lobby_closing ∷ out

-- `Actor::stopping`.
unfoldable pub stopping : LobbyState → List Effect
stopping (one_player host) = closing host.addr []
stopping (two_players_waiting host joined h) = closing host.addr (closing joined.addr [])
stopping (two_players oid t host joined) = closing host (closing joined [])
