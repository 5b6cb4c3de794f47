-- ===== src/Game/Lobby/Settle.antt =====
-- The id under which a room of src/game/lobby.rs reports its games.
use fourinarow_server.Base.{
  All, All-append, Bool-cases, Option-cases, ℕ, ◌≡◌, refl, inl, inr, Option, none, some, List, [],
  ◌∷◌,
}
use fourinarow_server.Game.Message.{Addr, Instant, ServerMessage}
use fourinarow_server.Game.Board.{
  Player, same, other, select, GameInfo, WinnerInfo, Placed, placed, refused, place_chip,
}
use fourinarow_server.Game.Lobby.Run.{Event, from_client, from_server, step, run}
use fourinarow_server.Game.Lobby.{
  GameType, anonymous, registered, LobbyState, one_player, two_players_waiting, two_players, Lobby,
  ClientLobbyMessage, player_leaving, play_again_request, place_chip_at, chat_message, chat_read,
  LobbyMessage, received_ready_for_game_pong, game_start, lobby_close, player_joined, Effect,
  played_game, log_start_game, log_end_game, stop, Outcome, Fresh, PlayerLeaveReason,
}
use fourinarow_server.Game.Lobby.Handle.{
  info_of, handle_client, handle_lobby, play_again, chip, rematch, placed_messages,
  game_over_messages, settlement, to_opponent, leaving_messages,
}

-- Both players are in, and the game goes by that id.
abbrev pub InGame : ℕ → LobbyState → Type 0
InGame id (two_players oid t host joined) = oid ≡ id
InGame id _ = ⊥

-- An effect that names a game names this one, and none begins another.
abbrev pub OfGame : ℕ → Effect → Type 0
OfGame id (played_game oid winner loser) = oid ≡ id
OfGame id (log_end_game oid reason) = oid ≡ id
OfGame id (log_start_game oid ranked) = ⊥
OfGame id _ = Unit

rematch-OfGame :
    (id : ℕ) (sender : Player) (a : Addr) (w : Option WinnerInfo) (g : GameInfo)
    → All (OfGame id) (rematch sender a w g).1
unfolding rematch
rematch-OfGame id sender a none g = (tt, tt)
rematch-OfGame id sender a (some w) g = elim (Option-cases w.requesting_rematch) [
  | inl e ↦ rw (e, rematch) tt
  | inr (already, e) ↦ elim (Bool-cases (same already sender)) [
    | inl again ↦ rw (e, rematch, again) tt
    | inr both ↦ rw (e, rematch, both) (tt, tt)
  ]
]

settlement-OfGame :
    (id : ℕ) (t : GameType) (winner : Player) → All (OfGame id) (settlement id t winner)
unfolding settlement
settlement-OfGame id (anonymous g) winner = tt
settlement-OfGame id (registered g host joined) winner = (refl, tt)

placed-OfGame :
    (id : ℕ) (t : GameType) (sender : Player) (c : ℕ) (a b : Addr) (r : Placed)
    → All (OfGame id) (placed_messages id t sender c a b r).0
unfolding placed_messages game_over_messages
placed-OfGame id t sender c a b (refused e) = (tt, tt)
placed-OfGame id t sender c a b (placed none) = (tt, tt)
placed-OfGame id t sender c a b (placed (some winner)) =
    (tt, (tt, (tt, (refl, settlement-OfGame id t winner))))

-- One message in a game that is on.
abbrev Continues : ℕ → Outcome → Type 0
Continues id o = InGame id o.lobby.lobby_state × All (OfGame id) o.out

leaving-OfGame :
    (id : ℕ) (r : PlayerLeaveReason) (sender : Player) (s : LobbyState)
    → InGame id s
    → All (OfGame id) (leaving_messages r sender s)
unfolding leaving_messages
leaving-OfGame id r sender (two_players oid t host joined) v = (v, (tt, (tt, tt)))
leaving-OfGame id r sender (one_player host) v = absurd v
leaving-OfGame id r sender (two_players_waiting host joined h) v = absurd v

play_again-Continues :
    (id : ℕ) (sender : Player) (l : Lobby) (s : LobbyState)
    → InGame id s
    → Continues id (play_again sender l s)
unfolding play_again
play_again-Continues id sender l (two_players oid t host joined) v =
    (v, rematch-OfGame id sender (select sender host joined) (info_of t).winner (info_of t))
play_again-Continues id sender l (one_player host) v = absurd v
play_again-Continues id sender l (two_players_waiting host joined h) v = absurd v

chip-Continues :
    (id : ℕ) (sender : Player) (c : ℕ) (l : Lobby) (s : LobbyState)
    → InGame id s
    → Continues id (chip sender c l s)
unfolding chip
chip-Continues id sender c l (two_players oid t host joined) v = (
  v,
  rw v (
      placed-OfGame id t sender c (select sender host joined) (select (other sender) host joined)
        (place_chip (info_of t) c sender).1),
)
chip-Continues id sender c l (one_player host) v = absurd v
chip-Continues id sender c l (two_players_waiting host joined h) v = absurd v

to_opponent-Continues :
    (id : ℕ) (sender : Player) (m : ServerMessage) (l : Lobby) (s : LobbyState)
    → InGame id l.lobby_state
    → Continues id (to_opponent sender m l s)
unfolding to_opponent
to_opponent-Continues id sender m l (two_players oid t host joined) v = (v, (tt, tt))
to_opponent-Continues id sender m l (one_player host) v = (v, tt)
to_opponent-Continues id sender m l (two_players_waiting host joined h) v = (v, tt)

client-Continues :
    (id : ℕ) (now : Instant) (sender : Player) (m : ClientLobbyMessage) (l : Lobby)
    → InGame id l.lobby_state
    → Continues id (handle_client now sender m l)
unfolding handle_client
client-Continues id now sender (player_leaving r) l v = (
  v,
  (
    tt,
    (
      tt,
      All-append (OfGame id) (leaving_messages r sender l.lobby_state) (stop ∷ [])
          (leaving-OfGame id r sender l.lobby_state v) (tt, tt),
    ),
  ),
)
client-Continues id now sender play_again_request l v =
    play_again-Continues id sender _ l.lobby_state v
client-Continues id now sender (place_chip_at c) l v = chip-Continues id sender c _ l.lobby_state v
client-Continues id now sender (chat_message text name) l v =
    to_opponent-Continues id sender _ _ l.lobby_state v
client-Continues id now sender chat_read l v = to_opponent-Continues id sender _ _ l.lobby_state v

server-Continues :
    (id : ℕ) (fresh : Fresh) (m : LobbyMessage) (l : Lobby) (s : LobbyState)
    → s ≡ l.lobby_state
    → InGame id s
    → Continues id (handle_lobby fresh m l)
unfolding handle_lobby
server-Continues id fresh m l (one_player host) e v = absurd v
server-Continues id fresh m l (two_players_waiting host joined h) e v = absurd v
server-Continues id fresh lobby_close l (two_players oid t host joined) e v = (rw (← e) v, (tt, tt))
server-Continues id fresh game_start l (two_players oid t host joined) e v =
    rw (← e) (v, (tt, (tt, tt)))
server-Continues id fresh received_ready_for_game_pong l (two_players oid t host joined) e v =
    rw (← e) (v, tt)
server-Continues id fresh (player_joined a uid) l (two_players oid t host joined) e v =
    rw (← e) (v, (tt, tt))

step-Continues :
    (id : ℕ) (l : Lobby) (e : Event) → InGame id l.lobby_state → Continues id (step l e)
unfolding step
step-Continues id l (from_client now sender m) v = client-Continues id now sender m l v
step-Continues id l (from_server fresh m) v = server-Continues id fresh m l l.lobby_state refl v

-- Once both players are in, every game of the room goes by the one id that the first game got: after
-- any sequence of messages, rematches included, the room is still in the game of that id, every game
-- that it reports as played or ended has it, and no other game is announced. The results of all
-- rematches are so reported under the id of the first game.
pub run-OfGame :
    (id : ℕ) (l : Lobby) (es : List Event)
    → InGame id l.lobby_state
    → InGame id (run l es).0.lobby_state × All (OfGame id) (run l es).1
unfolding run
run-OfGame id l [] v = (v, tt)
run-OfGame id l (e ∷ es) v =
    let first = step-Continues id l e v in
    let rest = run-OfGame id (step l e).lobby es first.0 in
    (rest.0, All-append (OfGame id) (step l e).out _ first.1 rest.1)
