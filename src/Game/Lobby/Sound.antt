-- ===== src/Game/Lobby/Sound.antt =====
-- The game of a room of src/game/lobby.rs stays a sound one.
use fourinarow_server.Base.{Option-cases, ℕ, ◌≡◌, refl, inl, inr, Option, List, [], ◌∷◌, arith}
use fourinarow_server.Game.Message.{Addr, UserId, Instant, ServerMessage}
use fourinarow_server.Game.Board.{Player, GameInfo, WinnerInfo, new, place_chip}
use fourinarow_server.Game.Board.Lines.{IsField}
use fourinarow_server.Game.Board.Chips.{IsSettled}
use fourinarow_server.Game.Board.Chips.Outcome.{
  place_chip-IsField, place_chip-IsSettled, new-IsField, new-IsSettled,
}
use fourinarow_server.Game.Lobby.Run.{Event, from_client, from_server, step, run}
use fourinarow_server.Game.Lobby.{
  GameType, LobbyState, one_player, two_players_waiting, two_players, Lobby, ClientLobbyMessage,
  player_leaving, play_again_request, place_chip_at, chat_message, chat_read,
  received_ready_for_game_pong, game_start, lobby_close, player_joined, Fresh, LobbyPlayerInfo,
}
use fourinarow_server.Game.Lobby.Handle.{
  info_of, with_info, handle_client, handle_lobby, play_again, chip, start_game, pong, joins,
  rematch, before_start, to_opponent, new_game,
}

-- A game whose field is sound.
pub record IsPlayable (g : GameInfo) : Type 0 where
  pub sized : IsField g.field
  pub settled : IsSettled g.field

abbrev pub IsSound : LobbyState → Type 0
IsSound (two_players oid t host joined) = IsPlayable (info_of t)
IsSound _ = Unit

new-IsPlayable : (coin : Player) → IsPlayable (new coin)
new-IsPlayable coin = record { sized = new-IsField coin; settled = new-IsSettled coin }

place_chip-IsPlayable :
    (g : GameInfo) (c : ℕ) (p : Player) → IsPlayable g → IsPlayable (place_chip g c p).0
place_chip-IsPlayable g c p v = record {
  sized = place_chip-IsField g c p v.sized;
  settled = place_chip-IsSettled g c p v.sized v.settled;
}

info-with_info : (t : GameType) (g : GameInfo) → info_of (with_info t g) ≡ g
info-with_info t g = ground arith

IsPlayable-along : (g h : GameInfo) → h.field ≡ g.field → IsPlayable g → IsPlayable h
IsPlayable-along g h e v = record { sized = rw e v.sized; settled = rw e v.settled }

rematch-field :
    (sender : Player) (a : Addr) (w : Option WinnerInfo) (g : GameInfo)
    → (rematch sender a w g).0.field ≡ g.field
unfolding rematch
rematch-field sender a w g = ground arith

play_again-IsSound :
    (sender : Player) (l : Lobby) (s : LobbyState)
    → s ≡ l.lobby_state
    → IsSound s
    → IsSound (play_again sender l s).lobby.lobby_state
unfolding play_again
play_again-IsSound sender l (two_players oid t host joined) e v =
    rw (info-with_info t)
      (IsPlayable-along (info_of t) _ (rematch-field sender _ (info_of t).winner (info_of t)) v)
play_again-IsSound sender l (one_player host) e v = unfold before_start in rw (← e) v
play_again-IsSound sender l (two_players_waiting host joined h) e v =
    unfold before_start in rw (← e) v

chip-IsSound :
    (sender : Player) (c : ℕ) (l : Lobby) (s : LobbyState)
    → s ≡ l.lobby_state
    → IsSound s
    → IsSound (chip sender c l s).lobby.lobby_state
unfolding chip
chip-IsSound sender c l (two_players oid t host joined) e v =
    rw (info-with_info t (place_chip (info_of t) c sender).0)
      (place_chip-IsPlayable (info_of t) c sender v)
chip-IsSound sender c l (one_player host) e v = unfold before_start in rw (← e) v
chip-IsSound sender c l (two_players_waiting host joined h) e v = unfold before_start in rw (← e) v

to_opponent-lobby :
    (sender : Player) (m : ServerMessage) (l : Lobby) (s : LobbyState)
    → (to_opponent sender m l s).lobby ≡ l
unfolding to_opponent
to_opponent-lobby sender m l s = ground arith

client-IsSound :
    (now : Instant) (sender : Player) (m : ClientLobbyMessage) (l : Lobby)
    → IsSound l.lobby_state
    → IsSound (handle_client now sender m l).lobby.lobby_state
unfolding handle_client
client-IsSound now sender (player_leaving r) l v = v
client-IsSound now sender play_again_request l v = play_again-IsSound sender _ l.lobby_state refl v
client-IsSound now sender (place_chip_at c) l v = chip-IsSound sender c _ l.lobby_state refl v
client-IsSound now sender (chat_message text name) l v = rw (to_opponent-lobby sender) v
client-IsSound now sender chat_read l v = rw (to_opponent-lobby sender) v

new_game-IsPlayable :
    (fresh : Fresh) (host joined : LobbyPlayerInfo)
    → IsPlayable (info_of (new_game fresh host joined).0)
unfolding new_game
new_game-IsPlayable fresh host joined = elim (Option-cases host.maybe_uid) [
  | inl a ↦ rw a (new-IsPlayable fresh.coin)
  | inr (h, a) ↦ elim (Option-cases joined.maybe_uid) [
    | inl b ↦ rw (a, b) (new-IsPlayable fresh.coin)
    | inr (j, b) ↦ rw (a, b) (new-IsPlayable fresh.coin)
  ]
]

start_game-IsSound :
    (fresh : Fresh) (l : Lobby) (s : LobbyState)
    → s ≡ l.lobby_state
    → IsSound s
    → IsSound (start_game fresh l s).lobby.lobby_state
unfolding start_game
start_game-IsSound fresh l (two_players oid t host joined) e v =
    rw (info-with_info t) (new-IsPlayable fresh.coin)
start_game-IsSound fresh l (one_player host) e v = rw (← e) v
start_game-IsSound fresh l (two_players_waiting host joined h) e v = rw (← e) v

pong-IsSound :
    (fresh : Fresh) (l : Lobby) (s : LobbyState)
    → s ≡ l.lobby_state
    → IsSound s
    → IsSound (pong fresh l s).lobby.lobby_state
unfolding pong
pong-IsSound fresh l (two_players_waiting host joined h) e v = new_game-IsPlayable fresh host joined
pong-IsSound fresh l (one_player host) e v = rw (← e) v
pong-IsSound fresh l (two_players oid t host joined) e v = rw (← e) v

joins-IsSound :
    (fresh : Fresh) (a : Addr) (uid : Option UserId) (l : Lobby) (s : LobbyState)
    → s ≡ l.lobby_state
    → IsSound s
    → IsSound (joins fresh a uid l s).lobby.lobby_state
unfolding joins
joins-IsSound fresh a uid l (one_player host) e v = tt
joins-IsSound fresh a uid l (two_players_waiting host joined h) e v = rw (← e) v
joins-IsSound fresh a uid l (two_players oid t host joined) e v = rw (← e) v

step-IsSound :
    (l : Lobby) (e : Event) → IsSound l.lobby_state → IsSound (step l e).lobby.lobby_state
unfolding step handle_lobby
step-IsSound l (from_client now sender m) v = client-IsSound now sender m l v
step-IsSound l (from_server fresh lobby_close) v = v
step-IsSound l (from_server fresh game_start) v = start_game-IsSound fresh l l.lobby_state refl v
step-IsSound l (from_server fresh received_ready_for_game_pong) v =
    pong-IsSound fresh l l.lobby_state refl v
step-IsSound l (from_server fresh (player_joined a uid)) v =
    joins-IsSound fresh a uid l l.lobby_state refl v

-- Whatever messages a room gets, in any order, the field of its game has seven columns of seven
-- cells and every chip lies on the bottom or on a chip, if this holds at the beginning.
pub run-IsSound :
    (l : Lobby) (es : List Event) → IsSound l.lobby_state → IsSound (run l es).0.lobby_state
unfolding run
run-IsSound l [] v = v
run-IsSound l (e ∷ es) v = run-IsSound (step l e).lobby es (step-IsSound l e v)
