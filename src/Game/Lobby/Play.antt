-- ===== src/Game/Lobby/Play.antt =====
-- What the players of a room of src/game/lobby.rs are told, and when a rematch begins.
use fourinarow_server.Base.{
  Any, ℕ, ◌≡◌, refl, ◌↔◌, inl, inr, true, false, Option, none, some, List, ◌∷◌,
}
use fourinarow_server.Game.Message.{Addr, UserId, Instant, ServerMessage}
use fourinarow_server.Game.Board.{
  Player, one, two, other, select, GameInfo, WinnerInfo, placed, place_chip,
}
use fourinarow_server.Game.Lobby.{
  GameType, anonymous, registered, two_players, Lobby, game_start, Effect, to_client, played_game,
  notify_self, place_chip_at, play_again_request,
}
use fourinarow_server.Game.Lobby.Handle.{
  info_of, with_info, handle_client, chip, rematch, requested, placed_messages, game_over_messages,
}

-- The effect is among those of the handler.
abbrev pub Sends : Effect → List Effect → Type 0
Sends e out = Any (λ x. x ≡ e) out

chip_out :
    (sender : Player) (c oid : ℕ) (t : GameType) (host joined : Addr) (l : Lobby) (w : Player)
    → (place_chip (info_of t) c sender).1 ≡ placed (some w)
    → (chip sender c l (two_players oid t host joined)).out
      ≡ to_client (select (other sender) host joined) (ServerMessage.place_chip c)
        ∷ game_over_messages oid t sender
            (select sender host joined)
            (select (other sender) host joined)
            (some w)
unfolding chip placed_messages
chip_out sender c oid t host joined l w e = rw e

game_over_told :
    (oid : ℕ) (sender w : Player) (g : GameInfo) (hid jid : UserId) (host joined : Addr)
    → let out =
        game_over_messages oid
          (registered g hid jid)
          sender
          (select sender host joined)
          (select (other sender) host joined)
          (some w) in
      Sends (to_client (select w host joined) (ServerMessage.game_over true)) out
      × Sends (to_client (select (other w) host joined) (ServerMessage.game_over false)) out
      × Sends (played_game oid (select w hid jid) (select (other w) hid jid)) out
unfolding game_over_messages select
game_over_told oid one one g hid jid host joined =
    (inl refl, inr (inl refl), inr (inr (inr (inl refl))))
game_over_told oid one two g hid jid host joined =
    (inr (inl refl), inl refl, inr (inr (inr (inl refl))))
game_over_told oid two one g hid jid host joined =
    (inr (inl refl), inl refl, inr (inr (inr (inl refl))))
game_over_told oid two two g hid jid host joined =
    (inl refl, inr (inl refl), inr (inr (inr (inl refl))))

-- In a room where two accounts play, a move for which `place_chip` reports a winner is shown to the
-- opponent of the player who moves, the winner's client is told that it won, the other client that
-- it lost, and the game is reported with the winner's account first.
pub handle_client-game_over :
    (now : Instant) (sender : Player) (c oid : ℕ) (g : GameInfo) (hid jid : UserId)
    (host joined : Addr) (l : Lobby) (w : Player)
    → l.lobby_state ≡ two_players oid (registered g hid jid) host joined
    → (place_chip g c sender).1 ≡ placed (some w)
    → let out = (handle_client now sender (place_chip_at c) l).out in
      Sends (to_client (select (other sender) host joined) (ServerMessage.place_chip c)) out
      × Sends (to_client (select w host joined) (ServerMessage.game_over true)) out
      × Sends (to_client (select (other w) host joined) (ServerMessage.game_over false)) out
      × Sends (played_game oid (select w hid jid) (select (other w) hid jid)) out
unfolding handle_client
handle_client-game_over now sender c oid g hid jid host joined l w s e =
    let (won, lost, reported) = game_over_told oid sender w g hid jid host joined in
    rw (s, chip_out sender c oid (registered g hid jid) host joined _ w e)
      (inl refl, inr won, inr lost, inr reported)

rematch_asked :
    (sender v : Player) (o : Option Player) (a : Addr) (g : GameInfo)
    → Sends
        (notify_self game_start)
        (rematch sender a (some (record { winner = v; requesting_rematch = o })) g).1
      ↔ (o ≡ some (other sender))
unfolding rematch other
rematch_asked sender v none a g = (λ h. absurd h, λ e. cc)
rematch_asked one v (some one) a g = (λ h. absurd h, λ e. cc)
rematch_asked one v (some two) a g = (λ h. refl, λ e. inl refl)
rematch_asked two v (some one) a g = (λ h. refl, λ e. inl refl)
rematch_asked two v (some two) a g = (λ h. absurd h, λ e. cc)

asked_other : (p q : Player) → (some p ≡ some (other q)) ↔ (q ≡ other p)
unfolding other
asked_other one one = (λ e. cc, λ e. cc)
asked_other one two = (λ e. refl, λ e. refl)
asked_other two one = (λ e. refl, λ e. refl)
asked_other two two = (λ e. cc, λ e. cc)

first_request :
    (p : Player) (a : Addr) (o : Option WinnerInfo) (g : GameInfo) (w : WinnerInfo)
    → o ≡ some w
    → w.requesting_rematch ≡ none
    → (rematch p a o g).0 ≡ requested p w g
unfolding rematch
first_request p a o g w e n = rw (e, rematch, n)

second_request :
    (p q : Player) (a : Addr) (t : GameType) (w : WinnerInfo)
    → let g = info_of (with_info t (requested p w (info_of t))) in
      Sends (notify_self game_start) (rematch q a g.winner g).1 ↔ (q ≡ other p)
second_request p q a (anonymous g) w =
    let asked = rematch_asked q w.winner (some p) a (requested p w g) in
    let swapped = asked_other p q in (λ h. swapped.0 (asked.0 h), λ e. asked.1 (swapped.1 e))
second_request p q a (registered g hid jid) w =
    let asked = rematch_asked q w.winner (some p) a (requested p w g) in
    let swapped = asked_other p q in (λ h. swapped.0 (asked.0 h), λ e. asked.1 (swapped.1 e))

-- After a game that was won and for which nobody has yet asked for another, the request of one
-- player followed by one of `q` starts a new game exactly if `q` is the opponent of the first.
handle_client-rematch :
    (now later : Instant) (p q : Player) (oid : ℕ) (t : GameType) (host joined : Addr) (l : Lobby)
    (w : WinnerInfo)
    → l.lobby_state ≡ two_players oid t host joined
    → (info_of t).winner ≡ some w
    → w.requesting_rematch ≡ none
    → let l' = (handle_client now p play_again_request l).lobby in
      Sends (notify_self game_start) (handle_client later q play_again_request l').out
      ↔ (q ≡ other p)
unfolding handle_client
handle_client-rematch now later p q oid t host joined l w s e n =
    rw (s, first_request p (select p host joined) (info_of t).winner (info_of t) w e n)
      (second_request p q (select q host joined) t w)
