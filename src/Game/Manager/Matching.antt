-- ===== src/Game/Manager/Matching.antt =====
-- How src/game/lobby_mgr.rs brings players together.
use fourinarow_server.Base.{
  Any, lookup, ◌≡◌, refl, ◌≢◌, inl, inr, true, false, Option, none, some, List, [], ◌∷◌, ◌++◌,
  arith,
}
use fourinarow_server.Game.Message.{Addr, UserId, GameId, private_lobby, public_lobby}
use fourinarow_server.Game.Board.{one, two}
use fourinarow_server.Game.Lobby.{player_joined}
use fourinarow_server.Game.Manager.{
  LobbyInfo, LobbyMap, LobbyManager, new_lobby, join_lobby, granted, start_lobby, to_lobby, update,
  Fresh, Handled, has_key, generate, created, handle_request, join_private, match_open,
}

-- `GameId::generate` ends with the first draw that is not a key of the two maps.
generate_fresh :
    (opened closed : LobbyMap) (draws : List GameId) (id : GameId)
    → generate opened closed draws ≡ some id
    → (has_key id opened ≡ false) × (has_key id closed ≡ false)
unfolding generate
generate_fresh opened closed [] id h = absurd (ground arith)
generate_fresh opened closed (d ∷ draws) id h =
    ground (arith, generate_fresh opened closed draws id)

-- If one of the draws is a key of neither map, `GameId::generate` ends with an id.
generate_total :
    (opened closed : LobbyMap) (draws : List GameId)
    → Any (λ d. (has_key d opened ≡ false) × (has_key d closed ≡ false)) draws
    → generate opened closed draws ≢ none
unfolding generate
generate_total opened closed [] h = elim h [ ]
generate_total opened closed (d ∷ draws) (inl h) = ground arith
generate_total opened closed (d ∷ draws) (inr h) =
    ground (arith, generate_total opened closed draws h)

-- With no public room open and an id to be drawn, the first request for a public room opens one and
-- the next is matched with it: the first client is player one of a new room and does not wait, the
-- second is player two of the same room and waits for the host, the room is told of the second
-- client, and afterwards no public room is open.
pub handle_request-match :
    (fresh fresh' : Fresh) (a b : Addr) (uid vid : Option UserId) (s : LobbyManager) (id : GameId)
    → s.open_lobby ≡ none
    → generate s.open_lobby_map s.closed_lobby_map fresh.draws ≡ some id
    → (h k : Handled) × (handle_request fresh (new_lobby a uid public_lobby) s ≡ some h)
      × (handle_request fresh' (new_lobby b vid public_lobby) h.manager ≡ some k)
      × (h.response
          ≡ granted (record {
            waiting = false;
            player = one;
            game_id = id;
            lobby_addr = fresh.lobby_addr;
          }))
      × (k.response
          ≡ granted (record {
            waiting = true;
            player = two;
            game_id = id;
            lobby_addr = fresh.lobby_addr;
          }))
      × (h.out ≡ start_lobby fresh.lobby_id id a uid ∷ update true ∷ [])
      × (k.out ≡ to_lobby fresh.lobby_addr (player_joined b vid) ∷ update false ∷ [])
      × (k.manager.open_lobby ≡ none)
unfolding handle_request
handle_request-match fresh fresh' a b uid vid s id closed drawn =
    let h = created fresh a uid public_lobby id s in
    let info : LobbyInfo = record {
      lobby_id = fresh.lobby_id;
      game_id = id;
      addr = fresh.lobby_addr;
      kind = public_lobby;
    } in
    (
      record h { out = h.out ++ update true ∷ [] },
      match_open b vid info h.manager,
      ground arith,
      refl,
      refl,
      refl,
      refl,
      refl,
      refl,
    )

-- A client that asks for a private room by its id is granted the place of player two, and the manager
-- stays as it is.
pub handle_request-join :
    (fresh : Fresh) (id : GameId) (a : Addr) (uid : Option UserId) (s : LobbyManager)
    (info : LobbyInfo)
    → info.kind ≡ private_lobby
    → lookup id s.open_lobby_map ≡ some info
    → (h : Handled) × (handle_request fresh (join_lobby id a uid private_lobby) s ≡ some h)
      × (h.response
          ≡ granted
              (record { waiting = false; player = two; game_id = id; lobby_addr = info.addr }))
      × (h.manager ≡ s)
unfolding handle_request
handle_request-join fresh id a uid s info private found = (
  join_private id a uid private_lobby (some info) s,
  rw found,
  ground (arith, private),
  ground (arith, private),
)
