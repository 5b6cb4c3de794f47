-- ===== src/Game/Manager/Run.antt =====
-- Sequences of what the lobby manager of src/game/lobby_mgr.rs handles, and the rooms that it keeps.
use fourinarow_server.Base.{
  lookup, remove, insert, lookup-remove, lookup-insert, Option-cases, ◌≡◌, refl, sym, inl, inr,
  false, Option, none, some, List, [], ◌∷◌, map, arith,
}
use fourinarow_server.Game.Message.{Addr, UserId, GameId, LobbyKind, private_lobby, public_lobby}
use fourinarow_server.Game.Board.{two}
use fourinarow_server.Game.Manager.{
  LobbyInfo, LobbyMap, LobbyManager, LobbyRequest, new_lobby, join_lobby, LobbyManagerMsg,
  close_lobby_msg, played_game, granted, Fresh, Handled, BattleReq, empty, generate, insert_lobby,
  created, create_lobby, with_update, match_open, request_public, join_private, handle_request,
  close_open, handle_msg, handle_battle_req, Response,
}
use fourinarow_server.Game.Manager.Matching.{handle_request-join}

pub data Event : Type 0 where
  request : Fresh → LobbyRequest → Event
  message : LobbyManagerMsg → Event
  battle : Fresh → BattleReq → Event

-- The manager that a handler leaves, if its draws have sufficed.
abbrev left : Option Handled → Option LobbyManager
left none = none
left (some h) = some h.manager

unfoldable pub step : LobbyManager → Event → Option LobbyManager
step s (request fresh r) = left (handle_request fresh r s)
step s (message m) = some (handle_msg m s).0
step s (battle fresh m) = left (handle_battle_req fresh m s)

unfoldable pub run : LobbyManager → List Event → Option LobbyManager
unfolding step
run s [] = some s
run s (e ∷ es) = elim (step s e) [ none ↦ none | some t ↦ run t es ]

-- Every room of the map is kept under its own id, and is of that kind.
abbrev pub Sorted : LobbyKind → LobbyMap → Type 0
Sorted kind m =
    (id : GameId) (info : LobbyInfo)
    → lookup id m ≡ some info
    → (info.game_id ≡ id) × (info.kind ≡ kind)

-- The rooms that can be joined by their id are private, and the others public.
pub record IsOrderly (s : LobbyManager) : Type 0 where
  pub waiting : (info : LobbyInfo) → s.open_lobby ≡ some info → info.kind ≡ public_lobby
  pub joinable : Sorted private_lobby s.open_lobby_map
  pub running : Sorted public_lobby s.closed_lobby_map

Sorted-insert :
    (kind : LobbyKind) (room : LobbyInfo) (m : LobbyMap)
    → room.kind ≡ kind
    → Sorted kind m
    → Sorted kind (insert room.game_id room m)
Sorted-insert kind room m k v j info h =
    ground (arith, lookup-insert j room.game_id room m, v j info)

Sorted-remove :
    (kind : LobbyKind) (id : GameId) (m : LobbyMap) → Sorted kind m → Sorted kind (remove id m)
Sorted-remove kind id m v j info h = ground (arith, lookup-remove j id m, v j info)

-- A handler that returns leaves the rooms orderly.
abbrev Keeps : Option LobbyManager → Type 0
Keeps none = Unit
Keeps (some s) = IsOrderly s

created-IsOrderly :
    (fresh : Fresh) (a : Addr) (uid : Option UserId) (kind : LobbyKind) (id : GameId)
    (s : LobbyManager)
    → IsOrderly s
    → IsOrderly (created fresh a uid kind id s).manager
unfolding created insert_lobby
created-IsOrderly fresh a uid private_lobby id s v = record {
  waiting = v.waiting;
  joinable = Sorted-insert private_lobby _ s.open_lobby_map refl v.joinable;
  running = v.running;
}
created-IsOrderly fresh a uid public_lobby id s v = record {
  waiting = λ info h. ground arith;
  joinable = v.joinable;
  running = v.running;
}

create_lobby-Keeps :
    (fresh : Fresh) (a : Addr) (uid : Option UserId) (kind : LobbyKind) (s : LobbyManager)
    → IsOrderly s
    → Keeps (left (create_lobby fresh a uid kind s))
unfolding create_lobby
create_lobby-Keeps fresh a uid kind s v =
    elim (Option-cases (generate s.open_lobby_map s.closed_lobby_map fresh.draws)) [
      | inl n ↦ rw (n, create_lobby) tt
      | inr (id, d) ↦ rw (d, create_lobby) (created-IsOrderly fresh a uid kind id s v)
    ]

with_update-Keeps : (o : Option Handled) → Keeps (left o) → Keeps (left (with_update o))
with_update-Keeps none k = tt
with_update-Keeps (some h) k = k

match_open-IsOrderly :
    (a : Addr) (uid : Option UserId) (info : LobbyInfo) (s : LobbyManager)
    → s.open_lobby ≡ some info
    → IsOrderly s
    → IsOrderly (match_open a uid info s).manager
unfolding match_open
match_open-IsOrderly a uid info s e v =
    let is_public = v.waiting info e in
    record {
      waiting = λ i h. absurd (ground arith);
      joinable = v.joinable;
      running = Sorted-insert public_lobby info s.closed_lobby_map is_public v.running;
    }

request_public-Keeps :
    (fresh : Fresh) (a : Addr) (uid : Option UserId) (o : Option LobbyInfo) (s : LobbyManager)
    → s.open_lobby ≡ o
    → IsOrderly s
    → Keeps (left (request_public fresh a uid o s))
unfolding request_public
request_public-Keeps fresh a uid none s e v =
    with_update-Keeps (create_lobby fresh a uid public_lobby s)
      (create_lobby-Keeps fresh a uid public_lobby s v)
request_public-Keeps fresh a uid (some info) s e v = match_open-IsOrderly a uid info s e v

join_private-manager :
    (id : GameId) (a : Addr) (uid : Option UserId) (kind : LobbyKind) (o : Option LobbyInfo)
    (s : LobbyManager)
    → (join_private id a uid kind o s).manager ≡ s
unfolding join_private
join_private-manager id a uid kind o s = ground arith

close_open-some :
    (id : GameId) (o : Option LobbyInfo) (info : LobbyInfo)
    → close_open id o ≡ some info
    → o ≡ some info
unfolding close_open
close_open-some id none info h = absurd (ground arith)
close_open-some id (some i) info h = ground arith

close-IsOrderly :
    (id : GameId) (s : LobbyManager) → IsOrderly s → IsOrderly (handle_msg (close_lobby_msg id) s).0
unfolding handle_msg
close-IsOrderly id s v = record {
  waiting = λ info h. v.waiting info (close_open-some id s.open_lobby info h);
  joinable = Sorted-remove private_lobby id s.open_lobby_map v.joinable;
  running = Sorted-remove public_lobby id s.closed_lobby_map v.running;
}

battle-Keeps :
    (fresh : Fresh) (m : BattleReq) (s : LobbyManager)
    → IsOrderly s
    → Keeps (left (handle_battle_req fresh m s))
unfolding handle_battle_req
battle-Keeps fresh m s v =
    let made = create_lobby-Keeps fresh m.sender_addr (some m.sender_uid) private_lobby s v in
    elim (Option-cases (create_lobby fresh m.sender_addr (some m.sender_uid) private_lobby s)) [
      | inl n ↦ rw (n, handle_battle_req) tt
      | inr (h, d) ↦
          rw (d, handle_battle_req) (let kept : IsOrderly h.manager = rw d at made in kept)
    ]

step-Keeps : (s : LobbyManager) (e : Event) → IsOrderly s → Keeps (step s e)
unfolding step handle_request
step-Keeps s (request fresh (new_lobby a uid public_lobby)) v =
    request_public-Keeps fresh a uid s.open_lobby s refl v
step-Keeps s (request fresh (new_lobby a uid private_lobby)) v =
    create_lobby-Keeps fresh a uid private_lobby s v
step-Keeps s (request fresh (join_lobby id a uid kind)) v =
    rw (join_private-manager id a uid kind (lookup id s.open_lobby_map) s) v
step-Keeps s (message (close_lobby_msg id)) v = close-IsOrderly id s v
step-Keeps s (message (played_game info)) v = unfold handle_msg in v
step-Keeps s (battle fresh m) v = battle-Keeps fresh m s v

-- Whatever the lobby manager handles, every room that it keeps is under its own id, those that can be
-- joined by their id are private, and the one that waits for a player and those that are full are
-- public, if this holds at the beginning.
pub run-IsOrderly :
    (s t : LobbyManager) (es : List Event) → IsOrderly s → run s es ≡ some t → IsOrderly t
unfolding run
run-IsOrderly s t [] v e = rw (let same : s ≡ t = ground arith in sym same) v
run-IsOrderly s t (e ∷ es) v h = elim (Option-cases (step s e)) [
  | inl n ↦ absurd (let end : none ≡ some t = rw (n, run) at h in ground arith)
  | inr (u, d) ↦
      let kept : IsOrderly u = rw d at (step-Keeps s e v) in
      run-IsOrderly u t es kept (rw (d, run) at h)
]

pub empty-IsOrderly : IsOrderly empty
unfolding empty lookup
empty-IsOrderly = record {
  waiting = λ info h. absurd (ground arith);
  joinable = λ id info h. absurd (ground arith);
  running = λ id info h. absurd (ground arith);
}

-- Clients that ask one after the other to join the private room of that id, as a client asks for it:
-- the answers, and the manager afterwards.
unfoldable pub join_all :
    GameId
    → List (Fresh × Addr × Option UserId)
    → LobbyManager
    → Option (List Response × LobbyManager)
join_all id [] s = some ([], s)
join_all id ((fresh, a, uid) ∷ clients) s =
    elim (handle_request fresh (join_lobby id a uid private_lobby) s) [
      | none ↦ none
      | some h ↦ elim (join_all id clients h.manager) [
        | none ↦ none
        | some (responses, t) ↦ some (h.response ∷ responses, t)
      ]
    ]

join_all-granted :
    (id : GameId) (clients : List (Fresh × Addr × Option UserId)) (s : LobbyManager)
    (info : LobbyInfo)
    → info.kind ≡ private_lobby
    → lookup id s.open_lobby_map ≡ some info
    → join_all id clients s
      ≡ some (
        map
            (λ client.
              granted
                (record { waiting = false; player = two; game_id = id; lobby_addr = info.addr }))
            clients,
        s,
      )
unfolding join_all
join_all-granted id [] s info private found = refl
join_all-granted id ((fresh, a, uid) ∷ clients) s info private found =
    let (h, asked, place, same) = handle_request-join fresh id a uid s info private found in
    rw (asked, join_all, same, join_all-granted id clients s info private found, place) refl

-- Whatever the lobby manager has handled since its start, if a room can be joined by its id, then of any
-- number of clients that ask for it one after the other, each as a join of a private room, every one
-- is granted the place of player two, none is told that the room is full, and the manager stays as
-- it is.
pub run-join_again :
    (es : List Event) (s : LobbyManager) (id : GameId) (info : LobbyInfo)
    (clients : List (Fresh × Addr × Option UserId))
    → run empty es ≡ some s
    → lookup id s.open_lobby_map ≡ some info
    → join_all id clients s
      ≡ some (
        map
            (λ client.
              granted
                (record { waiting = false; player = two; game_id = id; lobby_addr = info.addr }))
            clients,
        s,
      )
run-join_again es s id info clients reached found =
    let v = run-IsOrderly empty s es empty-IsOrderly reached in
    join_all-granted id clients s info (v.joinable id info found).1 found
