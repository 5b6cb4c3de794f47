-- ===== src/Game/Manager.antt =====
-- src/game/lobby_mgr.rs: the open and the running rooms. What is drawn at random or made by starting
-- an actor is an argument; a handler whose draws of a game id run out gives `none`.
pub mod Matching
pub mod Closing
pub mod Run
use fourinarow_server.Base.{
  Dict, lookup, remove, insert, ◌==◌, if◌then◌else◌, is_some, ℕ, Bool, true, false, ◌||◌, Option,
  none, some, List, [], ◌∷◌, ◌++◌,
}
use fourinarow_server.Game.Error.{SrvMsgError, lobby_full, lobby_not_found}
use fourinarow_server.Game.Message.{
  Addr, UserId, GameId, ServerMessage, LobbyKind, private_lobby, public_lobby, same_kind,
}
use fourinarow_server.Game.Board.{Player, one, two}
use fourinarow_server.Game.Lobby.{LobbyMessage, player_joined}

pub record LobbyInfo : Type 0 where
  pub lobby_id : ℕ
  pub game_id : GameId
  pub addr : Addr
  pub kind : LobbyKind

abbrev pub LobbyMap : Type 0
LobbyMap = Dict LobbyInfo

pub record LobbyManager : Type 0 where
  pub open_lobby : Option LobbyInfo
  pub open_lobby_map : LobbyMap
  pub closed_lobby_map : LobbyMap

-- `PlayedGameInfo` of src/api/users/user.rs: the settlement's id, the winner and the loser.
pub record PlayedGameInfo : Type 0 where
  pub settlement_id : ℕ
  pub winner : UserId
  pub loser : UserId

pub data LobbyRequest : Type 0 where
  new_lobby : Addr → Option UserId → LobbyKind → LobbyRequest
  join_lobby : GameId → Addr → Option UserId → LobbyKind → LobbyRequest

pub record LobbyRequestResponse : Type 0 where
  pub waiting : Bool
  pub player : Player
  pub game_id : GameId
  pub lobby_addr : Addr

pub data Response : Type 0 where
  granted : LobbyRequestResponse → Response
  denied : SrvMsgError → Response

pub data LobbyManagerMsg : Type 0 where
  close_lobby_msg : GameId → LobbyManagerMsg
  played_game : PlayedGameInfo → LobbyManagerMsg

-- `start_lobby` starts the actor of a room for its host; `update` tells the connection manager
-- whether somebody waits; `settle` goes to the user manager.
pub data Effect : Type 0 where
  start_lobby : ℕ → GameId → Addr → Option UserId → Effect
  to_lobby : Addr → LobbyMessage → Effect
  to_client : Addr → ServerMessage → Effect
  battle_req_join_lobby : Addr → Addr → Effect
  update : Bool → Effect
  settle : PlayedGameInfo → Effect

pub record Fresh : Type 0 where
  pub lobby_id : ℕ
  pub draws : List GameId
  pub lobby_addr : Addr

unfoldable pub empty : LobbyManager
empty = record { open_lobby = none; open_lobby_map = []; closed_lobby_map = [] }

unfoldable pub has_key : GameId → LobbyMap → Bool
has_key id [] = false
has_key id ((k, info) ∷ m) = k == id || has_key id m

-- `GameId::generate` of src/game/game_info.rs over the draws of `generate_inner`.
unfoldable pub generate : LobbyMap → LobbyMap → List GameId → Option GameId
unfolding has_key
generate opened closed [] = none
generate opened closed (id ∷ ids) =
    let rest = generate opened closed ids in
    if has_key id opened || has_key id closed then rest else some id

insert_lobby : LobbyKind → LobbyInfo → LobbyManager → LobbyManager
insert_lobby public_lobby info s = record s { open_lobby = some info }
insert_lobby private_lobby info s = record s {
  open_lobby_map = insert info.game_id info s.open_lobby_map;
}

-- What a handler leaves: the manager, the effects and, for a request, the response.
pub record Handled : Type 0 where
  pub manager : LobbyManager
  pub out : List Effect
  pub response : Response

created : Fresh → Addr → Option UserId → LobbyKind → GameId → LobbyManager → Handled
unfolding insert_lobby
created fresh host uid kind id s = record {
  manager =
      insert_lobby kind
        (record { lobby_id = fresh.lobby_id; game_id = id; addr = fresh.lobby_addr; kind = kind })
        s;
  out = start_lobby fresh.lobby_id id host uid ∷ [];
  response =
      granted
        (record { waiting = false; player = one; game_id = id; lobby_addr = fresh.lobby_addr });
}

unfoldable pub create_lobby :
    Fresh → Addr → Option UserId → LobbyKind → LobbyManager → Option Handled
unfolding generate created
create_lobby fresh host uid kind s =
    elim (generate s.open_lobby_map s.closed_lobby_map fresh.draws) [
      | none ↦ none
      | some id ↦ some (created fresh host uid kind id s)
    ]

abbrev with_update : Option Handled → Option Handled
with_update none = none
with_update (some h) = some (record h { out = h.out ++ update (is_some h.manager.open_lobby) ∷ [] })

-- The second player of a public room.
match_open : Addr → Option UserId → LobbyInfo → LobbyManager → Handled
match_open a uid info s = record {
  manager = record s {
    open_lobby = none;
    closed_lobby_map = insert info.game_id info s.closed_lobby_map;
  };
  out = to_lobby info.addr (player_joined a uid) ∷ update false ∷ [];
  response =
      granted
        (record { waiting = true; player = two; game_id = info.game_id; lobby_addr = info.addr });
}

request_public : Fresh → Addr → Option UserId → Option LobbyInfo → LobbyManager → Option Handled
unfolding create_lobby match_open
request_public fresh a uid none s = with_update (create_lobby fresh a uid public_lobby s)
request_public fresh a uid (some info) s = some (match_open a uid info s)

join_private : GameId → Addr → Option UserId → LobbyKind → Option LobbyInfo → LobbyManager → Handled
unfolding same_kind
join_private id a uid kind none s = record {
  manager = s;
  out = to_client a (ServerMessage.error (some lobby_not_found)) ∷ [];
  response = denied lobby_not_found;
}
join_private id a uid kind (some info) s =
    if same_kind info.kind kind
    then record {
      manager = s;
      out = to_lobby info.addr (player_joined a uid) ∷ [];
      response =
          granted (record { waiting = false; player = two; game_id = id; lobby_addr = info.addr });
    }
    else record { manager = s; out = []; response = denied lobby_full }

-- `Handler<LobbyRequest>`.
unfoldable pub handle_request : Fresh → LobbyRequest → LobbyManager → Option Handled
unfolding request_public join_private create_lobby
handle_request fresh (new_lobby a uid public_lobby) s = request_public fresh a uid s.open_lobby s
handle_request fresh (new_lobby a uid private_lobby) s = create_lobby fresh a uid private_lobby s
handle_request fresh (join_lobby id a uid kind) s =
    some (join_private id a uid kind (lookup id s.open_lobby_map) s)

-- `Handler<GetIsPlayerWaitingMsg>`.
unfoldable pub is_player_waiting : LobbyManager → Bool
is_player_waiting s = is_some s.open_lobby

unfoldable pub close_open : GameId → Option LobbyInfo → Option LobbyInfo
close_open id none = none
close_open id (some info) = if info.game_id == id then none else some info

-- `Handler<LobbyManagerMsg>`.
unfoldable pub handle_msg : LobbyManagerMsg → LobbyManager → LobbyManager × List Effect
unfolding close_open
handle_msg (close_lobby_msg id) s =
    let t : LobbyManager = record {
      open_lobby = close_open id s.open_lobby;
      open_lobby_map = remove id s.open_lobby_map;
      closed_lobby_map = remove id s.closed_lobby_map;
    } in
    (t, update (is_some t.open_lobby) ∷ [])
handle_msg (played_game info) s = (s, settle info ∷ [])

pub record BattleReq : Type 0 where
  pub sender_addr : Addr
  pub sender_uid : UserId
  pub receiver_addr : Addr
  pub receiver_uid : UserId

battle_messages : BattleReq → Response → List Effect
battle_messages m (granted r) =
    battle_req_join_lobby m.sender_addr r.lobby_addr
    ∷ to_client m.receiver_addr (ServerMessage.battle_req m.sender_uid r.game_id)
    ∷ []
battle_messages m (denied e) = []

-- `Handler<BattleReq>`: a private room for the challenger, and an invitation.
unfoldable pub handle_battle_req : Fresh → BattleReq → LobbyManager → Option Handled
unfolding create_lobby battle_messages
handle_battle_req fresh m s =
    elim (create_lobby fresh m.sender_addr (some m.sender_uid) private_lobby s) [
      | none ↦ none
      | some h ↦ some (record h { out = h.out ++ battle_messages m h.response })
    ]
