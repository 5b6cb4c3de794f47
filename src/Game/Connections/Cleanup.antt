-- ===== src/Game/Connections/Cleanup.antt =====
-- Presence, and the intervals of src/game/connection_mgr.rs.
use fourinarow_server.Base.{
  length, Dict, lookup, remove, leb, if◌then◌else◌, is_some, ℕ, ◌-◌, ◌/◌, Bool, true, false, Option,
  none, some, List, [], ◌∷◌, ◌++◌,
}
use fourinarow_server.Game.Message.{UserId, Instant, GameMsgOut, ServerMessage}
use fourinarow_server.Game.Connections.{
  Connection, ConnectionManager, Effect, Session, Step, WsToken, close_adapter, connected,
  connection_keepalive_seconds, disconnected, log_offline, server_state, to_state,
}

-- `Handler<IsOnline>`.
unfoldable pub is_online : UserId → ConnectionManager → Bool
is_online u c = is_some (lookup u c.user_to_session)

-- What is told the state of that connection.
unfoldable pub push_to_state : ServerMessage → Option Connection → List Effect
push_to_state m none = []
push_to_state m (some conn) = to_state conn.state_addr m ∷ []

unfoldable pub push_to_session : ServerMessage → Option Session → Dict Connection → List Effect
unfolding push_to_state
push_to_session m none conns = []
push_to_session m (some s) conns = push_to_state m (lookup s.ws_token conns)

-- `Handler<PushToUser>`.
unfoldable pub push_to_user : UserId → GameMsgOut → ConnectionManager → List Effect
unfolding push_to_session
push_to_user u m c =
    push_to_session (ServerMessage.game_protocol m) (lookup u c.user_to_session) c.connections

-- `send_server_info_to_all`, and the interval that calls it.
unfoldable pub send_server_info : ℕ → Bool → Dict Connection → List Effect
send_server_info n queued [] = []
send_server_info n queued ((token, conn) ∷ conns) =
    server_state conn.state_addr n queued ∷ send_server_info n queued conns

unfoldable pub server_info_tick : ConnectionManager → Step
unfolding send_server_info
server_info_tick c =
    if c.send_server_info_batched
    then (
      record c { send_server_info_batched = false },
      send_server_info (length c.connections) c.player_in_queue c.connections,
    )
    else (c, [])

-- A connection that has been disconnected for the keepalive time.
unfoldable pub is_expired : Instant → Connection → Bool
is_expired now conn = elim conn.state [
  | connected a ↦ false
  | disconnected since ↦ leb connection_keepalive_seconds ((now - since) / 1000)
]

-- `connections_to_remove`.
unfoldable pub to_remove : Instant → Dict Connection → Dict Connection
unfolding is_expired
to_remove now [] = []
to_remove now ((token, conn) ∷ conns) =
    let rest = to_remove now conns in if is_expired now conn then (token, conn) ∷ rest else rest

-- What the cleanup does about the user of a connection that it removes.
unfoldable pub go_offline : Option UserId → Dict Session → Dict Session × List Effect
go_offline none sessions = (sessions, [])
go_offline (some u) sessions =
    (remove u sessions, if is_some (lookup u sessions) then log_offline u ∷ [] else [])

-- The body of the `for` loop of `check_connectionstate_interval`.
unfoldable pub clean_up : WsToken → Connection → ConnectionManager → Step
unfolding go_offline
clean_up token conn c =
    let (sessions, out) = go_offline conn.user_id c.user_to_session in
    (
      record c {
        user_to_session = sessions;
        connections = remove token c.connections;
        send_server_info_batched = true;
      },
      close_adapter conn.adapter_addr ∷ out,
    )

unfoldable pub clean_up_all : Dict Connection → ConnectionManager → Step
unfolding clean_up
clean_up_all [] c = (c, [])
clean_up_all ((token, conn) ∷ conns) c =
    let (c', out) = clean_up token conn c in
    let (c'', outs) = clean_up_all conns c' in (c'', out ++ outs)

-- The interval of `check_connectionstate_interval`.
unfoldable pub sweep : Instant → ConnectionManager → Step
unfolding to_remove clean_up_all
sweep now c = clean_up_all (to_remove now c.connections) c
