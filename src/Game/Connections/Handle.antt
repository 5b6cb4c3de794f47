-- ===== src/Game/Connections/Handle.antt =====
-- The messages that the connection manager of src/game/connection_mgr.rs handles.
use fourinarow_server.Base.{
  Dict, lookup, remove, insert, ◌==◌, if◌then◌else◌, String, Bool, true, false, Option, none, some,
  List, [], ◌∷◌,
}
use fourinarow_server.Game.Message.{Addr, UserId, SessionToken, Instant, ServerMessage}
use fourinarow_server.Game.Connections.{
  Connection, ConnectionManager, ConnectionManagerMsg, Effect, Fresh, Session, Step, WsToken,
  backlink, bind_user, chat_message, chat_read, client_line, close_adapter, connect_adapter,
  connect_client, connected, disconnect, disconnect_adapter, disconnect_legacy, disconnected,
  legacy, notify_self, reliable, request_adapter_existing, request_adapter_legacy,
  request_adapter_new, start_adapter, start_legacy_adapter, start_state, to_state, unbind_user,
  update,
}

abbrev batched : ConnectionManager → ConnectionManager
batched c = record c { send_server_info_batched = true }

unfoldable pub put_connection : WsToken → Connection → ConnectionManager → ConnectionManager
put_connection token conn c = record c { connections = insert token conn c.connections }

unfoldable pub drop_legacy : WsToken → Option Connection → ConnectionManager → Step
drop_legacy token none c = (c, [])
drop_legacy token (some conn) c =
    (record c { connections = remove token c.connections }, close_adapter conn.adapter_addr ∷ [])

-- A connection may be told to close by an address that it no longer has.
unfoldable pub drop_current : Instant → Addr → WsToken → Connection → ConnectionManager → Step
unfolding put_connection
drop_current now address token conn c = elim conn.state [
  | connected current ↦
      if address == current
      then (
        put_connection token (record conn { state = disconnected now }) c,
        disconnect_adapter conn.adapter_addr ∷ [],
      )
      else (c, [])
  | disconnected since ↦ (c, [])
]

unfoldable pub drop_reliable :
    Instant → Addr → WsToken → Option Connection → ConnectionManager → Step
unfolding drop_current
drop_reliable now address token none c = (c, [])
drop_reliable now address token (some conn) c = drop_current now address token conn c

unfoldable pub then_batch : Step → Step
then_batch (c, out) = (batched c, out)

-- A message to the states of all connections but the sender's.
unfoldable pub broadcast : WsToken → ServerMessage → Dict Connection → List Effect
broadcast sender m [] = []
broadcast sender m ((token, conn) ∷ conns) =
    let rest = broadcast sender m conns in
    if token == sender then rest else to_state conn.state_addr m ∷ rest

abbrev fresh_connection : Fresh → Addr → Connection
fresh_connection fresh client = record {
  adapter_addr = fresh.adapter_addr;
  state_addr = fresh.state_addr;
  state = connected client;
  user_id = none;
}

unfoldable pub adapter_new : Fresh → Addr → ConnectionManager → Step
unfolding put_connection
adapter_new fresh client c = (
  batched (put_connection fresh.session_token (fresh_connection fresh client) c),
  start_state fresh.state_addr fresh.session_token
      ∷ start_adapter fresh.adapter_addr client fresh.state_addr
      ∷ connect_client client fresh.session_token fresh.adapter_addr (reliable true)
      ∷ [],
)

unfoldable pub adapter_existing : Addr → WsToken → Option Connection → ConnectionManager → Step
unfolding put_connection
adapter_existing client token none c = (c, notify_self (request_adapter_new client) ∷ [])
adapter_existing client token (some conn) c = (
  put_connection token (record conn { state = connected client }) c,
  connect_adapter conn.adapter_addr client
      ∷ connect_client client token conn.adapter_addr (reliable false)
      ∷ [],
)

queued_line : Addr → Option String → List Effect
queued_line adapter none = []
queued_line adapter (some line) = client_line adapter line ∷ []

unfoldable pub adapter_legacy : Fresh → Addr → Option String → ConnectionManager → Step
unfolding put_connection queued_line
adapter_legacy fresh client line c = (
  batched (put_connection fresh.session_token (fresh_connection fresh client) c),
  start_state fresh.state_addr fresh.session_token
      ∷ start_legacy_adapter fresh.adapter_addr client fresh.state_addr
      ∷ connect_client client fresh.session_token fresh.adapter_addr legacy
      ∷ queued_line fresh.adapter_addr line,
)

-- `get_mut` of a connection with an assignment to its `user_id`.
unfoldable pub set_user : WsToken → Option UserId → Dict Connection → Dict Connection
set_user token u conns = elim (lookup token conns) [
  | none ↦ conns
  | some conn ↦ insert token (record conn { user_id = u }) conns
]

unfoldable pub close_former : Option Connection → List Effect
close_former none = []
close_former (some conn) = close_adapter conn.adapter_addr ∷ []

-- The connection that the user had before is closed.
unfoldable pub kick : UserId → Option Session → ConnectionManager → Step
unfolding set_user close_former
kick u none c = (c, [])
kick u (some s) c = (
  record c {
    user_to_session = remove u c.user_to_session;
    connections = set_user s.ws_token none c.connections;
  },
  close_former (lookup s.ws_token c.connections),
)

unfoldable pub bind : UserId → SessionToken → WsToken → ConnectionManager → Step
unfolding kick set_user
bind u api token c =
    let (kicked, out) = kick u (lookup u c.user_to_session) c in
    (
      record kicked {
        user_to_session =
            insert u (record { ws_token = token; api_token = api }) kicked.user_to_session;
        connections = set_user token (some u) kicked.connections;
      },
      out,
    )

unfoldable pub holds_token : SessionToken → Option Session → Bool
holds_token api none = false
holds_token api (some s) = s.api_token == api

unfoldable pub unbind : UserId → SessionToken → ConnectionManager → ConnectionManager
unfolding holds_token
unbind u api c =
    if holds_token api (lookup u c.user_to_session)
    then record c { user_to_session = remove u c.user_to_session }
    else c

-- `Handler<ConnectionManagerMsg>`; `short_name` is the start of a token that a chat message shows.
unfoldable pub handle :
    (WsToken → String) → Fresh → Instant → ConnectionManagerMsg → ConnectionManager → Step
unfolding drop_legacy drop_reliable then_batch broadcast adapter_new adapter_existing adapter_legacy
    bind unbind
handle short_name fresh now (disconnect address token) c =
    then_batch (drop_reliable now address token (lookup token c.connections) c)
handle short_name fresh now (disconnect_legacy address token) c =
    then_batch (drop_legacy token (lookup token c.connections) c)
handle short_name fresh now (update queued) c =
    (batched (record c { player_in_queue = queued }), [])
handle short_name fresh now (chat_message sender text) c = (
  c,
  broadcast sender (ServerMessage.chat_message true text (some (short_name sender))) c.connections,
)
handle short_name fresh now (chat_read sender) c =
    (c, broadcast sender (ServerMessage.chat_read true) c.connections)
handle short_name fresh now (backlink a) c = (record c { lobby_mgr = some a }, [])
handle short_name fresh now (request_adapter_new client) c = adapter_new fresh client c
handle short_name fresh now (request_adapter_existing client token) c =
    adapter_existing client token (lookup token c.connections) c
handle short_name fresh now (request_adapter_legacy client line) c =
    adapter_legacy fresh client line c
handle short_name fresh now (bind_user u api token) c = bind u api token c
handle short_name fresh now (unbind_user u api) c = (unbind u api c, [])
