-- ===== src/Game/Connections/Run.antt =====
-- Sequences of what the connection manager of src/game/connection_mgr.rs handles, and the
-- connections that its cleanup removes.
use fourinarow_server.Base.{
  Dict, lookup, lookup-remove, Distinct, Distinct-remove, Distinct-insert, ◌==◌, if◌then◌else◌,
  Bool-cases, Option-cases, is_some, String, ◌≡◌, refl, ◌↔◌, inl, inr, Bool, false, Option, none,
  some, List, [], ◌∷◌, arith,
}
use fourinarow_server.Game.Message.{Addr, UserId, Instant}
use fourinarow_server.Game.Connections.{
  WsToken, disconnected, Connection, Session, ConnectionManager, Fresh, ConnectionManagerMsg, new,
  disconnect, disconnect_legacy, update, chat_message, chat_read, backlink, request_adapter_new,
  request_adapter_existing, request_adapter_legacy, bind_user, unbind_user,
}
use fourinarow_server.Game.Connections.Cleanup.{
  is_expired, to_remove, clean_up, clean_up_all, sweep, server_info_tick,
}
use fourinarow_server.Game.Connections.Handle.{
  handle, put_connection, drop_reliable, drop_current, drop_legacy, adapter_existing, adapter_new,
  adapter_legacy, then_batch, set_user, kick, bind, unbind,
}

-- A message, a round of the cleanup, or one of the interval that reports the server's state.
pub data Event : Type 0 where
  message : Fresh → Instant → ConnectionManagerMsg → Event
  cleanup : Instant → Event
  report : Event

unfoldable pub step : (WsToken → String) → ConnectionManager → Event → ConnectionManager
step short_name c (message fresh now m) = (handle short_name fresh now m c).0
step short_name c (cleanup now) = (sweep now c).0
step short_name c report = (server_info_tick c).0

unfoldable pub run : (WsToken → String) → ConnectionManager → List Event → ConnectionManager
unfolding step
run short_name c [] = c
run short_name c (e ∷ es) = run short_name (step short_name c e) es

set_user-Distinct :
    (token : WsToken) (u : Option UserId) (conns : Dict Connection)
    → Distinct conns
    → Distinct (set_user token u conns)
unfolding set_user
set_user-Distinct token u conns d = elim (Option-cases (lookup token conns)) [
  | inl e ↦ rw (e, set_user) d
  | inr (conn, e) ↦ rw (e, set_user) (Distinct-insert token (record conn { user_id = u }) conns d)
]

drop_reliable-Distinct :
    (now : Instant) (a : Addr) (token : WsToken) (o : Option Connection) (c : ConnectionManager)
    → Distinct c.connections
    → Distinct (drop_reliable now a token o c).0.connections
unfolding drop_reliable drop_current put_connection
drop_reliable-Distinct now a token none c d = d
drop_reliable-Distinct now a token (some conn) c d =
    let closed = Distinct-insert token (record conn { state = disconnected now }) c.connections d in
    ground arith

kick-Distinct :
    (u : UserId) (s : Option Session) (c : ConnectionManager)
    → Distinct c.connections
    → Distinct (kick u s c).0.connections
unfolding kick
kick-Distinct u none c d = d
kick-Distinct u (some s) c d = set_user-Distinct s.ws_token none c.connections d

handle-Distinct :
    (short_name : WsToken → String) (fresh : Fresh) (now : Instant) (m : ConnectionManagerMsg)
    (c : ConnectionManager)
    → Distinct c.connections
    → Distinct (handle short_name fresh now m c).0.connections
unfolding handle then_batch drop_legacy adapter_new adapter_existing adapter_legacy put_connection
    bind unbind
handle-Distinct short_name fresh now (disconnect a token) c d =
    drop_reliable-Distinct now a token (lookup token c.connections) c d
handle-Distinct short_name fresh now (disconnect_legacy a token) c d =
    elim (Option-cases (lookup token c.connections)) [
      | inl e ↦ rw e d
      | inr (conn, e) ↦ rw e (Distinct-remove token c.connections d)
    ]
handle-Distinct short_name fresh now (update queued) c d = d
handle-Distinct short_name fresh now (chat_message sender text) c d = d
handle-Distinct short_name fresh now (chat_read sender) c d = d
handle-Distinct short_name fresh now (backlink a) c d = d
handle-Distinct short_name fresh now (request_adapter_new client) c d =
    Distinct-insert fresh.session_token _ c.connections d
handle-Distinct short_name fresh now (request_adapter_existing client token) c d =
    elim (Option-cases (lookup token c.connections)) [
      | inl e ↦ rw e d
      | inr (conn, e) ↦ rw e (Distinct-insert token _ c.connections d)
    ]
handle-Distinct short_name fresh now (request_adapter_legacy client line) c d =
    Distinct-insert fresh.session_token _ c.connections d
handle-Distinct short_name fresh now (bind_user u api token) c d =
    set_user-Distinct token (some u) _ (kick-Distinct u (lookup u c.user_to_session) c d)
handle-Distinct short_name fresh now (unbind_user u api) c d = ground arith

clean_up_all-Distinct :
    (conns : Dict Connection) (c : ConnectionManager)
    → Distinct c.connections
    → Distinct (clean_up_all conns c).0.connections
unfolding clean_up_all clean_up
clean_up_all-Distinct [] c d = d
clean_up_all-Distinct ((token, conn) ∷ conns) c d =
    clean_up_all-Distinct conns _ (Distinct-remove token c.connections d)

step-Distinct :
    (short_name : WsToken → String) (c : ConnectionManager) (e : Event)
    → Distinct c.connections
    → Distinct (step short_name c e).connections
unfolding step server_info_tick sweep
step-Distinct short_name c (message fresh now m) d = handle-Distinct short_name fresh now m c d
step-Distinct short_name c (cleanup now) d = clean_up_all-Distinct (to_remove now c.connections) c d
step-Distinct short_name c report d = ground arith

run-Distinct :
    (short_name : WsToken → String) (es : List Event) (c : ConnectionManager)
    → Distinct c.connections
    → Distinct (run short_name c es).connections
unfolding run
run-Distinct short_name [] c d = d
run-Distinct short_name (e ∷ es) c d = run-Distinct short_name es _ (step-Distinct short_name c e d)

-- The cleanup leaves the entries that are under no key of the list.
clean_up_all-lookup :
    (conns : Dict Connection) (token : WsToken) (c : ConnectionManager)
    → lookup token (clean_up_all conns c).0.connections
      ≡ (if is_some (lookup token conns) then none else lookup token c.connections)
unfolding clean_up_all clean_up lookup
clean_up_all-lookup [] token c = refl
clean_up_all-lookup ((k, conn) ∷ conns) token c = ground (
  arith,
  clean_up_all-lookup conns token (clean_up k conn c).0,
  lookup-remove token k c.connections,
)

-- The connection is there and has been disconnected for the keepalive time.
abbrev is_late : Instant → Option Connection → Bool
is_late now none = false
is_late now (some conn) = is_expired now conn

to_remove-lookup :
    (now : Instant) (conns : Dict Connection) (token : WsToken)
    → Distinct conns
    → is_some (lookup token (to_remove now conns)) ≡ is_late now (lookup token conns)
unfolding to_remove lookup
to_remove-lookup now [] token d = refl
to_remove-lookup now ((k, conn) ∷ conns) token d =
    let rest = to_remove-lookup now conns token d.1 in
    let alone = d.0 in
    elim (Bool-cases (k == token)) [
      | inl same ↦
          let gone : lookup token conns ≡ none = ground arith in
          elim (Bool-cases (is_expired now conn)) [
            | inl late ↦ rw (late, same, late) refl
            | inr early ↦ rw (early, same, early, rest, gone) refl
          ]
      | inr diff ↦ elim (Bool-cases (is_expired now conn)) [
        | inl late ↦ rw (late, diff) rest
        | inr early ↦ rw (early, diff) rest
      ]
    ]

on_time :
    (now : Instant) (o : Option Connection) (conn : Connection)
    → ((if is_late now o then none else o) ≡ some conn)
      ↔ ((o ≡ some conn) × (is_expired now conn ≡ false))
on_time now none conn = (λ h. cc, λ p. absurd (let bad = p.0 in cc))
on_time now (some d) conn = elim (Bool-cases (is_expired now d)) [
  | inl late ↦ rw late (λ h. cc, λ p. absurd (let same = p.0 in let early = p.1 in ground arith))
  | inr early ↦ rw early (λ h. (h, ground arith), λ p. p.0)
]

-- After anything that the manager has handled since its start, a round of the cleanup keeps exactly
-- the connections that have not been disconnected for the keepalive time.
pub run-cleanup :
    (short_name : WsToken → String) (es : List Event) (now : Instant) (token : WsToken)
    (conn : Connection)
    → let c = run short_name new es in
      (lookup token (step short_name c (cleanup now)).connections ≡ some conn)
      ↔ ((lookup token c.connections ≡ some conn) × (is_expired now conn ≡ false))
unfolding step sweep
run-cleanup short_name es now token conn =
    let c = run short_name new es in
    let d : Distinct c.connections = run-Distinct short_name es new (unfold new in tt) in
    let gone = to_remove-lookup now c.connections token d in
    rw (clean_up_all-lookup (to_remove now c.connections) token c, gone)
      (on_time now (lookup token c.connections) conn)
