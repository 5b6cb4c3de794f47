-- ===== src/Game/Connections/Sweep.antt =====
-- The cleanup of src/game/connection_mgr.rs: which connections it removes, and whom it takes offline.
use fourinarow_server.Base.{
  Any, Dict, lookup, lookup-remove, lookup-insert, ◌==◌, Bool-cases, is_some, ℕ, String, ◌≡◌, refl,
  ap, ◌≢◌, ◌↔◌, inl, inr, true, false, Option, none, some, [], ◌∷◌, arith,
}
use fourinarow_server.Game.Message.{Addr, UserId, Instant}
use fourinarow_server.Game.Connections.{
  WsToken, connected, Connection, Session, ConnectionManager, Fresh, request_adapter_existing,
  disconnect,
}
use fourinarow_server.Game.Connections.Cleanup.{
  is_online, is_expired, to_remove, go_offline, clean_up, clean_up_all, sweep,
}
use fourinarow_server.Game.Connections.Handle.{
  handle, put_connection, drop_reliable, drop_current, adapter_existing, then_batch,
}

-- The entry is a connection of that user.
abbrev pub IsOf : UserId → ℕ × Connection → Type 0
IsOf u e = e.1.user_id ≡ some u

-- It has been disconnected for the keepalive time and is of that user.
abbrev pub ExpiredOf : Instant → UserId → ℕ × Connection → Type 0
ExpiredOf now u e = (is_expired now e.1 ≡ true) × IsOf u e

go_offline-lookup :
    (o : Option UserId) (u : UserId) (sessions : Dict Session)
    → (is_some (lookup u (go_offline o sessions).0) ≡ true)
      ↔ ((is_some (lookup u sessions) ≡ true) × (o ≢ some u))
unfolding go_offline
go_offline-lookup none u sessions = (λ h. (h, λ e. cc), λ p. p.0)
go_offline-lookup (some v) u sessions = rw (lookup-remove u v) (elim (Bool-cases (v == u)) [
  | inl same ↦
      let here : v ≡ u = ground arith in
      rw same (λ h. absurd (ground arith), λ p. absurd (p.1 (ap some here)))
  | inr diff ↦ rw diff (λ h. (h, λ e. ground arith), λ p. p.0)
])

clean_up_all-is_online :
    (conns : Dict Connection) (u : UserId) (c : ConnectionManager)
    → (is_online u (clean_up_all conns c).0 ≡ true)
      ↔ ((is_online u c ≡ true) × ¬ Any (IsOf u) conns)
unfolding clean_up_all clean_up is_online
clean_up_all-is_online [] u c = (λ h. (h, λ a. a), λ p. p.0)
clean_up_all-is_online ((token, conn) ∷ conns) u c =
    let one = go_offline-lookup conn.user_id u c.user_to_session in
    let rest = clean_up_all-is_online conns u (clean_up token conn c).0 in
    (
      λ h.
          let (now_online, nobody) = rest.0 h in
          let (online, not_this) = one.0 now_online in
          (online, λ a. elim a [ inl this ↦ not_this this | inr later ↦ nobody later ]),
      λ p. rest.1 (one.1 (p.0, λ this. p.1 (inl this)), λ later. p.1 (inr later)),
    )

to_remove-Any :
    (now : Instant) (conns : Dict Connection) (u : UserId)
    → Any (IsOf u) (to_remove now conns) ↔ Any (ExpiredOf now u) conns
unfolding to_remove
to_remove-Any now [] u = (λ a. a, λ a. a)
to_remove-Any now ((token, conn) ∷ conns) u =
    let rest = to_remove-Any now conns u in
    elim (Bool-cases (is_expired now conn)) [
      | inl late ↦ rw late (
        λ a. elim a [ inl this ↦ inl (refl, this) | inr later ↦ inr (rest.0 later) ],
        λ a. elim a [ inl this ↦ inl this.1 | inr later ↦ inr (rest.1 later) ],
      )
      | inr early ↦ rw early (
        λ a. inr (rest.0 a),
        λ a. elim a [
          | inl this ↦ absurd (let bad = this.0 in ground arith)
          | inr later ↦ rest.1 later
        ],
      )
    ]

-- After the cleanup the users are online who were so and whose id stands on no connection that has
-- been disconnected for the keepalive time; whether a user's present login is on another
-- connection makes no difference.
pub sweep-is_online :
    (now : Instant) (u : UserId) (c : ConnectionManager)
    → (is_online u (sweep now c).0 ≡ true)
      ↔ ((is_online u c ≡ true) × ¬ Any (ExpiredOf now u) c.connections)
unfolding sweep
sweep-is_online now u c =
    let all = clean_up_all-is_online (to_remove now c.connections) u c in
    let late = to_remove-Any now c.connections u in
    (λ h. let p = all.0 h in (p.0, λ a. p.1 (late.1 a)), λ p. all.1 (p.0, λ a. p.1 (late.0 a)))

-- A client that comes back on a connection of another address, before the end of the old one is
-- noticed, stays connected: when the old one's end is handled, the client's connection is still
-- the new one, and nothing is sent.
pub handle-reconnect :
    (short_name : WsToken → String) (fresh fresh' : Fresh) (now later : Instant) (old client : Addr)
    (token : WsToken) (conn : Connection) (c : ConnectionManager)
    → lookup token c.connections ≡ some conn
    → client ≢ old
    → let back = (handle short_name fresh now (request_adapter_existing client token) c).0 in
      let gone = handle short_name fresh' later (disconnect old token) back in
      (lookup token gone.0.connections ≡ some (record conn { state = connected client }))
      × (gone.1 ≡ [])
unfolding handle adapter_existing put_connection drop_reliable drop_current then_batch
handle-reconnect short_name fresh fresh' now later old client token conn c found ne =
    let same : (token == token) ≡ true = ground arith in
    let differs : (old == client) ≡ false = ground arith in
    rw (found, lookup-insert token token, same, differs)
      (rw (lookup-insert token token, same) refl, refl)
