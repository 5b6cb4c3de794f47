-- ===== src/Game/Connections/Presence.antt =====
-- Who is online according to src/game/connection_mgr.rs, and where a push to a user goes.
use fourinarow_server.Base.{
  Dict, lookup, lookup-remove, lookup-insert, ◌==◌, if◌then◌else◌, Bool-cases, Option-cases, ◌≡◌,
  refl, ◌∙◌, ◌≢◌, ◌↔◌, inl, inr, true, false, ◌||◌, Option, none, some, [], ◌∷◌, arith,
}
use fourinarow_server.Game.Message.{UserId, SessionToken, GameMsgOut, ServerMessage}
use fourinarow_server.Game.Connections.{
  WsToken, Connection, Session, ConnectionManager, close_adapter,
}
use fourinarow_server.Game.Connections.Cleanup.{
  is_online, push_to_user, push_to_session, push_to_state,
}
use fourinarow_server.Game.Connections.Handle.{
  close_former, set_user, kick, bind, unbind, holds_token,
}

-- The user of a connection is no part of a push.
push-set_user :
    (m : ServerMessage) (j k : WsToken) (u : Option UserId) (conns : Dict Connection)
    → push_to_state m (lookup j (set_user k u conns)) ≡ push_to_state m (lookup j conns)
unfolding push_to_state set_user
push-set_user m j k u conns = elim (Option-cases (lookup k conns)) [
  | inl e ↦ rw (e, set_user) refl
  | inr (conn, e) ↦
      rw (e, set_user, lookup-insert j k)
        (elim (Bool-cases (k == j)) [
          | inl same ↦ let here : lookup j conns ≡ some conn = ground arith in rw (same, here) refl
          | inr diff ↦ rw diff refl
        ])
]

session-set_user :
    (m : ServerMessage) (s : Option Session) (k : WsToken) (u : Option UserId)
    (conns : Dict Connection)
    → push_to_session m s (set_user k u conns) ≡ push_to_session m s conns
unfolding push_to_session
session-set_user m none k u conns = refl
session-set_user m (some s) k u conns = push-set_user m s.ws_token k u conns

kick-push :
    (m : ServerMessage) (u : UserId) (s t : Option Session) (c : ConnectionManager)
    → push_to_session m t (kick u s c).0.connections ≡ push_to_session m t c.connections
unfolding kick
kick-push m u none t c = refl
kick-push m u (some s) t c = session-set_user m t s.ws_token none c.connections

kick-session :
    (u v : UserId) (s : Option Session) (c : ConnectionManager)
    → u ≢ v
    → lookup v (kick u s c).0.user_to_session ≡ lookup v c.user_to_session
unfolding kick
kick-session u v none c ne = refl
kick-session u v (some s) c ne = ground (arith, lookup-remove v u c.user_to_session)

bind-session :
    (u v : UserId) (api : SessionToken) (token : WsToken) (c : ConnectionManager)
    → lookup v (bind u api token c).0.user_to_session ≡ (
        if u == v
        then some (record { ws_token = token; api_token = api })
        else lookup v c.user_to_session)
unfolding bind
bind-session u v api token c = rw (lookup-insert v u) (elim (Bool-cases (u == v)) [
  | inl same ↦ rw same refl
  | inr diff ↦ rw diff (kick-session u v (lookup u c.user_to_session) c (ground arith))
])

-- After a login the user is online and everybody else is online as before.
pub bind-is_online :
    (u v : UserId) (api : SessionToken) (token : WsToken) (c : ConnectionManager)
    → is_online v (bind u api token c).0 ≡ (u == v || is_online v c)
unfolding is_online
bind-is_online u v api token c = ground (arith, bind-session u v api token c)

bind-connections :
    (u : UserId) (api : SessionToken) (token : WsToken) (c : ConnectionManager) (m : ServerMessage)
    (s : Option Session)
    → push_to_session m s (bind u api token c).0.connections ≡ push_to_session m s c.connections
unfolding bind
bind-connections u api token c m s =
    session-set_user m s token (some u) (kick u (lookup u c.user_to_session) c).0.connections
    ∙ kick-push m u (lookup u c.user_to_session) s c

-- After a login on a connection, what is pushed to the user goes to the state of that connection
-- if there is one, and to no other, and what is pushed to everybody else goes where it went.
bind-push_to_user :
    (u v : UserId) (api : SessionToken) (token : WsToken) (c : ConnectionManager) (m : GameMsgOut)
    → push_to_user v m (bind u api token c).0 ≡ (
        if u == v
        then push_to_state (ServerMessage.game_protocol m) (lookup token c.connections)
        else push_to_user v m c)
unfolding push_to_user
bind-push_to_user u v api token c m =
    let pushed = ServerMessage.game_protocol m in
    let conns = bind-connections u api token c pushed in
    elim (Bool-cases (u == v)) [
      | inl same ↦
          rw (bind-session u v api token c, same)
            (conns (some (record { ws_token = token; api_token = api })))
      | inr diff ↦ rw (bind-session u v api token c, diff) (conns (lookup v c.user_to_session))
    ]

-- The user's present login is the one of that token.
abbrev pub LoggedIn : UserId → SessionToken → ConnectionManager → Type 0
LoggedIn u api c = (s : Session) × (lookup u c.user_to_session ≡ some s) × (s.api_token ≡ api)

holds_token_iff :
    (u : UserId) (api : SessionToken) (c : ConnectionManager)
    → (holds_token api (lookup u c.user_to_session) ≡ true) ↔ LoggedIn u api c
unfolding holds_token
holds_token_iff u api c = elim (Option-cases (lookup u c.user_to_session)) [
  | inl e ↦ (λ h. ground arith, λ p. ground arith)
  | inr (s, e) ↦ (λ h. (s, e, ground arith), λ p. ground arith)
]

-- After a token is given back for a user, exactly those are online who were so before, less the
-- user if the token is the one of the user's present login.
unbind-is_online :
    (u v : UserId) (api : SessionToken) (c : ConnectionManager)
    → (is_online v (unbind u api c) ≡ true)
      ↔ ((is_online v c ≡ true) × ¬ ((v ≡ u) × LoggedIn u api c))
unfolding unbind is_online
unbind-is_online u v api c =
    let held = holds_token_iff u api c in
    elim (Bool-cases (holds_token api (lookup u c.user_to_session))) [
      | inl mine ↦
          rw (mine, lookup-remove v u)
            (elim (Bool-cases (u == v)) [
              | inl same ↦ rw same (
                λ h. absurd (ground arith),
                λ p. absurd (p.1 (let eq_users : v ≡ u = ground arith in eq_users, held.0 mine)),
              )
              | inr diff ↦ rw diff (λ h. (h, λ p. let eq_users = p.0 in ground arith), λ p. p.0)
            ])
      | inr stale ↦ rw stale (λ h. (h, λ p. let wrong = held.1 p.1 in ground arith), λ p. p.0)
    ]

-- When a user logs in and another token than that of this login is given back afterwards, as that
-- of a former login is, nothing changes.
bind-unbind :
    (u : UserId) (api old : SessionToken) (token : WsToken) (c : ConnectionManager)
    → api ≢ old
    → unbind u old (bind u api token c).0 ≡ (bind u api token c).0
unfolding unbind holds_token
bind-unbind u api old token c ne =
    let other_token : (api == old) ≡ false = ground arith in
    let same : (u == u) ≡ true = ground arith in
    rw (bind-session u u api token c, same, other_token) refl

pub bind-LoggedIn :
    (u : UserId) (api : SessionToken) (token : WsToken) (c : ConnectionManager)
    → LoggedIn u api (bind u api token c).0
bind-LoggedIn u api token c =
    let same : (u == u) ≡ true = ground arith in
    (
      record { ws_token = token; api_token = api },
      rw (bind-session u u api token c, same) refl,
      refl,
    )

-- Giving back the token of the present login takes its user offline, and nobody else.
pub unbind-LoggedIn :
    (u v : UserId) (api : SessionToken) (c : ConnectionManager)
    → LoggedIn u api c
    → is_online v (unbind u api c) ≡ (if u == v then false else is_online v c)
unfolding unbind is_online
unbind-LoggedIn u v api c l =
    let held = (holds_token_iff u api c).1 l in
    rw (held, lookup-remove v u)
      (elim (Bool-cases (u == v)) [ inl same ↦ rw same refl | inr diff ↦ rw diff refl ])

close_former-set_user :
    (j k : WsToken) (u : Option UserId) (conns : Dict Connection)
    → close_former (lookup j (set_user k u conns)) ≡ close_former (lookup j conns)
unfolding close_former set_user
close_former-set_user j k u conns = elim (Option-cases (lookup k conns)) [
  | inl e ↦ rw (e, set_user) refl
  | inr (conn, e) ↦
      rw (e, set_user, lookup-insert j k)
        (elim (Bool-cases (k == j)) [
          | inl same ↦ let here : lookup j conns ≡ some conn = ground arith in rw (same, here) refl
          | inr diff ↦ rw diff refl
        ])
]

close_former-kick :
    (j : WsToken) (u : UserId) (s : Option Session) (c : ConnectionManager)
    → close_former (lookup j (kick u s c).0.connections) ≡ close_former (lookup j c.connections)
unfolding kick
close_former-kick j u none c = refl
close_former-kick j u (some s) c = close_former-set_user j s.ws_token none c.connections

close_former-bind :
    (j : WsToken) (u : UserId) (api : SessionToken) (token : WsToken) (c : ConnectionManager)
    → close_former (lookup j (bind u api token c).0.connections)
      ≡ close_former (lookup j c.connections)
unfolding bind
close_former-bind j u api token c =
    close_former-set_user j token (some u) (kick u (lookup u c.user_to_session) c).0.connections
    ∙ close_former-kick j u (lookup u c.user_to_session) c

bind-former :
    (u : UserId) (api : SessionToken) (token : WsToken) (s : Session) (c : ConnectionManager)
    → lookup u c.user_to_session ≡ some s
    → (bind u api token c).1 ≡ close_former (lookup s.ws_token c.connections)
unfolding bind kick
bind-former u api token s c session = rw session refl

-- When a user logs in twice, the second login closes the adapter of the connection of the first one,
-- and nothing else; this is so also when both are on one connection.
pub bind-bind :
    (u : UserId) (api later : SessionToken) (first second : WsToken) (conn : Connection)
    (c : ConnectionManager)
    → lookup first c.connections ≡ some conn
    → (bind u later second (bind u api first c).0).1 ≡ close_adapter conn.adapter_addr ∷ []
unfolding close_former
bind-bind u api later first second conn c found =
    let same : (u == u) ≡ true = ground arith in
    let session : lookup u (bind u api first c).0.user_to_session
        ≡ some (record { ws_token = first; api_token = api }) =
      rw (bind-session u u api first c, same) refl in
    let former : close_former (lookup first (bind u api first c).0.connections)
        ≡ close_adapter conn.adapter_addr ∷ [] =
      rw (close_former-bind first u api first c, found) refl in
    bind-former u later second (record { ws_token = first; api_token = api }) (bind u api first c).0
      session
    ∙ former
