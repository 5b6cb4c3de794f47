-- ===== src/Game/Client/Presence.antt =====
-- Logging in through src/game/client_state.rs, as src/game/connection_mgr.rs sees it.
use fourinarow_server.Base.{String, List, [], ◌∷◌}
use fourinarow_server.Game.Message.{Instant}
use fourinarow_server.Game.Connections.{WsToken, ConnectionManager, Fresh}
use fourinarow_server.Game.Connections.Handle.{handle}
use fourinarow_server.Game.Client.{Effect, ClientState, to_connections}
use fourinarow_server.Game.Client.Calm.{Event, step}

-- The actors' part in what the manager does with a message.
module _ (short_name : WsToken → String) (fresh : Fresh) (now : Instant) where
  -- The manager after the messages to it among some effects.
  unfoldable pub deliver : List Effect → ConnectionManager → ConnectionManager
  deliver [] c = c
  deliver (to_connections m ∷ out) c = deliver out (handle short_name fresh now m c).0
  deliver (_ ∷ out) c = deliver out c

  -- The client's state and the connection manager after what the client's actor handles.
  unfoldable pub run :
      List Event → ClientState → ConnectionManager → ClientState × ConnectionManager
  unfolding step
  run [] s c = (s, c)
  run (e ∷ es) s c = run es (step e s).0 (deliver (step e s).1 c)
