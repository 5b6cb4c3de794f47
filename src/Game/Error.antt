-- ===== src/Game/Error.antt =====
-- src/game/msg.rs: the errors that the server reports to a client.
pub data SrvMsgError : Type 0 where
  internal lobby_not_found lobby_full invalid_column not_in_lobby not_your_turn : SrvMsgError
  already_in_lobby game_not_started game_not_over not_logged_in user_not_playing : SrvMsgError
  no_such_user : SrvMsgError
