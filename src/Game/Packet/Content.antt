-- ===== src/Game/Packet/Content.antt =====
-- `PlayerMessage::parse` of src/game/msg.rs.
pub mod Column
use fourinarow_server.Base.{
  length, ltb, leb, ◌==◌, if◌then◌else◌, ℕ, zero, suc, String, Bool, true, false, ◌&&◌, ◌||◌,
  Option, none, some, List, [], ◌∷◌,
}
use fourinarow_server.Game.Message.{UserId, GameMsgIn, PlayerMessage, private_lobby, public_lobby}
use fourinarow_server.Game.Packet.{Text, codes, same_text, parse_usize}

-- What other libraries do: the case mappings of Unicode, serde_json, and base64 with the check that
-- the bytes are UTF-8. A token and an id are numbers, and `number` gives the one of a text.
pub record Decoders : Type 0 where
  pub to_uppercase : Text → Text
  pub to_lowercase : Text → Text
  pub game_msg : Text → Option GameMsgIn
  pub base64 : Text → Option String
  pub number : Text → ℕ

unfoldable pub starts_with : Text → Text → Bool
starts_with s [] = true
starts_with [] (p ∷ ps) = false
starts_with (c ∷ s) (p ∷ ps) = c == p && starts_with s ps

-- The bytes from an offset on.
skip : ℕ → Text → Text
skip zero s = s
skip (suc n) [] = []
skip (suc n) (c ∷ s) = skip n s

put_byte : ℕ → List Text → List Text
put_byte c [] = (c ∷ []) ∷ []
put_byte c (part ∷ parts) = (c ∷ part) ∷ parts

-- `str::split` at ':'.
split : Text → List Text
unfolding put_byte
split [] = [] ∷ []
split (c ∷ s) = let rest = split s in if c == b':' then [] ∷ rest else put_byte c rest

-- The second of two parts.
second_of_two : List Text → Option Text
second_of_two (a ∷ b ∷ []) = some b
second_of_two _ = none

all_bytes : (ℕ → Bool) → Text → Bool
all_bytes test [] = true
all_bytes test (c ∷ s) = test c && all_bytes test s

-- `GameId::parse` of four bytes: they are four characters if each is ASCII.
game_id : Decoders → Text → Option PlayerMessage
unfolding all_bytes
game_id d s =
    if all_bytes (λ c. ltb c 128) s then some (PlayerMessage.lobby_join (d.number s)) else none

is_hex : ℕ → Bool
is_hex c = (leb b'0' c && leb c b'9') || (leb b'a' c && leb c b'f')

-- `UserId::from_str`.
user_id : Decoders → Text → Option UserId
unfolding all_bytes is_hex
user_id d text =
    let s = d.to_lowercase text in
    if length s == 12 && all_bytes is_hex s then some (d.number s) else none

place : Option ℕ → Option PlayerMessage
place none = none
place (some row) = some (PlayerMessage.place_chip row)

login_of : Decoders → Option Text → Option PlayerMessage
login_of d none = none
login_of d (some token) = some (PlayerMessage.login (d.number token))

battle_of : Decoders → Option Text → Option PlayerMessage
unfolding user_id
battle_of d none = none
battle_of d (some text) = elim (user_id d text) [
  | none ↦ none
  | some id ↦ some (PlayerMessage.battle_req id)
]

chat_of : Decoders → Option Text → Option PlayerMessage
chat_of d none = none
chat_of d (some text) = elim (d.base64 text) [
  | none ↦ none
  | some message ↦ some (PlayerMessage.chat_message message)
]

game_of : Option GameMsgIn → Option PlayerMessage
game_of none = none
game_of (some m) = some (PlayerMessage.game_protocol m)

-- The branches from "LOGIN:" on; the parts are those of the text before it is put in upper case.
with_parts : Decoders → Text → Text → Option PlayerMessage
unfolding starts_with same_text split second_of_two login_of battle_of chat_of
with_parts d orig s =
    if starts_with s (codes "LOGIN:")
    then login_of d (second_of_two (split orig))
    else if same_text s (codes "LOGOUT")
    then some PlayerMessage.logout
    else if starts_with s (codes "BATTLE_REQ")
    then battle_of d (second_of_two (split orig))
    else if starts_with s (codes "CHAT_MSG")
    then chat_of d (second_of_two (split orig))
    else if same_text s (codes "CHAT_READ")
    then some PlayerMessage.chat_read
    else none

-- The branches from "REQ_LOBBY" on.
other_command : Decoders → Text → Text → Option PlayerMessage
unfolding starts_with same_text skip game_id with_parts
other_command d orig s =
    if same_text s (codes "REQ_LOBBY")
    then some (PlayerMessage.lobby_request private_lobby)
    else if same_text s (codes "REQ_WW")
    then some (PlayerMessage.lobby_request public_lobby)
    else if starts_with s (codes "JOIN_LOBBY:") && (length s == 15)
    then game_id d (skip 11 s)
    else if same_text s (codes "LEAVE")
    then some PlayerMessage.leaving
    else if same_text s (codes "READY_FOR_GAME_PONG")
    then some PlayerMessage.ready_for_game_pong
    else if same_text s (codes "PLAY_AGAIN")
    then some PlayerMessage.play_again_request
    else with_parts d orig s

command : Decoders → Text → Text → Option PlayerMessage
unfolding starts_with skip place other_command
command d orig s =
    if starts_with s (codes "PC:") && (length s == 4)
    then place (parse_usize (skip 3 s))
    else other_command d orig s

unfoldable pub parse_message : Decoders → Text → Option PlayerMessage
unfolding command game_of starts_with skip
parse_message d orig =
    if starts_with orig (codes "G:")
    then game_of (d.game_msg (skip 2 orig))
    else if ltb 1000 (length (d.to_uppercase orig))
    then none
    else command d orig (d.to_uppercase orig)
