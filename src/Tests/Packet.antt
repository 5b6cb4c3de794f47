-- ===== src/Tests/Packet.antt =====
-- Packets of src/game/msg.rs.
use fourinarow_server.Base.{
  length, leb, if◌then◌else◌, ℕ, ◌+◌, ◌-◌, ◌<◌, ◌≡◌, refl, ◌↔◌, inr, false, ◌&&◌, Option, none,
  some, [], ◌∷◌, ◌++◌, map, arith,
}
use fourinarow_server.Game.Message.{PlayerMessage, leaving, public_lobby, ReliablePacketIn}
use fourinarow_server.Game.Packet.{
  Text, codes, same_text, parse, parse_usize, serialize_ack, splitn,
}
use fourinarow_server.Game.Packet.Content.{Decoders, starts_with, parse_message}
use fourinarow_server.Game.Packet.Content.Column.{parse_message-place_chip}
use fourinarow_server.Game.Packet.Frame.{Framed, parse-Framed, parse-serialize_ack}

-- A parser of contents that knows one message.
abbrev leave : Text → Option PlayerMessage
unfolding same_text
leave s = if same_text s (codes "LEAVE") then some leaving else none

parse-Framed_example :
    (parse leave (codes "MSG::17::LEAVE") ≡ inr (ReliablePacketIn.msg 17 leaving))
    ↔ Framed leave (codes "MSG::17::LEAVE") (ReliablePacketIn.msg 17 leaving)
parse-Framed_example = parse-Framed leave (codes "MSG::17::LEAVE") (ReliablePacketIn.msg 17 leaving)

parse-serialize_ack_example : parse leave (serialize_ack 1024) ≡ inr (ReliablePacketIn.ack 1024)
parse-serialize_ack_example = parse-serialize_ack leave 1024 (omega arith)

leave_read : parse leave (codes "MSG::17::LEAVE") ≡ inr (ReliablePacketIn.msg 17 leaving)
unfolding parse same_text
leave_read = refl

written : serialize_ack 1024 ≡ codes "ACK::1024"
unfolding serialize_ack
written = refl

-- The largest number of 64 bits is read, and the next one is not; a plus sign is.
largest : parse_usize (codes "+18446744073709551615") ≡ some 18446744073709551615
unfolding parse_usize
largest = refl

too_large : parse_usize (codes "18446744073709551616") ≡ none
unfolding parse_usize
too_large = refl

-- Separators in the content are left alone.
three_parts : splitn 3 (codes "MSG::1::G:a::b") ≡ codes "MSG" ∷ codes "1" ∷ codes "G:a::b" ∷ []
unfolding splitn
three_parts = refl

abbrev to_upper : ℕ → ℕ
to_upper c = if leb b'a' c && leb c b'z' then c - 32 else c

-- The case mappings on ASCII; no JSON and no base64 is taken.
abbrev ascii : Decoders
ascii = record {
  to_uppercase = map to_upper;
  to_lowercase = λ s. s;
  game_msg = λ s. none;
  base64 = λ s. none;
  number = length;
}

parse_message-place_chip_example :
    (parse_message ascii (codes "pc:3") ≡ some (PlayerMessage.place_chip 3)) ↔ (
      (starts_with (codes "pc:3") (codes "G:") ≡ false)
      × (3 < 10)
      × (ascii.to_uppercase (codes "pc:3") ≡ codes "PC:" ++ ((b'0' + 3) ∷ [])))
parse_message-place_chip_example = parse_message-place_chip ascii (codes "pc:3") 3

move_read :
    parse (parse_message ascii) (codes "MSG::1::PC:3")
    ≡ inr (ReliablePacketIn.msg 1 (PlayerMessage.place_chip 3))
unfolding parse parse_message
move_read = refl

room_read : parse_message ascii (codes "req_ww") ≡ some (PlayerMessage.lobby_request public_lobby)
unfolding parse_message
room_read = refl

login_read : parse_message ascii (codes "login:token") ≡ some (PlayerMessage.login 5)
unfolding parse_message
login_read = refl

login_refused : parse_message ascii (codes "LOGIN:a:b") ≡ none
unfolding parse_message
login_refused = refl
