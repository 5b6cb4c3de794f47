-- ===== src/Game/Packet.antt =====
-- The frame of a packet in src/game/msg.rs: the parser of what a client sends, and the text of what
-- the server sends. A text is the list of its bytes.
mod Decimal
pub mod Frame
pub mod Content
use Prim.Native.Char.{code}
use fourinarow_server.Base.{
  ltb, leb, ◌==◌, if◌then◌else◌, ℕ, zero, suc, ◌+◌, ◌-◌, ◌*◌, ◌/◌, ◌%◌, ◌^◌, String, ◌⊎◌, inl, inr,
  Bool, true, false, ◌&&◌, Option, none, some, List, [], ◌∷◌, ◌++◌,
}
use fourinarow_server.Game.Message.{PlayerMessage, ReliabilityError, ReliablePacketIn}

abbrev pub Text : Type 0
Text = List ℕ

abbrev pub codes : String → Text
codes String.[] = []
codes (String.◌∷◌ c s) = code c ∷ codes s

unfoldable pub same_text : Text → Text → Bool
same_text [] [] = true
same_text (a ∷ s) (b ∷ t) = a == b && same_text s t
same_text _ _ = false

-- `str::split_once` at "::".
split_once : Text → Option (Text × Text)
split_once [] = none
split_once (a ∷ []) = none
split_once (a ∷ b ∷ s) =
    let rest = split_once (b ∷ s) in
    if (a == b':') && (b == b':')
    then some ([], s)
    else elim rest [ none ↦ none | some (before, after) ↦ some (a ∷ before, after) ]

-- `str::splitn` at "::".
unfoldable pub splitn : ℕ → Text → List Text
unfolding split_once
splitn zero s = []
splitn (suc zero) s = s ∷ []
splitn (suc (suc n)) s = elim (split_once s) [
  | none ↦ s ∷ []
  | some (before, after) ↦ before ∷ splitn (suc n) after
]

is_digit : ℕ → Bool
is_digit c = leb b'0' c && leb c b'9'

-- The digits of `parse::<usize>`: an overflow is an error.
value : ℕ → Text → Option ℕ
unfolding is_digit
value acc [] = some acc
value acc (c ∷ s) =
    let rest = value (acc * 10 + (c - b'0')) s in
    if is_digit c && ltb (acc * 10 + (c - b'0')) (2 ^ 64) then rest else none

unsigned : Text → Option ℕ
unfolding value
unsigned [] = none
unsigned (c ∷ s) = value 0 (c ∷ s)

-- `parse::<usize>` takes a plus sign before the digits.
unfoldable pub parse_usize : Text → Option ℕ
unfolding unsigned
parse_usize [] = none
parse_usize (c ∷ s) = if c == b'+' then unsigned s else unsigned (c ∷ s)

abbrev pub Parsed : Type 0
Parsed = ReliabilityError ⊎ ReliablePacketIn

with_message : ℕ → Option PlayerMessage → Parsed
with_message id (some player_msg) = inr (ReliablePacketIn.msg id player_msg)
with_message id none = inl ReliabilityError.invalid_content

parse_parts : (Text → Option PlayerMessage) → List Text → Parsed
unfolding same_text parse_usize with_message
parse_parts message (kind ∷ id ∷ []) =
    if same_text kind (codes "ACK")
    then elim (parse_usize id) [
      | some n ↦ inr (ReliablePacketIn.ack n)
      | none ↦ inl ReliabilityError.invalid_format
    ]
    else inl ReliabilityError.unknown_message
parse_parts message (kind ∷ id ∷ content ∷ []) =
    if same_text kind (codes "MSG")
    then elim (parse_usize id) [
      | some n ↦ with_message n (message content)
      | none ↦ inl ReliabilityError.invalid_format
    ]
    else inl ReliabilityError.unknown_message
parse_parts message _ = inl ReliabilityError.unknown_message

-- The first argument is `PlayerMessage::parse`.
unfoldable pub parse : (Text → Option PlayerMessage) → Text → Parsed
unfolding parse_parts splitn
parse message orig = parse_parts message (splitn 3 orig)

-- The decimal digits of a number, as `format!` writes them; the fuel is no less than their count.
digits : ℕ → ℕ → Text
digits zero n = []
digits (suc fuel) n =
    let rest = digits fuel (n / 10) in
    if ltb n 10 then (b'0' + n) ∷ [] else rest ++ ((b'0' + n % 10) ∷ [])

pub decimal : ℕ → Text
unfolding digits
decimal n = digits (suc n) n

unfoldable pub serialize_ack : ℕ → Text
unfolding decimal
serialize_ack id = codes "ACK::" ++ decimal id
