-- ===== src/Game/Packet/Content/Column.antt =====
-- Which texts src/game/msg.rs takes for a move.
use fourinarow_server.Base.{
  length, ltb, ◌==◌, if◌then◌else◌, Bool-cases, Option-cases, ℕ, ◌+◌, ◌<◌, ◌≡◌, refl, sym, ap, ◌∙◌,
  ◌≢◌, ◌↔◌, inl, inr, Bool, true, false, ◌&&◌, Option, none, some, [], ◌∷◌, ◌++◌, arith,
}
use fourinarow_server.Game.Message.{GameMsgIn, PlayerMessage}
use fourinarow_server.Game.Packet.{Text, codes, same_text, is_digit, value, unsigned, parse_usize}
use fourinarow_server.Game.Packet.Content.{
  Decoders, starts_with, skip, split, second_of_two, game_id, user_id, place, login_of, battle_of,
  chat_of, game_of, with_parts, other_command, command, parse_message,
}

login_of-other :
    (d : Decoders) (t : Option Text) (row : ℕ) → login_of d t ≢ some (PlayerMessage.place_chip row)
unfolding login_of
login_of-other d none row = ground arith
login_of-other d (some t) row = ground arith

battle_of-other :
    (d : Decoders) (t : Option Text) (row : ℕ) → battle_of d t ≢ some (PlayerMessage.place_chip row)
unfolding battle_of
battle_of-other d none row = ground arith
battle_of-other d (some t) row = elim (Option-cases (user_id d t)) [
  | inl e ↦ rw (battle_of, e) (ground arith)
  | inr (id, e) ↦ rw (battle_of, e) (ground arith)
]

chat_of-other :
    (d : Decoders) (t : Option Text) (row : ℕ) → chat_of d t ≢ some (PlayerMessage.place_chip row)
unfolding chat_of
chat_of-other d none row = ground arith
chat_of-other d (some t) row = elim (Option-cases (d.base64 t)) [
  | inl e ↦ rw (chat_of, e) (ground arith)
  | inr (m, e) ↦ rw (chat_of, e) (ground arith)
]

game_of-other : (m : Option GameMsgIn) (row : ℕ) → game_of m ≢ some (PlayerMessage.place_chip row)
unfolding game_of
game_of-other none row = ground arith
game_of-other (some m) row = ground arith

-- A conditional gives no move if neither of its branches does.
if-other :
    {row : ℕ} {x y : Option PlayerMessage} (b : Bool)
    → x ≢ some (PlayerMessage.place_chip row)
    → y ≢ some (PlayerMessage.place_chip row)
    → (if b then x else y) ≢ some (PlayerMessage.place_chip row)
if-other true first second = first
if-other false first second = second

then-branch :
    {z : Option PlayerMessage} (b : Bool) (x y : Option PlayerMessage)
    → b ≡ true
    → (if b then x else y) ≡ z
    → x ≡ z
then-branch true x y holds e = e
then-branch false x y holds e = absurd (ground arith)

else-branch :
    {z : Option PlayerMessage} (b : Bool) (x y : Option PlayerMessage)
    → b ≡ false
    → (if b then x else y) ≡ z
    → y ≡ z
else-branch true x y fails e = absurd (ground arith)
else-branch false x y fails e = e

with_parts-other :
    (d : Decoders) (orig s : Text) (row : ℕ)
    → with_parts d orig s ≢ some (PlayerMessage.place_chip row)
unfolding with_parts
with_parts-other d orig s row =
    let parts = second_of_two (split orig) in
    if-other (starts_with s (codes "LOGIN:")) (login_of-other d parts row) (
      if-other (same_text s (codes "LOGOUT")) (ground arith) (
        if-other (starts_with s (codes "BATTLE_REQ")) (battle_of-other d parts row) (
          if-other (starts_with s (codes "CHAT_MSG")) (chat_of-other d parts row)
            (if-other (same_text s (codes "CHAT_READ")) (ground arith) (ground arith)))))

game_id-other :
    (d : Decoders) (s : Text) (row : ℕ) → game_id d s ≢ some (PlayerMessage.place_chip row)
unfolding game_id
game_id-other d s row = ground arith

other_command-other :
    (d : Decoders) (orig s : Text) (row : ℕ)
    → other_command d orig s ≢ some (PlayerMessage.place_chip row)
unfolding other_command
other_command-other d orig s row = if-other (same_text s (codes "REQ_LOBBY")) (ground arith) (
    if-other (same_text s (codes "REQ_WW")) (ground arith) (
      if-other (starts_with s (codes "JOIN_LOBBY:") && (length s == 15))
        (game_id-other d (skip 11 s) row)
        (if-other (same_text s (codes "LEAVE")) (ground arith) (
          if-other (same_text s (codes "READY_FOR_GAME_PONG")) (ground arith) (
            if-other (same_text s (codes "PLAY_AGAIN")) (ground arith)
              (with_parts-other d orig s row))))))

move-Shape :
    (s : Text)
    → starts_with s (codes "PC:") && (length s == 4) ≡ true
    → (c : ℕ) × (s ≡ codes "PC:" ++ (c ∷ []))
unfolding starts_with
move-Shape [] e = absurd (ground arith)
move-Shape (a ∷ []) e = absurd (ground arith)
move-Shape (a ∷ b ∷ []) e = absurd (ground arith)
move-Shape (a ∷ b ∷ c ∷ []) e = absurd (ground arith)
move-Shape (a ∷ b ∷ c ∷ f ∷ []) e =
    let first : a ≡ b'P' = ground arith in
    let second : b ≡ b'C' = ground arith in
    let third : c ≡ b':' = ground arith in (f, rw (first, second, third) refl)
move-Shape (a ∷ b ∷ c ∷ f ∷ g ∷ s) e = absurd (ground arith)

parse_usize-one : (c row : ℕ) → parse_usize (c ∷ []) ≡ some row → (row < 10) × (c ≡ b'0' + row)
unfolding parse_usize unsigned value is_digit
parse_usize-one c row e = (ground arith, ground arith)

parse_usize-digit : (row : ℕ) → row < 10 → parse_usize ((b'0' + row) ∷ []) ≡ some row
unfolding parse_usize unsigned value is_digit
parse_usize-digit row small = ground arith

place-some : (o : Option ℕ) (row : ℕ) → place o ≡ some (PlayerMessage.place_chip row) → o ≡ some row
unfolding place
place-some none row e = absurd (ground arith)
place-some (some n) row e = ground arith

command-Move :
    (d : Decoders) (orig s : Text) (row : ℕ)
    → command d orig s ≡ some (PlayerMessage.place_chip row)
    → (row < 10) × (s ≡ codes "PC:" ++ ((b'0' + row) ∷ []))
unfolding command skip
command-Move d orig s row e = elim (Bool-cases (starts_with s (codes "PC:") && (length s == 4))) [
  | inr other ↦ absurd (
      other_command-other d orig s row
        (else-branch (starts_with s (codes "PC:") && (length s == 4)) _ _ other e))
  | inl move ↦
      let (c, shape) = move-Shape s move in
      let placed : place (parse_usize (skip 3 s)) ≡ some (PlayerMessage.place_chip row) =
        then-branch (starts_with s (codes "PC:") && (length s == 4)) _ _ move e in
      let read : parse_usize (c ∷ []) ≡ some row =
        place-some (parse_usize (c ∷ [])) row
          (ap (λ k. place (parse_usize (skip 3 k))) (sym shape) ∙ placed) in
      let (small, digit) = parse_usize-one c row read in
      (small, shape ∙ ap (λ k. codes "PC:" ++ (k ∷ [])) digit)
]

Move-parse_message :
    (d : Decoders) (orig : Text) (row : ℕ)
    → starts_with orig (codes "G:") ≡ false
    → row < 10
    → d.to_uppercase orig ≡ codes "PC:" ++ ((b'0' + row) ∷ [])
    → parse_message d orig ≡ some (PlayerMessage.place_chip row)
unfolding parse_message command starts_with skip place
Move-parse_message d orig row plain small upper =
    rw (plain, upper, parse_usize-digit row small) refl

parse_message-Move :
    (d : Decoders) (orig : Text) (row : ℕ)
    → parse_message d orig ≡ some (PlayerMessage.place_chip row)
    → (starts_with orig (codes "G:") ≡ false)
      × (row < 10)
      × (d.to_uppercase orig ≡ codes "PC:" ++ ((b'0' + row) ∷ []))
unfolding parse_message
parse_message-Move d orig row e = elim (Bool-cases (starts_with orig (codes "G:"))) [
  | inl game ↦ absurd (
      game_of-other (d.game_msg (skip 2 orig)) row
        (then-branch (starts_with orig (codes "G:")) _ _ game e))
  | inr plain ↦ elim (Bool-cases (ltb 1000 (length (d.to_uppercase orig)))) [
    | inl long ↦
        let refused : none ≡ some (PlayerMessage.place_chip row) =
          then-branch (ltb 1000 (length (d.to_uppercase orig))) _ _ long
            (else-branch (starts_with orig (codes "G:")) _ _ plain e) in
        absurd (ground arith)
    | inr short ↦
        let (small, upper) = command-Move d orig (d.to_uppercase orig) row (
          else-branch (ltb 1000 (length (d.to_uppercase orig))) _ _ short
            (else-branch (starts_with orig (codes "G:")) _ _ plain e)) in
        (plain, small, upper)
  ]
]

-- A text is taken for a move exactly if it does not start with "G:" and is, in upper case, "PC:" with
-- one decimal digit, which is the column of the move.
pub parse_message-place_chip :
    (d : Decoders) (orig : Text) (row : ℕ)
    → (parse_message d orig ≡ some (PlayerMessage.place_chip row)) ↔ (
        (starts_with orig (codes "G:") ≡ false)
        × (row < 10)
        × (d.to_uppercase orig ≡ codes "PC:" ++ ((b'0' + row) ∷ [])))
parse_message-place_chip d orig row = (
  parse_message-Move d orig row,
  λ (plain, small, upper). Move-parse_message d orig row plain small upper,
)
