-- ===== src/Game/Packet/Frame.antt =====
-- The frames that `ReliablePacketIn::parse` of src/game/msg.rs takes, and how it reads what the server
-- writes.
use fourinarow_server.Base.{
  ◌==◌, Bool-cases, Option-cases, ℕ, ◌^◌, ◌<◌, ◌≡◌, refl, sym, ap, ◌∙◌, ◌↔◌, inl, inr, true, false,
  ◌&&◌, Option, none, some, [], ◌∷◌, ◌++◌, arith,
}
use mathlib.Core.Path.{subst}
use fourinarow_server.Game.Message.{PlayerMessage, ReliabilityError, ReliablePacketIn}
use fourinarow_server.Game.Packet.{
  Text, codes, same_text, split_once, splitn, parse_usize, with_message, parse_parts, parse,
  decimal, serialize_ack,
}
use fourinarow_server.Game.Packet.Decimal.{plain, parse_usize-plain, parse_usize-decimal}

-- A text that is a packet: its keyword, the text of its id and, in a message, the content.
pub Framed : (Text → Option PlayerMessage) → Text → ReliablePacketIn → Type 0
Framed message s (ReliablePacketIn.ack n) =
    (id : Text) × (s ≡ codes "ACK::" ++ id) × (parse_usize id ≡ some n)
Framed message s (ReliablePacketIn.msg n m) =
    (id : Text) × (content : Text) × (s ≡ codes "MSG::" ++ (id ++ (codes "::" ++ content)))
    × (parse_usize id ≡ some n)
    × (message content ≡ some m)

same_text-eq : (s t : Text) → same_text s t ≡ true → s ≡ t
unfolding same_text
same_text-eq [] [] e = refl
same_text-eq [] (b ∷ t) e = absurd (ground arith)
same_text-eq (a ∷ s) [] e = absurd (ground arith)
same_text-eq (a ∷ s) (b ∷ t) e =
    let head : a ≡ b = ground arith in
    let tail : same_text s t ≡ true = ground arith in
    rw head (ap (λ r. b ∷ r) (same_text-eq s t tail))

split_once-plain : (s : Text) → plain s ≡ true → split_once s ≡ none
unfolding split_once
split_once-plain [] e = refl
split_once-plain (a ∷ []) e = refl
split_once-plain (a ∷ b ∷ s) e =
    let rest = split_once-plain (b ∷ s) (ground arith) in
    let other : (a == b':') ≡ false = ground arith in rw (other, rest) refl

split_once-append :
    (s t : Text) → plain s ≡ true → split_once (s ++ (codes "::" ++ t)) ≡ some (s, t)
unfolding split_once
split_once-append [] t e = refl
split_once-append (a ∷ []) t e = let other : (a == b':') ≡ false = ground arith in rw (other) refl
split_once-append (a ∷ b ∷ s) t e =
    let rest = split_once-append (b ∷ s) t (ground arith) in
    let other : (a == b':') ≡ false = ground arith in rw (other, rest) refl

split_once-parts :
    (s before after : Text)
    → split_once s ≡ some (before, after)
    → s ≡ before ++ (codes "::" ++ after)
unfolding split_once
split_once-parts [] p q e = absurd (ground arith)
split_once-parts (a ∷ []) p q e = absurd (ground arith)
split_once-parts (a ∷ b ∷ s) p q e = elim (Bool-cases ((a == b':') && (b == b':'))) [
  | inl colons ↦
      let one : a ≡ b':' = ground arith in
      let two : b ≡ b':' = ground arith in
      let first : [] ≡ p = ground arith in
      let second : s ≡ q = ground arith in cc (one, two, first, second)
  | inr other ↦ elim (Option-cases (split_once (b ∷ s))) [
    | inl whole ↦ absurd (ground arith)
    | inr ((before, after), rest) ↦
        let parts = split_once-parts (b ∷ s) before after rest in
        let first : a ∷ before ≡ p = ground arith in
        let second : after ≡ q = ground arith in rw (sym first, sym second) (ap (λ r. a ∷ r) parts)
  ]
]

parse-Framed_ack :
    (message : Text → Option PlayerMessage) (n : ℕ) (id : Text)
    → parse_usize id ≡ some n
    → parse message (codes "ACK::" ++ id) ≡ inr (ReliablePacketIn.ack n)
unfolding parse parse_parts splitn same_text
parse-Framed_ack message n id read =
    let second = split_once-plain id (parse_usize-plain n id read) in rw (second, read) refl

parse-Framed_msg :
    (message : Text → Option PlayerMessage) (n : ℕ) (m : PlayerMessage) (id content : Text)
    → parse_usize id ≡ some n
    → message content ≡ some m
    → parse message (codes "MSG::" ++ (id ++ (codes "::" ++ content)))
      ≡ inr (ReliablePacketIn.msg n m)
unfolding parse parse_parts splitn same_text with_message
parse-Framed_msg message n m id content read taken =
    let second = split_once-append id content (parse_usize-plain n id read) in
    rw (second, read, taken) refl

Framed-parse :
    (message : Text → Option PlayerMessage) (s : Text) (p : ReliablePacketIn)
    → Framed message s p
    → parse message s ≡ inr p
unfolding Framed
Framed-parse message s (ReliablePacketIn.ack n) (id, e, read) =
    rw e (parse-Framed_ack message n id read)
Framed-parse message s (ReliablePacketIn.msg n m) (id, content, e, read, taken) =
    rw e (parse-Framed_msg message n m id content read taken)

parse_parts-Framed_ack :
    (message : Text → Option PlayerMessage) (kind id : Text) (p : ReliablePacketIn)
    → parse_parts message (kind ∷ id ∷ []) ≡ inr p
    → (n : ℕ) × (kind ≡ codes "ACK") × (parse_usize id ≡ some n) × (ReliablePacketIn.ack n ≡ p)
unfolding parse_parts
parse_parts-Framed_ack message kind id p e = elim (Bool-cases (same_text kind (codes "ACK"))) [
  | inr other ↦ absurd (ground arith)
  | inl same ↦ elim (Option-cases (parse_usize id)) [
    | inl bad ↦ absurd (ground arith)
    | inr (n, read) ↦ (n, same_text-eq kind (codes "ACK") same, read, ground arith)
  ]
]

parse_parts-Framed_msg :
    (message : Text → Option PlayerMessage) (kind id content : Text) (p : ReliablePacketIn)
    → parse_parts message (kind ∷ id ∷ content ∷ []) ≡ inr p
    → (n : ℕ) × (m : PlayerMessage) × (kind ≡ codes "MSG")
      × (parse_usize id ≡ some n)
      × (message content ≡ some m)
      × (ReliablePacketIn.msg n m ≡ p)
unfolding parse_parts with_message
parse_parts-Framed_msg message kind id content p e =
    elim (Bool-cases (same_text kind (codes "MSG"))) [
      | inr other ↦ absurd (ground arith)
      | inl same ↦ elim (Option-cases (parse_usize id)) [
        | inl bad ↦ absurd (ground arith)
        | inr (n, read) ↦ elim (Option-cases (message content)) [
          | inl bad ↦ absurd (ground arith)
          | inr (m, taken) ↦ (n, m, same_text-eq kind (codes "MSG") same, read, taken, ground arith)
        ]
      ]
    ]

parse-two_parts :
    (message : Text → Option PlayerMessage) (s kind id : Text)
    → split_once s ≡ some (kind, id)
    → split_once id ≡ none
    → parse message s ≡ parse_parts message (kind ∷ id ∷ [])
unfolding parse splitn
parse-two_parts message s kind id first second = rw (parse, splitn, first, second) refl

parse-three_parts :
    (message : Text → Option PlayerMessage) (s kind rest id content : Text)
    → split_once s ≡ some (kind, rest)
    → split_once rest ≡ some (id, content)
    → parse message s ≡ parse_parts message (kind ∷ id ∷ content ∷ [])
unfolding parse splitn
parse-three_parts message s kind rest id content first second =
    rw (parse, splitn, first, second) refl

parse-one_part :
    (message : Text → Option PlayerMessage) (s : Text)
    → split_once s ≡ none
    → parse message s ≡ inl ReliabilityError.unknown_message
unfolding parse splitn parse_parts
parse-one_part message s whole = rw (parse, splitn, whole) refl

parse-Framed_parts :
    (message : Text → Option PlayerMessage) (s : Text) (p : ReliablePacketIn)
    → parse message s ≡ inr p
    → Framed message s p
unfolding Framed
parse-Framed_parts message s p e = elim (Option-cases (split_once s)) [
  | inl whole ↦ let refused = parse-one_part message s whole in absurd (ground arith)
  | inr ((kind, rest), first) ↦ elim (Option-cases (split_once rest)) [
    | inl whole ↦
        let parts = parse-two_parts message s kind rest first whole in
        let (n, keyword, read, packet) =
          parse_parts-Framed_ack message kind rest p (sym parts ∙ e) in
        subst (Framed message s) packet (
          rest,
          split_once-parts s kind rest first ∙ ap (λ k. k ++ (codes "::" ++ rest)) keyword,
          read,
        )
    | inr ((id, content), second) ↦
        let parts = parse-three_parts message s kind rest id content first second in
        let (n, m, keyword, read, taken, packet) =
          parse_parts-Framed_msg message kind id content p (sym parts ∙ e) in
        subst (Framed message s) packet (
          id,
          content,
          split_once-parts s kind rest first
              ∙ ap (λ k. k ++ (codes "::" ++ rest)) keyword
              ∙ ap (λ r. codes "MSG::" ++ r) (split_once-parts rest id content second),
          read,
          taken,
        )
  ]
]

-- `parse` answers with a packet exactly for the texts that are this packet.
pub parse-Framed :
    (message : Text → Option PlayerMessage) (s : Text) (p : ReliablePacketIn)
    → (parse message s ≡ inr p) ↔ Framed message s p
parse-Framed message s p = (parse-Framed_parts message s p, Framed-parse message s p)

-- What the server writes to acknowledge the message with a number below 2 ^ 64 is read, by the
-- parser of packets, as the acknowledgement of that message.
pub parse-serialize_ack :
    (message : Text → Option PlayerMessage) (n : ℕ)
    → n < 2 ^ 64
    → parse message (serialize_ack n) ≡ inr (ReliablePacketIn.ack n)
unfolding serialize_ack
parse-serialize_ack message n fits =
    parse-Framed_ack message n (decimal n) (parse_usize-decimal n fits)
