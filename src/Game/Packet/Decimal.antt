-- ===== src/Game/Packet/Decimal.antt =====
-- Numbers in the packets of src/game/msg.rs: `parse::<usize>` reads what `format!` writes.
use fourinarow_server.Base.{
  ltb, ◌==◌, Bool-cases, ℕ, zero, suc, ◌+◌, ◌-◌, ◌*◌, ◌/◌, ◌%◌, ◌^◌, ◌≤◌, ◌<◌, ◌≡◌, refl, sym, ap,
  ◌∙◌, inl, inr, Bool, true, false, not, ◌&&◌, some, [], ◌∷◌, ◌++◌, arith,
}
use fourinarow_server.Game.Packet.{Text, is_digit, value, unsigned, parse_usize, digits, decimal}

-- No byte of the text is a colon.
abbrev pub plain : Text → Bool
plain [] = true
plain (c ∷ s) = not (c == b':') && plain s

value-step :
    (acc n c : ℕ) (s : Text)
    → value acc (c ∷ s) ≡ some n
    → (is_digit c ≡ true)
      × (ltb (acc * 10 + (c - b'0')) (2 ^ 64) ≡ true)
      × (value (acc * 10 + (c - b'0')) s ≡ some n)
unfolding value
value-step acc n c s e = (ground arith, ground arith, ground arith)

value-plain : (acc n : ℕ) (s : Text) → value acc s ≡ some n → plain s ≡ true
unfolding value is_digit
value-plain acc n [] e = refl
value-plain acc n (c ∷ s) e =
    let (digit, fits, rest) = value-step acc n c s e in
    let other : not (c == b':') ≡ true = ground arith in
    rw (other, value-plain (acc * 10 + (c - b'0')) n s rest) refl

unsigned-plain : (n : ℕ) (s : Text) → unsigned s ≡ some n → plain s ≡ true
unfolding unsigned
unsigned-plain n [] e = refl
unsigned-plain n (c ∷ s) e = value-plain 0 n (c ∷ s) e

pub parse_usize-plain : (n : ℕ) (s : Text) → parse_usize s ≡ some n → plain s ≡ true
unfolding parse_usize
parse_usize-plain n [] e = refl
parse_usize-plain n (c ∷ s) e = elim (Bool-cases (c == b'+')) [
  | inl plus ↦
      let other : not (c == b':') ≡ true = ground arith in
      let read : unsigned s ≡ some n = ground arith in rw (other, unsigned-plain n s read) refl
  | inr digit ↦ let read : unsigned (c ∷ s) ≡ some n = ground arith in unsigned-plain n (c ∷ s) read
]

value-append :
    (acc m : ℕ) (s : Text) (d : ℕ)
    → value acc s ≡ some m
    → d < 10
    → m * 10 + d < 2 ^ 64
    → value acc (s ++ ((b'0' + d) ∷ [])) ≡ some (m * 10 + d)
unfolding value is_digit
value-append acc m [] d e small fits = ground arith
value-append acc m (c ∷ s) d e small fits =
    let (digit, below, rest) = value-step acc m c s e in
    rw (digit, below) (value-append (acc * 10 + (c - b'0')) m s d rest small fits)

value-digit : (n : ℕ) → n < 10 → value 0 ((b'0' + n) ∷ []) ≡ some n
unfolding value is_digit
value-digit n below = ground arith

value-digits : (fuel n : ℕ) → n < fuel → n < 2 ^ 64 → value 0 (digits fuel n) ≡ some n
unfolding digits
value-digits zero n enough fits = absurd (omega arith)
value-digits (suc fuel) n enough fits = elim (Bool-cases (ltb n 10)) [
  | inl small ↦ let below : n < 10 = ground arith in rw small (value-digit n below)
  | inr large ↦
      let big : 10 ≤ n = ground arith in
      rw large (
        value-append 0 (n / 10) (digits fuel (n / 10)) (n % 10)
          (value-digits fuel (n / 10) (omega arith) (omega arith)) (omega arith) (omega arith)
        ∙ ap some (omega arith))
]

value-decimal : (n : ℕ) → n < 2 ^ 64 → value 0 (decimal n) ≡ some n
unfolding decimal
value-decimal n fits = value-digits (suc n) n (omega arith) fits

append-Cons : (s : Text) (d : ℕ) → (c : ℕ) × (t : Text) × (s ++ (d ∷ []) ≡ c ∷ t)
append-Cons [] d = (d, [], refl)
append-Cons (c ∷ s) d = (c, s ++ (d ∷ []), refl)

decimal-Cons : (n : ℕ) → (c : ℕ) × (t : Text) × (decimal n ≡ c ∷ t)
unfolding decimal digits
decimal-Cons n = elim (Bool-cases (ltb n 10)) [
  | inl small ↦ (b'0' + n, [], rw small refl)
  | inr large ↦
      let (c, t, e) = append-Cons (digits n (n / 10)) (b'0' + n % 10) in (c, t, rw large e)
]

parse_usize-value : (n c : ℕ) (s : Text) → value 0 (c ∷ s) ≡ some n → parse_usize (c ∷ s) ≡ some n
unfolding parse_usize unsigned is_digit
parse_usize-value n c s e =
    let (digit, _, _) = value-step 0 n c s e in
    let sign : (c == b'+') ≡ false = ground arith in rw sign e

-- What the text of a `usize` is read as.
pub parse_usize-decimal : (n : ℕ) → n < 2 ^ 64 → parse_usize (decimal n) ≡ some n
parse_usize-decimal n fits =
    let (c, t, e) = decimal-Cons n in
    let read : value 0 (decimal n) ≡ some n = value-decimal n fits in
    rw e (parse_usize-value n c t (ap (value 0) (sym e) ∙ read))
