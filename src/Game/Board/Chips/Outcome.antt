-- ===== src/Game/Board/Chips/Outcome.antt =====
-- The paths of `place_chip` of src/game/game_info.rs, and what all of them keep.
use fourinarow_server.Base.{
  length, replicate, leb, Bool-cases, ℕ, zero, suc, ◌≤◌, ◌<◌, ◌≡◌, refl, ap, ◌≢◌, ◌↔◌, inl, inr,
  true, Option, none, some, arith,
}
use fourinarow_server.Game.Error.{invalid_column, not_your_turn}
use fourinarow_server.Game.Board.{
  Player, one, two, same, other, GameInfo, WinnerInfo, cell_in, column_at, cell_at, field_size,
  free_cell, put, Placed, placed, refused, check_win, check_win_internal, drop_chip, place_chip,
  new,
}
use fourinarow_server.Game.Board.Lines.{IsField}
use fourinarow_server.Game.Board.Chips.{
  IsSettled, IsTaken, Landed, check_win-field, drop_chip-Landed, free_cell-Lowest, free_cell-full,
  put-IsField,
}

-- What `place_chip` does, on each of its paths.
pub data Outcome (g : GameInfo) (c : ℕ) (player : Player) (r : GameInfo × Placed) : Type 0 where
  outside : field_size ≤ c → r ≡ (g, refused invalid_column) → Outcome g c player r
  out_of_turn :
      c < field_size → player ≢ g.turn → r ≡ (g, refused not_your_turn) → Outcome g c player r
  full :
      c < field_size
      → player ≡ g.turn
      → ((y : ℕ) → y < field_size → IsTaken g.field c y)
      → r ≡ (g, refused invalid_column)
      → Outcome g c player r
  landed :
      (i : ℕ)
      → c < field_size
      → i < field_size
      → player ≡ g.turn
      → Landed g r.0 c i
      → r.1 ≡ placed (check_win_internal r.0.field)
      → Outcome g c player r

same_iff : (p q : Player) → (same p q ≡ true) ↔ (p ≡ q)
unfolding same
same_iff one one = ground arith
same_iff one two = ground arith
same_iff two one = ground arith
same_iff two two = ground arith

check_win-reports : (g : GameInfo) → (check_win g).1 ≡ check_win_internal (check_win g).0.field
unfolding check_win
check_win-reports g = ground (arith, check_win-field g)

drop_chip-Outcome :
    (g : GameInfo) (c : ℕ) (player : Player)
    → IsField g.field
    → c < field_size
    → player ≡ g.turn
    → (o : Option ℕ) → free_cell (column_at g.field c) field_size ≡ o
    → Outcome g c player (drop_chip g c o)
unfolding drop_chip
drop_chip-Outcome g c player w h t none e =
    full h t (unfold cell_at in (λ y k. free_cell-full (column_at g.field c) field_size y e k)) refl
drop_chip-Outcome g c player w h t (some i) e =
    let low = free_cell-Lowest (column_at g.field c) field_size i e in
    landed i h low.0 t (drop_chip-Landed g c i w h low) (
      ap placed
        (check_win-reports (record g { field = put g.field c i g.turn; turn = other g.turn })))

-- On a field of seven columns of seven cells `place_chip` refuses a column outside the field, a
-- player who is not to move and a full column, and leaves the game as it is; otherwise the chip
-- lands on the free cell with only taken cells under it, no other cell changes, the turn passes to
-- the other player, and the answer is the winner that `check_win_internal` finds on the new field.
pub place_chip-Outcome :
    (g : GameInfo) (c : ℕ) (player : Player)
    → IsField g.field
    → Outcome g c player (place_chip g c player)
unfolding place_chip
place_chip-Outcome g c player w = elim (Bool-cases (leb (length g.field) c)) [
  | inl far ↦ outside (ground (arith, w.width)) (rw far)
  | inr near ↦ elim (Bool-cases (same player g.turn)) [
    | inl mine ↦
        rw (near, mine)
          (drop_chip-Outcome g c player w (ground (arith, w.width))
            ((same_iff player g.turn).0 mine) (free_cell (column_at g.field c) field_size) refl)
    | inr other's ↦
        out_of_turn (ground (arith, w.width)) (λ e. ground (arith, (same_iff player g.turn).1 e))
          (rw (near, other's))
  ]
]

place_chip-IsField_after :
    (g : GameInfo) (c : ℕ) (o : Option ℕ)
    → IsField g.field
    → c < field_size
    → IsField (drop_chip g c o).0.field
unfolding drop_chip
place_chip-IsField_after g c none w h = w
place_chip-IsField_after g c (some i) w h =
    rw (check_win-field (record g { field = put g.field c i g.turn; turn = other g.turn }))
      (put-IsField g.field c i g.turn w h)

-- `place_chip` keeps the field one of seven columns of seven cells.
pub place_chip-IsField :
    (g : GameInfo) (c : ℕ) (player : Player)
    → IsField g.field
    → IsField (place_chip g c player).0.field
unfolding place_chip
place_chip-IsField g c player w = elim (Bool-cases (leb (length g.field) c)) [
  | inl far ↦ rw far w
  | inr near ↦ elim (Bool-cases (same player g.turn)) [
    | inl mine ↦ rw (near, mine) (place_chip-IsField_after g c _ w (ground (arith, w.width)))
    | inr later ↦ rw (near, later) w
  ]
]

Landed-IsSettled :
    (g h : GameInfo) (c i : ℕ) → IsSettled g.field → Landed g h c i → IsSettled h.field
Landed-IsSettled g h c i v l = record {
  below = λ d r k t. ground (
    arith,
    v.below d r k,
    v.below c r k,
    l.lowest (suc r),
    l.rest d r,
    l.rest d (suc r),
    l.chip,
    l.free,
  );
}

-- After any call of `place_chip` on a field of seven columns of seven cells in which each chip
-- lies on the bottom or on a chip, this is so again.
pub place_chip-IsSettled :
    (g : GameInfo) (c : ℕ) (player : Player)
    → IsField g.field
    → IsSettled g.field
    → IsSettled (place_chip g c player).0.field
place_chip-IsSettled g c player w v = elim (place_chip-Outcome g c player w) [
  | outside _ e ↦ rw e v
  | out_of_turn _ _ e ↦ rw e v
  | full _ _ _ e ↦ rw e v
  | landed i _ _ _ l _ ↦ Landed-IsSettled g _ c i v l
]

pub new-IsField : (coin : Player) → IsField (new coin).field
unfolding new
new-IsField coin = record { width = refl; heights = omega arith }

empty_column : (r : ℕ) → cell_in (replicate field_size none) r ≡ none
empty_column zero = refl
empty_column (suc zero) = refl
empty_column (suc (suc zero)) = refl
empty_column (suc (suc (suc zero))) = refl
empty_column (suc (suc (suc (suc zero)))) = refl
empty_column (suc (suc (suc (suc (suc zero))))) = refl
empty_column (suc (suc (suc (suc (suc (suc zero)))))) = refl
empty_column (suc (suc (suc (suc (suc (suc (suc r))))))) = refl

empty_field : (cols : ℕ) (c r : ℕ) → cell_at (replicate cols (replicate field_size none)) c r ≡ none
unfolding cell_at
empty_field zero c r = refl
empty_field (suc cols) zero r = empty_column r
empty_field (suc cols) (suc c) r = empty_field cols c r

pub new-IsSettled : (coin : Player) → IsSettled (new coin).field
unfolding new
new-IsSettled coin = record {
  below = λ c r h t. absurd (ground (arith, empty_field field_size c r));
}

check_win-winner :
    (g : GameInfo) (w : Option WinnerInfo)
    → ((check_win (record g { winner = w })).1 ≡ (check_win g).1)
      × ((check_win (record g { winner = w })).0.field ≡ (check_win g).0.field)
      × ((check_win (record g { winner = w })).0.turn ≡ (check_win g).0.turn)
unfolding check_win
check_win-winner g w = ground arith

drop_chip-winner :
    (g : GameInfo) (w : Option WinnerInfo) (c : ℕ) (o : Option ℕ)
    → ((drop_chip (record g { winner = w }) c o).1 ≡ (drop_chip g c o).1)
      × ((drop_chip (record g { winner = w }) c o).0.field ≡ (drop_chip g c o).0.field)
      × ((drop_chip (record g { winner = w }) c o).0.turn ≡ (drop_chip g c o).0.turn)
unfolding drop_chip
drop_chip-winner g w c none = (refl, refl, refl)
drop_chip-winner g w c (some i) =
    let h = record g { field = put g.field c i g.turn; turn = other g.turn } in
    let (answer, field, turn) = check_win-winner h w in (ap placed answer, field, turn)

-- Whether a game is over makes no difference to `place_chip`: with any winner noted, it answers the
-- same, and the field and the turn afterwards are the same.
pub place_chip-winner :
    (g : GameInfo) (w : Option WinnerInfo) (c : ℕ) (player : Player)
    → ((place_chip (record g { winner = w }) c player).1 ≡ (place_chip g c player).1)
      × ((place_chip (record g { winner = w }) c player).0.field ≡ (place_chip g c player).0.field)
      × ((place_chip (record g { winner = w }) c player).0.turn ≡ (place_chip g c player).0.turn)
unfolding place_chip
place_chip-winner g w c player = elim (Bool-cases (leb (length g.field) c)) [
  | inl far ↦ rw far (refl, refl, refl)
  | inr near ↦ elim (Bool-cases (same player g.turn)) [
    | inl mine ↦
        rw (near, mine) (drop_chip-winner g w c (free_cell (column_at g.field c) field_size))
    | inr later ↦ rw (near, later) (refl, refl, refl)
  ]
]
