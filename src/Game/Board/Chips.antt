-- ===== src/Game/Board/Chips.antt =====
-- `place_chip` of src/game/game_info.rs: where the chip lands and what is refused.
pub mod Outcome
use fourinarow_server.Base.{
  length, set, replicate, length-set, All, ltb, leb, ◌==◌, if◌then◌else◌, Bool-cases, is_some, ℕ,
  zero, suc, ◌≤◌, ◌<◌, ◌≡◌, refl, ap, ◌∙◌, ◌≢◌, ◌↔◌, ◌⊎◌, inl, inr, true, Option, none, some, List,
  [], ◌∷◌, arith,
}
use fourinarow_server.Game.Error.{SrvMsgError, invalid_column, not_your_turn}
use fourinarow_server.Game.Board.{
  Player, one, two, same, other, Cell, GameInfo, WinnerInfo, cell_in, column_at, cell_at,
  field_size, free_cell, put, Placed, placed, refused, check_win, check_win_internal, drop_chip,
  place_chip, new,
}
use fourinarow_server.Game.Board.Lines.{IsField}
use fourinarow_server.Game.Board.Slants.{At, At-bounds}

-- The cell is taken.
abbrev pub IsTaken : List (List Cell) → ℕ → ℕ → Type 0
IsTaken f c r = is_some (cell_at f c r) ≡ true

-- A chip lies on the bottom or on another chip.
pub record IsSettled (f : List (List Cell)) : Type 0 where
  pub below : (c r : ℕ) → suc r < field_size → IsTaken f c r → IsTaken f c (suc r)

-- The free cell that `place_chip` takes, with all cells under it taken.
abbrev pub Lowest : List Cell → ℕ → ℕ → Type 0
Lowest col n i =
    (i < n) × (cell_in col i ≡ none) × ((j : ℕ) → i < j → j < n → is_some (cell_in col j) ≡ true)

free_cell-Lowest : (col : List Cell) (n i : ℕ) → free_cell col n ≡ some i → Lowest col n i
unfolding free_cell
free_cell-Lowest col zero i h = absurd (ground arith)
free_cell-Lowest col (suc n) i h = elim (Bool-cases (is_some (cell_in col n))) [
  | inl taken ↦
      let (a, b, c) = free_cell-Lowest col n i (ground arith) in
      (
        omega arith,
        b,
        λ j l k. elim (Bool-cases (ltb j n)) [
          | inl near ↦ c j l (ground arith)
          | inr far ↦ ground arith
        ],
      )
  | inr free ↦ (ground arith, ground arith, λ j l k. ground arith)
]

free_cell-full :
    (col : List Cell) (n j : ℕ) → free_cell col n ≡ none → j < n → is_some (cell_in col j) ≡ true
unfolding free_cell
free_cell-full col zero j h k = absurd (omega arith)
free_cell-full col (suc n) j h k = ground (arith, free_cell-full col n j)

cell_in-set :
    (col : List Cell) (i r : ℕ) (v : Cell)
    → i < length col
    → cell_in (set col i v) r ≡ (if r == i then v else cell_in col r)
cell_in-set [] i r v h = absurd (omega arith)
cell_in-set (x ∷ col) zero zero v h = ground arith
cell_in-set (x ∷ col) zero (suc r) v h = ground arith
cell_in-set (x ∷ col) (suc i) zero v h = ground arith
cell_in-set (x ∷ col) (suc i) (suc r) v h = ground (arith, cell_in-set col i r v)

column_at-set :
    (f : List (List Cell)) (c d : ℕ) (col : List Cell)
    → c < length f
    → column_at (set f c col) d ≡ (if d == c then col else column_at f d)
column_at-set [] c d col h = absurd (omega arith)
column_at-set (x ∷ f) zero zero col h = ground arith
column_at-set (x ∷ f) zero (suc d) col h = ground arith
column_at-set (x ∷ f) (suc c) zero col h = ground arith
column_at-set (x ∷ f) (suc c) (suc d) col h = ground (arith, column_at-set f c d col)

column_at-height :
    (f : List (List Cell)) (c : ℕ)
    → All (λ col. length col ≡ field_size) f
    → c < length f
    → length (column_at f c) ≡ field_size
column_at-height [] c w h = absurd (omega arith)
column_at-height (col ∷ f) zero w h = w.0
column_at-height (col ∷ f) (suc c) w h = column_at-height f c w.1 (omega arith)

All-set :
    (f : List (List Cell)) (c : ℕ) (col : List Cell)
    → All (λ col'. length col' ≡ field_size) f
    → length col ≡ field_size
    → All (λ col'. length col' ≡ field_size) (set f c col)
All-set [] c col w h = tt
All-set (x ∷ f) zero col w h = (h, w.1)
All-set (x ∷ f) (suc c) col w h = (w.0, All-set f c col w.1 h)

put-IsField :
    (f : List (List Cell)) (c i : ℕ) (p : Player)
    → IsField f
    → c < field_size
    → IsField (put f c i p)
unfolding put
put-IsField f c i p w h = record {
  width = omega (arith, length-set f c (set (column_at f c) i (some p)), w.width);
  heights = All-set f c (set (column_at f c) i (some p)) w.heights (
      length-set (column_at f c) i (some p)
      ∙ column_at-height f c w.heights (omega (arith, w.width)));
}

-- The chip is put in one cell, and every other cell stays as it is.
pub cell_at-put :
    (f : List (List Cell)) (c i : ℕ) (p : Player) (d r : ℕ)
    → IsField f
    → c < field_size
    → i < field_size
    → cell_at (put f c i p) d r
      ≡ (if d == c then (if r == i then some p else cell_at f c r) else cell_at f d r)
unfolding put cell_at
cell_at-put f c i p d r w h k = ground (
  arith,
  column_at-set f c d (set (column_at f c) i (some p)),
  cell_in-set (column_at f c) i r (some p),
  column_at-height f c w.heights,
  w.width,
)

-- The game after a chip of the player whose turn it is has landed at row `i` of column `c`.
pub record Landed (g h : GameInfo) (c i : ℕ) : Type 0 where
  pub free : cell_at g.field c i ≡ none
  pub lowest : (r : ℕ) → i < r → r < field_size → IsTaken g.field c r
  pub chip : cell_at h.field c i ≡ some g.turn
  pub rest : (d r : ℕ) → (d ≢ c) ⊎ (r ≢ i) → cell_at h.field d r ≡ cell_at g.field d r
  pub turn : h.turn ≡ other g.turn

check_win-field : (g : GameInfo) → (check_win g).0.field ≡ g.field
unfolding check_win
check_win-field g = ground arith

check_win-turn : (g : GameInfo) → (check_win g).0.turn ≡ g.turn
unfolding check_win
check_win-turn g = ground arith

drop_chip-Landed :
    (g : GameInfo) (c i : ℕ)
    → IsField g.field
    → c < field_size
    → Lowest (column_at g.field c) field_size i
    → Landed g (drop_chip g c (some i)).0 c i
unfolding drop_chip
drop_chip-Landed g c i w h (a, b, e) =
    let put_at = λ (d r : ℕ). cell_at-put g.field c i g.turn d r w h a in
    let after =
      check_win-field (record g { field = put g.field c i g.turn; turn = other g.turn }) in
    record {
      free = unfold cell_at in b;
      lowest = unfold cell_at in e;
      chip = rw after (ground (arith, put_at c i));
      rest = λ d r ne. rw after (ground (arith, put_at d r));
      turn = check_win-turn (record g { field = put g.field c i g.turn; turn = other g.turn });
    }
