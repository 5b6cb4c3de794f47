-- ===== src/Game/Board.antt =====
-- src/game/game_info.rs: the board, the turn and the winner of one game. The field is the array of
-- columns, a cell of index 6 is at the bottom; the coin is the random first turn of `GameInfo::new`.
pub mod Run
pub mod Grid
pub mod Lines
pub mod Slants
pub mod Win
pub mod Chips
use fourinarow_server.Base.{
  ℕ, zero, suc, ◌+◌, ◌-◌, Bool, true, false, Option, none, some, List, [], ◌∷◌, ◌++◌, map, ltb, leb,
  ◌==◌, if◌then◌else◌, set, replicate, length, is_some,
}
use fourinarow_server.Game.Error.{SrvMsgError, invalid_column, not_your_turn}

pub data Player : Type 0 where
  one two : Player

unfoldable pub same : Player → Player → Bool
same one one = true
same two two = true
same _ _ = false

unfoldable pub other : Player → Player
other one = two
other two = one

unfoldable pub select {ℓ} : {A : Type ℓ} → Player → A → A → A
select one a b = a
select two a b = b

unfoldable pub select_both {ℓ} : {A : Type ℓ} → Player → A → A → A × A
select_both one a b = (a, b)
select_both two a b = (b, a)

abbrev pub Cell : Type 0
Cell = Option Player

abbrev pub field_size : ℕ
field_size = 7

pub record WinnerInfo : Type 0 where
  pub winner : Player
  pub requesting_rematch : Option Player

pub record GameInfo : Type 0 where
  pub field : List (List Cell)
  pub turn : Player
  pub winner : Option WinnerInfo

unfoldable pub new : Player → GameInfo
new coin = record {
  field = replicate field_size (replicate field_size none);
  turn = coin;
  winner = none;
}

unfoldable pub reset : Player → GameInfo → GameInfo
unfolding new
reset coin g = new coin

-- `self.field[column][y]`.
abbrev pub column_at : List (List Cell) → ℕ → List Cell
column_at [] c = []
column_at (col ∷ cols) zero = col
column_at (col ∷ cols) (suc c) = column_at cols c

abbrev pub cell_in : List Cell → ℕ → Cell
cell_in [] y = none
cell_in (cell ∷ cells) zero = cell
cell_in (cell ∷ cells) (suc y) = cell_in cells y

unfoldable pub cell_at : List (List Cell) → ℕ → ℕ → Cell
cell_at f c y = cell_in (column_at f c) y

-- `combo`: the owner of the current run and its length.
pub record Combo : Type 0 where
  pub owner : Cell
  pub count : ℕ

abbrev pub start : Combo
start = record { owner = none; count = 0 }

abbrev owned_by : Player → Cell → Bool
unfolding same
owned_by p none = false
owned_by p (some q) = same p q

-- `if cell != combo.0 { combo = (cell, 0) }; combo.1 += 1` on a taken cell.
unfoldable pub extend : Combo → Player → Combo
unfolding same
extend c p =
    if owned_by p c.owner
    then record c { count = c.count + 1 }
    else record { owner = some p; count = 1 }

-- The inner loop of both diagonals, over the cells that it visits.
unfoldable pub scan : Combo → List Cell → Option Player
unfolding extend
scan c [] = none
scan c (none ∷ cells) = scan start cells
scan c (some p ∷ cells) =
    let c' = extend c p in let rest = scan c' cells in if leb 4 c'.count then some p else rest

abbrev pub up_to_seven : List ℕ
up_to_seven = 0 ∷ 1 ∷ 2 ∷ 3 ∷ 4 ∷ 5 ∷ 6 ∷ []

-- `(0..FIELD_SIZE - 1).rev()`.
abbrev pub down_from_five : List ℕ
down_from_five = 5 ∷ 4 ∷ 3 ∷ 2 ∷ 1 ∷ 0 ∷ []

-- The cell that the loops read at `i` for `r = k - 3`; out of range they reset the run, as at an
-- empty cell.
unfoldable pub diagonal_cell : List (List Cell) → ℕ → ℕ → ℕ → Cell
unfolding cell_at
diagonal_cell f k i y =
    if ltb (i + k) 3 then none else if leb 10 (i + k) then none else cell_at f (i + k - 3) y

unfoldable pub diagonal : List (List Cell) → ℕ → List Cell
unfolding diagonal_cell
diagonal f k = map (λ i. diagonal_cell f k i i) up_to_seven

unfoldable pub anti_diagonal : List (List Cell) → ℕ → List Cell
unfolding diagonal_cell
anti_diagonal f k = map (λ i. diagonal_cell f k i (6 - i)) down_from_five

abbrev pub or_else : Option Player → Option Player → Option Player
or_else (some p) b = some p
or_else none b = b

-- `for r in (-RANGE)..=RANGE`, with `r = k - 3`.
unfoldable pub scan_diagonals : List (List Cell) → List ℕ → Option Player
unfolding scan diagonal anti_diagonal
scan_diagonals f [] = none
scan_diagonals f (k ∷ ks) =
    or_else (scan start (diagonal f k))
      (or_else (scan start (anti_diagonal f k)) (scan_diagonals f ks))

-- `column.iter().enumerate()`.
unfoldable pub enumerate : ℕ → List Cell → List (ℕ × Cell)
enumerate y [] = []
enumerate y (cell ∷ cells) = (y, cell) ∷ enumerate (suc y) cells

-- The cells in the order of the two nested loops over columns and cells.
unfoldable pub visits : List (List Cell) → List (ℕ × Cell)
unfolding enumerate
visits [] = []
visits (col ∷ cols) = enumerate 0 col ++ visits cols

abbrev pub update : (ℕ → Combo) → ℕ → Combo → ℕ → Combo
update x y c j = if j == y then c else x j

-- The body of the nested loops: `combo` runs on from column to column, `x_combo[y]` is row `y`'s.
unfoldable pub scan_grid : Combo → (ℕ → Combo) → List (ℕ × Cell) → Option Player
unfolding extend
scan_grid c x [] = none
scan_grid c x ((y, none) ∷ rest) = scan_grid start (update x y start) rest
scan_grid c x ((y, some p) ∷ rest) =
    let c' = extend c p in
    let x' = extend (x y) p in
    let later = scan_grid c' (update x y x') rest in
    if leb 4 c'.count then some p else if leb 4 x'.count then some p else later

unfoldable pub check_win_internal : List (List Cell) → Option Player
unfolding scan_diagonals scan_grid visits
check_win_internal f =
    or_else (scan_diagonals f up_to_seven) (scan_grid start (λ y. start) (visits f))

unfoldable pub check_win : GameInfo → GameInfo × Option Player
check_win g = elim (check_win_internal g.field) [
  | none ↦ (g, none)
  | some p ↦ (record g { winner = some (record { winner = p; requesting_rematch = none }) }, some p)
]

-- The loop `for i in (0..FIELD_SIZE).rev()` of `place_chip`: the free cell of the highest index
-- among the first `n`.
unfoldable pub free_cell : List Cell → ℕ → Option ℕ
free_cell col zero = none
free_cell col (suc n) =
    let rest = free_cell col n in if is_some (cell_in col n) then rest else some n

-- `self.field[column][i] = Some(self.turn)`.
unfoldable pub put : List (List Cell) → ℕ → ℕ → Player → List (List Cell)
put f c i p = set f c (set (column_at f c) i (some p))

pub data Placed : Type 0 where
  placed : Option Player → Placed
  refused : SrvMsgError → Placed

drop_chip : GameInfo → ℕ → Option ℕ → GameInfo × Placed
drop_chip g c none = (g, refused invalid_column)
drop_chip g c (some i) =
    let h = record g { field = put g.field c i g.turn; turn = other g.turn } in
    let (h', maybe_winner) = check_win h in (h', placed maybe_winner)

unfoldable pub place_chip : GameInfo → ℕ → Player → GameInfo × Placed
unfolding drop_chip
place_chip g c player =
    if leb (length g.field) c
    then (g, refused invalid_column)
    else if same player g.turn
    then drop_chip g c (free_cell (column_at g.field c) field_size)
    else (g, refused not_your_turn)
