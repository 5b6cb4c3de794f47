-- ===== src/Game/Board/Slants.antt =====
-- The diagonals that src/game/game_info.rs scans, by coordinates.
use fourinarow_server.Base.{
  ℕ, zero, suc, ◌+◌, ◌-◌, ◌<◌, ◌≤◌, ◌≡◌, some, List, [], ◌∷◌, arith, length, All,
}
use fourinarow_server.Game.Board.{
  Player, Cell, cell_in, column_at, cell_at, field_size, diagonal, anti_diagonal,
}
use fourinarow_server.Game.Board.Lines.{IsField}

-- The cell of column `c` and row `r` holds a chip of `p`; row 0 is at the top.
abbrev pub At : List (List Cell) → Player → ℕ → ℕ → Type 0
At f p c r = cell_at f c r ≡ some p

-- Four in a row, level.
abbrev pub Level : List (List Cell) → Player → ℕ → ℕ → Type 0
Level f p c r =
    At f p c r × At f p (suc c) r × At f p (suc (suc c)) r × At f p (suc (suc (suc c))) r

-- Four that fall to the right.
abbrev pub Falling : List (List Cell) → Player → ℕ → ℕ → Type 0
Falling f p c r =
    At f p c r
    × At f p (suc c) (suc r)
    × At f p (suc (suc c)) (suc (suc r))
    × At f p (suc (suc (suc c))) (suc (suc (suc r)))

-- Four that rise to the right, up to row `r`.
abbrev pub Rising : List (List Cell) → Player → ℕ → ℕ → Type 0
Rising f p c r =
    At f p (suc (suc (suc c))) r
    × At f p (suc (suc c)) (suc r)
    × At f p (suc c) (suc (suc r))
    × At f p c (suc (suc (suc r)))

column_bound :
    (f : List (List Cell)) (p : Player) (c r : ℕ)
    → cell_in (column_at f c) r ≡ some p
    → c < length f
column_bound [] p c r h = ground arith
column_bound (col ∷ cols) p zero r h = omega arith
column_bound (col ∷ cols) p (suc c) r h = omega (arith, column_bound cols p c r h)

cell_bound : (col : List Cell) (p : Player) (r : ℕ) → cell_in col r ≡ some p → r < length col
cell_bound [] p r h = ground arith
cell_bound (cell ∷ cells) p zero h = omega arith
cell_bound (cell ∷ cells) p (suc r) h = omega (arith, cell_bound cells p r h)

height_bound :
    (f : List (List Cell)) (p : Player) (c r : ℕ)
    → All (λ col. length col ≡ field_size) f
    → cell_in (column_at f c) r ≡ some p
    → r < field_size
height_bound [] p c r w h = ground arith
height_bound (col ∷ cols) p zero r w h = omega (arith, cell_bound col p r h)
height_bound (col ∷ cols) p (suc c) r w h = height_bound cols p c r w.1 h

-- A chip stands inside the field.
pub At-bounds :
    (f : List (List Cell)) (p : Player) (c r : ℕ)
    → IsField f
    → At f p c r
    → (c < field_size) × (r < field_size)
unfolding cell_at
At-bounds f p c r w h =
    (omega (arith, column_bound f p c r h, w.width), height_bound f p c r w.heights h)

pub diagonal_chip :
    (f : List (List Cell)) (k i : ℕ) (p : Player)
    → cell_in (diagonal f k) i ≡ some p
    → (3 ≤ i + k) × At f p (i + k - 3) i
unfolding diagonal
diagonal_chip f k zero p h = ground arith
diagonal_chip f k (suc zero) p h = ground arith
diagonal_chip f k (suc (suc zero)) p h = ground arith
diagonal_chip f k (suc (suc (suc zero))) p h = ground arith
diagonal_chip f k (suc (suc (suc (suc zero)))) p h = ground arith
diagonal_chip f k (suc (suc (suc (suc (suc zero))))) p h = ground arith
diagonal_chip f k (suc (suc (suc (suc (suc (suc zero)))))) p h = ground arith
diagonal_chip f k (suc (suc (suc (suc (suc (suc (suc i))))))) p h = ground arith

pub chip_diagonal :
    (f : List (List Cell)) (k i : ℕ)
    → i < 7
    → 3 ≤ i + k
    → i + k < 10
    → cell_in (diagonal f k) i ≡ cell_at f (i + k - 3) i
unfolding diagonal
chip_diagonal f k zero h a b = ground arith
chip_diagonal f k (suc zero) h a b = ground arith
chip_diagonal f k (suc (suc zero)) h a b = ground arith
chip_diagonal f k (suc (suc (suc zero))) h a b = ground arith
chip_diagonal f k (suc (suc (suc (suc zero)))) h a b = ground arith
chip_diagonal f k (suc (suc (suc (suc (suc zero))))) h a b = ground arith
chip_diagonal f k (suc (suc (suc (suc (suc (suc zero)))))) h a b = ground arith
chip_diagonal f k (suc (suc (suc (suc (suc (suc (suc i))))))) h a b = absurd (omega arith)

pub anti_diagonal_chip :
    (f : List (List Cell)) (k i : ℕ) (p : Player)
    → cell_in (anti_diagonal f k) i ≡ some p
    → (i < 6) × (i ≤ k + 2) × At f p (k + 2 - i) (suc i)
unfolding anti_diagonal
anti_diagonal_chip f k zero p h = ground arith
anti_diagonal_chip f k (suc zero) p h = ground arith
anti_diagonal_chip f k (suc (suc zero)) p h = ground arith
anti_diagonal_chip f k (suc (suc (suc zero))) p h = ground arith
anti_diagonal_chip f k (suc (suc (suc (suc zero)))) p h = ground arith
anti_diagonal_chip f k (suc (suc (suc (suc (suc zero))))) p h = ground arith
anti_diagonal_chip f k (suc (suc (suc (suc (suc (suc i)))))) p h = ground arith

pub chip_anti_diagonal :
    (f : List (List Cell)) (k i : ℕ)
    → i < 6
    → i ≤ k + 2
    → k + 2 - i < 7
    → cell_in (anti_diagonal f k) i ≡ cell_at f (k + 2 - i) (suc i)
unfolding anti_diagonal
chip_anti_diagonal f k zero h a b = ground arith
chip_anti_diagonal f k (suc zero) h a b = ground arith
chip_anti_diagonal f k (suc (suc zero)) h a b = ground arith
chip_anti_diagonal f k (suc (suc (suc zero))) h a b = ground arith
chip_anti_diagonal f k (suc (suc (suc (suc zero)))) h a b = ground arith
chip_anti_diagonal f k (suc (suc (suc (suc (suc zero))))) h a b = ground arith
chip_anti_diagonal f k (suc (suc (suc (suc (suc (suc i)))))) h a b = absurd (omega arith)
