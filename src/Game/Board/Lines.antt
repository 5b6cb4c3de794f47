-- ===== src/Game/Board/Lines.antt =====
-- Four chips in a line, by coordinates, and the lines that src/game/game_info.rs scans.
use fourinarow_server.Base.{
  ℕ, zero, suc, ◌+◌, ◌-◌, ◌/◌, ◌%◌, ◌<◌, ◌≤◌, ◌≡◌, refl, ap, ◌⊎◌, inl, inr, true, some, List, [],
  ◌∷◌, ◌++◌, map, arith, ltb, length, All, Bool-cases,
}
use fourinarow_server.Game.Board.{
  Player, same, Cell, cell_in, column_at, cell_at, field_size, visits, enumerate,
}
use fourinarow_server.Game.Board.Run.{four, starts}
use fourinarow_server.Game.Board.Grid.{cells_of, row_of}

-- Seven columns of seven cells.
pub record IsField (f : List (List Cell)) : Type 0 where
  pub width : length f ≡ field_size
  pub heights : All (λ col. length col ≡ field_size) f

-- Four adjacent cells of a line, from index `i` on.
abbrev pub FourAt : Player → List Cell → ℕ → Type 0
FourAt p line i =
    (cell_in line i ≡ some p)
    × (cell_in line (suc i) ≡ some p)
    × (cell_in line (suc (suc i)) ≡ some p)
    × (cell_in line (suc (suc (suc i))) ≡ some p)

same_eq : (p q : Player) → same p q ≡ true → q ≡ p
unfolding same
same_eq p q h = ground arith

same_refl : (p : Player) → same p p ≡ true
unfolding same
same_refl p = ground arith

starts-FourAt : (p : Player) (line : List Cell) → starts p 4 line ≡ true → FourAt p line 0
unfolding starts same
starts-FourAt p (some a ∷ some b ∷ some c ∷ some d ∷ rest) h = ground arith
starts-FourAt p line h = ground arith

FourAt-starts : (p : Player) (line : List Cell) → FourAt p line 0 → starts p 4 line ≡ true
unfolding starts same
FourAt-starts p (some a ∷ some b ∷ some c ∷ some d ∷ rest) h = ground arith
FourAt-starts p line h = ground arith

pub four-FourAt : (p : Player) (line : List Cell) → four p line ≡ true → (i : ℕ) × FourAt p line i
unfolding four
four-FourAt p [] h = absurd (ground arith)
four-FourAt p (cell ∷ cells) h = elim (Bool-cases (starts p 4 (cell ∷ cells))) [
  | inl first ↦ (0, starts-FourAt p (cell ∷ cells) first)
  | inr none_here ↦ let (i, at) = four-FourAt p cells (ground arith) in (suc i, at)
]

pub FourAt-four : (p : Player) (line : List Cell) (i : ℕ) → FourAt p line i → four p line ≡ true
unfolding four
FourAt-four p [] i h = ground arith
FourAt-four p (cell ∷ cells) zero h = ground (arith, FourAt-starts p (cell ∷ cells))
FourAt-four p (cell ∷ cells) (suc i) h = ground (arith, FourAt-four p cells i)

-- The cells of row `y`.
unfoldable pub row : ℕ → List (List Cell) → List Cell
row y f = map (λ col. cell_in col y) f

pub cell_in-row : (f : List (List Cell)) (c y : ℕ) → cell_in (row y f) c ≡ cell_at f c y
unfolding row cell_at
cell_in-row [] c y = refl
cell_in-row (col ∷ cols) zero y = refl
cell_in-row (col ∷ cols) (suc c) y = cell_in-row cols c y

-- An index that the column does not have finds nothing in it.
row_of-enumerate_out :
    (j k : ℕ) (col : List Cell) (rest : List (ℕ × Cell))
    → (j < k) ⊎ (k + length col ≤ j)
    → row_of j (enumerate k col ++ rest) ≡ row_of j rest
unfolding row_of enumerate
row_of-enumerate_out j k [] rest h = refl
row_of-enumerate_out j k (cell ∷ cells) rest h =
    ground (arith, row_of-enumerate_out j (suc k) cells rest)

-- An index that it has finds its cell.
row_of-enumerate_in :
    (j k i : ℕ) (col : List Cell) (rest : List (ℕ × Cell))
    → j ≡ k + i
    → i < length col
    → row_of j (enumerate k col ++ rest) ≡ cell_in col i ∷ row_of j rest
unfolding row_of enumerate
row_of-enumerate_in j k i [] rest e h = absurd (omega arith)
row_of-enumerate_in j k zero (cell ∷ cells) rest e h =
    ground (arith, row_of-enumerate_out j (suc k) cells rest)
row_of-enumerate_in j k (suc i) (cell ∷ cells) rest e h =
    ground (arith, row_of-enumerate_in j (suc k) i cells rest)

pub row_of-visits :
    (j : ℕ) (f : List (List Cell))
    → All (λ col. length col ≡ field_size) f
    → j < field_size
    → row_of j (visits f) ≡ row j f
unfolding row_of visits row
row_of-visits j [] h k = refl
row_of-visits j (col ∷ cols) h k =
    ground (arith, row_of-enumerate_in j 0 j col (visits cols), row_of-visits j cols h.1 k)

pub row_of-visits_out :
    (j : ℕ) (f : List (List Cell))
    → All (λ col. length col ≡ field_size) f
    → field_size ≤ j
    → row_of j (visits f) ≡ []
unfolding row_of visits
row_of-visits_out j [] h k = refl
row_of-visits_out j (col ∷ cols) h k =
    ground (arith, row_of-enumerate_out j 0 col (visits cols), row_of-visits_out j cols h.1 k)

cells_of-enumerate :
    (k : ℕ) (col : List Cell) (rest : List (ℕ × Cell))
    → cells_of (enumerate k col ++ rest) ≡ col ++ cells_of rest
unfolding cells_of enumerate
cells_of-enumerate k [] rest = refl
cells_of-enumerate k (cell ∷ cells) rest = ap (◌∷◌ cell) (cells_of-enumerate (suc k) cells rest)

cell_in-append_left :
    (xs ys : List Cell) (n : ℕ) → n < length xs → cell_in (xs ++ ys) n ≡ cell_in xs n
cell_in-append_left [] ys n h = absurd (omega arith)
cell_in-append_left (x ∷ xs) ys zero h = refl
cell_in-append_left (x ∷ xs) ys (suc n) h = cell_in-append_left xs ys n (omega arith)

cell_in-append_right :
    (xs ys : List Cell) (n : ℕ) → length xs ≤ n → cell_in (xs ++ ys) n ≡ cell_in ys (n - length xs)
cell_in-append_right [] ys n h = ground arith
cell_in-append_right (x ∷ xs) ys zero h = absurd (omega arith)
cell_in-append_right (x ∷ xs) ys (suc n) h =
    ground (arith, cell_in-append_right xs ys n (omega arith))

column_at-pred :
    (col : List Cell) (cols : List (List Cell)) (c : ℕ)
    → 0 < c
    → column_at (col ∷ cols) c ≡ column_at cols (c - 1)
column_at-pred col cols zero h = absurd (omega arith)
column_at-pred col cols (suc c) h = ground arith

-- Cell `n` of the visit is in column `n / 7`, at index `n % 7`.
pub cell_in-cells_of :
    (f : List (List Cell)) (n : ℕ)
    → All (λ col. length col ≡ field_size) f
    → cell_in (cells_of (visits f)) n ≡ cell_at f (n / 7) (n % 7)
unfolding cells_of visits cell_at
cell_in-cells_of [] n h = refl
cell_in-cells_of (col ∷ cols) n h =
    rw (cells_of-enumerate 0 col (visits cols)) (elim (Bool-cases (ltb n 7)) [
      | inl near ↦ ground (arith, cell_in-append_left col (cells_of (visits cols)) n)
      | inr far ↦ ground (
        arith,
        cell_in-append_right col (cells_of (visits cols)) n,
        column_at-pred col cols (n / 7),
        cell_in-cells_of cols (n - 7) h.1,
      )
    ])
