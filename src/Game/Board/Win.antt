-- ===== src/Game/Board/Win.antt =====
-- What `check_win_internal` of src/game/game_info.rs reports, by coordinates.
pub mod Complete
use fourinarow_server.Base.{
  Any, ltb, Bool-cases, Option-cases, ℕ, zero, suc, ◌+◌, ◌-◌, ◌/◌, ◌%◌, ◌≤◌, ◌<◌, ◌≡◌, refl, ◌≢◌,
  ◌⊎◌, inl, inr, true, Option, none, some, List, [], ◌∷◌, arith,
}
use fourinarow_server.Game.Board.{
  Player, Cell, start, cell_in, cell_at, field_size, diagonal, anti_diagonal, scan, or_else,
  scan_diagonals, up_to_seven, scan_grid, visits, check_win_internal,
}
use fourinarow_server.Game.Board.Run.{four, scan-four, four-scan}
use fourinarow_server.Game.Board.Grid.{row_of, cells_of, scan_grid_sound, scan_grid_complete}
use fourinarow_server.Game.Board.Lines.{
  FourAt, IsField, four-FourAt, FourAt-four, row, cell_in-row, row_of-visits, row_of-visits_out,
  cell_in-cells_of,
}
use fourinarow_server.Game.Board.Slants.{
  At, Level, Falling, Rising, At-bounds, diagonal_chip, chip_diagonal, anti_diagonal_chip,
  chip_anti_diagonal,
}

-- Four that follow one another in the order of the array: column by column, top to bottom.
abbrev pub InOrder : List (List Cell) → Player → ℕ → Type 0
InOrder f p n =
    At f p (n / 7) (n % 7)
    × At f p (suc n / 7) (suc n % 7)
    × At f p (suc (suc n) / 7) (suc (suc n) % 7)
    × At f p (suc (suc (suc n)) / 7) (suc (suc (suc n)) % 7)

-- The lines of four that the scans look at.
pub data ScannedWin (f : List (List Cell)) (p : Player) : Type 0 where
  level : (c r : ℕ) → Level f p c r → ScannedWin f p
  falling : (c r : ℕ) → Falling f p c r → ScannedWin f p
  rising : (c r : ℕ) → 1 ≤ r → Rising f p c r → ScannedWin f p
  in_order : (n : ℕ) → InOrder f p n → ScannedWin f p

diagonal-four :
    (f : List (List Cell)) (k : ℕ) (p : Player) → four p (diagonal f k) ≡ true → ScannedWin f p
diagonal-four f k p h =
    let (i, at) = four-FourAt p (diagonal f k) h in
    falling (i + k - 3) i (
      ground (
        arith,
        diagonal_chip f k i p,
        diagonal_chip f k (suc i) p,
        diagonal_chip f k (suc (suc i)) p,
        diagonal_chip f k (suc (suc (suc i))) p,
      ))

anti_diagonal-four :
    (f : List (List Cell)) (k : ℕ) (p : Player) → four p (anti_diagonal f k) ≡ true → ScannedWin f p
anti_diagonal-four f k p h =
    let (i, at) = four-FourAt p (anti_diagonal f k) h in
    rising (k + 2 - (i + 3)) (suc i) (omega arith) (
      ground (
        arith,
        anti_diagonal_chip f k i p,
        anti_diagonal_chip f k (suc i) p,
        anti_diagonal_chip f k (suc (suc i)) p,
        anti_diagonal_chip f k (suc (suc (suc i))) p,
      ))

scan_diagonals_sound :
    (f : List (List Cell)) (ks : List ℕ) (p : Player)
    → scan_diagonals f ks ≡ some p
    → ScannedWin f p
unfolding scan_diagonals
scan_diagonals_sound f [] p h = absurd (ground arith)
scan_diagonals_sound f (k ∷ ks) p h = elim (Option-cases (scan start (diagonal f k))) [
  | inr (q, a) ↦ diagonal-four f k p (scan-four (diagonal f k) p (ground arith))
  | inl a ↦ elim (Option-cases (scan start (anti_diagonal f k))) [
    | inr (q, b) ↦ anti_diagonal-four f k p (scan-four (anti_diagonal f k) p (ground arith))
    | inl b ↦ scan_diagonals_sound f ks p (ground arith)
  ]
]

or_else_left : (a b : Option Player) → a ≢ none → or_else a b ≢ none
or_else_left (some p) b h = h
or_else_left none b h = absurd (h refl)

or_else_right : (a b : Option Player) → b ≢ none → or_else a b ≢ none
or_else_right (some p) b h = ground arith
or_else_right none b h = h

scan_diagonals_complete :
    (f : List (List Cell)) (ks : List ℕ) (k : ℕ) (p : Player)
    → Any (λ m. m ≡ k) ks
    → (four p (diagonal f k) ≡ true) ⊎ (four p (anti_diagonal f k) ≡ true)
    → scan_diagonals f ks ≢ none
unfolding scan_diagonals
scan_diagonals_complete f [] k p m h = elim m [ ]
scan_diagonals_complete f (j ∷ ks) k p (inr m) h =
    or_else_right _ _ (or_else_right _ _ (scan_diagonals_complete f ks k p m h))
scan_diagonals_complete f (j ∷ ks) k p (inl e) (inl h) =
    or_else_left (scan start (diagonal f j)) _ (rw e (four-scan (diagonal f k) p h))
scan_diagonals_complete f (j ∷ ks) k p (inl e) (inr h) =
    or_else_right (scan start (diagonal f j)) _
      (or_else_left (scan start (anti_diagonal f j)) _ (rw e (four-scan (anti_diagonal f k) p h)))

in_range : (k : ℕ) → k < 7 → Any (λ m. m ≡ k) up_to_seven
in_range k h = ground arith

row-four : (f : List (List Cell)) (y : ℕ) (p : Player) → four p (row y f) ≡ true → ScannedWin f p
row-four f y p h =
    let (i, at) = four-FourAt p (row y f) h in
    level i y (
      ground (
        arith,
        cell_in-row f i y,
        cell_in-row f (suc i) y,
        cell_in-row f (suc (suc i)) y,
        cell_in-row f (suc (suc (suc i))) y,
      ))

grid_row :
    (f : List (List Cell)) (y : ℕ) (p : Player)
    → IsField f
    → four p (row_of y (visits f)) ≡ true
    → ScannedWin f p
unfolding four
grid_row f y p w h = elim (Bool-cases (ltb y field_size)) [
  | inl near ↦ row-four f y p (rw (row_of-visits y f w.heights (ground arith)) at h)
  | inr far ↦ absurd (ground (arith, row_of-visits_out y f w.heights))
]

order_four :
    (f : List (List Cell)) (p : Player)
    → IsField f
    → four p (cells_of (visits f)) ≡ true
    → ScannedWin f p
order_four f p w h =
    let (i, at) = four-FourAt p (cells_of (visits f)) h in
    in_order i (
      ground (
        arith,
        cell_in-cells_of f i w.heights,
        cell_in-cells_of f (suc i) w.heights,
        cell_in-cells_of f (suc (suc i)) w.heights,
        cell_in-cells_of f (suc (suc (suc i))) w.heights,
      ))

grid_sound :
    (f : List (List Cell)) (p : Player)
    → IsField f
    → scan_grid start (λ y. start) (visits f) ≡ some p
    → ScannedWin f p
grid_sound f p w h = elim (scan_grid_sound start (λ y. start) (visits f) p h) [
  | inl e ↦ order_four f p w (scan-four (cells_of (visits f)) p e)
  | inr (y, e) ↦ grid_row f y p w (scan-four (row_of y (visits f)) p e)
]

-- On a field of seven columns of seven cells, a player that `check_win_internal` reports has four
-- chips level, falling, rising below the top row, or in a row in the order of the array (column by
-- column from the top).
pub check_win_internal-ScannedWin :
    (f : List (List Cell)) (p : Player) → IsField f → check_win_internal f ≡ some p → ScannedWin f p
unfolding check_win_internal
check_win_internal-ScannedWin f p w h = elim (Option-cases (scan_diagonals f up_to_seven)) [
  | inr (q, e) ↦ scan_diagonals_sound f up_to_seven p (ground arith)
  | inl e ↦ grid_sound f p w (ground arith)
]
