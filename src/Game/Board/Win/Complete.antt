-- ===== src/Game/Board/Win/Complete.antt =====
-- The lines of four that src/game/game_info.rs does not miss.
use fourinarow_server.Base.{
  ℕ, zero, suc, ◌+◌, ◌-◌, ◌<◌, ◌≡◌, ◌≢◌, ◌⊎◌, inl, inr, true, none, List, arith,
}
use fourinarow_server.Game.Board.{
  Player, Cell, start, diagonal, anti_diagonal, up_to_seven, scan_grid, visits, check_win_internal,
}
use fourinarow_server.Game.Board.Run.{four, four-scan}
use fourinarow_server.Game.Board.Grid.{row_of, cells_of, scan_grid_complete}
use fourinarow_server.Game.Board.Lines.{
  IsField, FourAt-four, row, cell_in-row, row_of-visits, cell_in-cells_of,
}
use fourinarow_server.Game.Board.Slants.{
  Level, Falling, Rising, At-bounds, chip_diagonal, chip_anti_diagonal,
}
use fourinarow_server.Game.Board.Win.{
  InOrder, ScannedWin, falling, in_order, in_range, level, or_else_left, or_else_right, rising,
  scan_diagonals_complete,
}

grid_complete :
    (f : List (List Cell)) (p : Player)
    → (four p (cells_of (visits f)) ≡ true) ⊎ ((y : ℕ) × (four p (row_of y (visits f)) ≡ true))
    → scan_grid start (λ y. start) (visits f) ≢ none
grid_complete f p (inl h) e =
    four-scan (cells_of (visits f)) p h (scan_grid_complete start (λ y. start) (visits f) 0 e).0
grid_complete f p (inr (y, h)) e =
    four-scan (row_of y (visits f)) p h (scan_grid_complete start (λ y. start) (visits f) y e).1

Falling-four :
    (f : List (List Cell)) (p : Player) (c r : ℕ)
    → IsField f
    → Falling f p c r
    → (c + 3 - r < 7) × (four p (diagonal f (c + 3 - r)) ≡ true)
Falling-four f p c r w h =
    let b = At-bounds f p c r w h.0 in
    let d = At-bounds f p (suc (suc (suc c))) (suc (suc (suc r))) w h.3 in
    (
      omega arith,
      FourAt-four p (diagonal f (c + 3 - r)) r (
          ground (
            arith,
            chip_diagonal f (c + 3 - r) r,
            chip_diagonal f (c + 3 - r) (suc r),
            chip_diagonal f (c + 3 - r) (suc (suc r)),
            chip_diagonal f (c + 3 - r) (suc (suc (suc r))),
          )),
    )

Rising-four :
    (f : List (List Cell)) (p : Player) (c r : ℕ)
    → IsField f
    → Rising f p c (suc r)
    → (c + r + 1 < 7) × (four p (anti_diagonal f (c + r + 1)) ≡ true)
Rising-four f p c r w h =
    let b = At-bounds f p (suc (suc (suc c))) (suc r) w h.0 in
    let d = At-bounds f p c (suc (suc (suc (suc r)))) w h.3 in
    (
      omega arith,
      FourAt-four p (anti_diagonal f (c + r + 1)) r (
          ground (
            arith,
            chip_anti_diagonal f (c + r + 1) r,
            chip_anti_diagonal f (c + r + 1) (suc r),
            chip_anti_diagonal f (c + r + 1) (suc (suc r)),
            chip_anti_diagonal f (c + r + 1) (suc (suc (suc r))),
          )),
    )

Level-four :
    (f : List (List Cell)) (p : Player) (c r : ℕ)
    → IsField f
    → Level f p c r
    → four p (row_of r (visits f)) ≡ true
Level-four f p c r w h = rw (row_of-visits r f w.heights (At-bounds f p c r w h.0).1) (
    FourAt-four p (row r f) c (
      ground (
        arith,
        cell_in-row f c r,
        cell_in-row f (suc c) r,
        cell_in-row f (suc (suc c)) r,
        cell_in-row f (suc (suc (suc c))) r,
      )))

InOrder-four :
    (f : List (List Cell)) (p : Player) (n : ℕ)
    → IsField f
    → InOrder f p n
    → four p (cells_of (visits f)) ≡ true
InOrder-four f p n w h = FourAt-four p (cells_of (visits f)) n (
    ground (
      arith,
      cell_in-cells_of f n w.heights,
      cell_in-cells_of f (suc n) w.heights,
      cell_in-cells_of f (suc (suc n)) w.heights,
      cell_in-cells_of f (suc (suc (suc n))) w.heights,
    ))

-- On a field of seven columns of seven cells, whenever some player has four chips level, falling,
-- rising below the top row, or in a row in the order of the array (column by column from the top),
-- `check_win_internal` reports a winner.
pub ScannedWin-check_win_internal :
    (f : List (List Cell)) (p : Player) → IsField f → ScannedWin f p → check_win_internal f ≢ none
unfolding check_win_internal
ScannedWin-check_win_internal f p w (falling c r h) =
    let (k, e) = Falling-four f p c r w h in
    or_else_left _ _ (scan_diagonals_complete f up_to_seven (c + 3 - r) p (in_range _ k) (inl e))
ScannedWin-check_win_internal f p w (rising c zero a h) = absurd (omega arith)
ScannedWin-check_win_internal f p w (rising c (suc r) a h) =
    let (k, e) = Rising-four f p c r w h in
    or_else_left _ _ (scan_diagonals_complete f up_to_seven (c + r + 1) p (in_range _ k) (inr e))
ScannedWin-check_win_internal f p w (level c r h) =
    or_else_right _ _ (grid_complete f p (inr (r, Level-four f p c r w h)))
ScannedWin-check_win_internal f p w (in_order n h) =
    or_else_right _ _ (grid_complete f p (inl (InOrder-four f p n w h)))
