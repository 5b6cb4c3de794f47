-- ===== src/Game/Board/Grid.antt =====
-- The nested loops of `check_win_internal`, which run two scans at once: one over all cells in
-- order, and one over the cells of each row.
use fourinarow_server.Base.{
  ℕ, ◌≡◌, refl, ◌⊎◌, inl, inr, none, some, List, [], ◌∷◌, arith, leb, ◌==◌, if◌then◌else◌,
  Bool-cases,
}
use fourinarow_server.Game.Board.{Player, Cell, Combo, start, extend, scan, update, scan_grid}

-- The cells visited, and those of one row.
unfoldable pub cells_of : List (ℕ × Cell) → List Cell
cells_of [] = []
cells_of ((y, cell) ∷ rest) = cell ∷ cells_of rest

unfoldable pub row_of : ℕ → List (ℕ × Cell) → List Cell
row_of j [] = []
row_of j ((y, cell) ∷ rest) = let later = row_of j rest in if j == y then cell ∷ later else later

-- What the loops report, one of the two scans reports.
pub scan_grid_sound :
    (c : Combo) (x : ℕ → Combo) (vs : List (ℕ × Cell)) (p : Player)
    → scan_grid c x vs ≡ some p
    → (scan c (cells_of vs) ≡ some p) ⊎ ((j : ℕ) × (scan (x j) (row_of j vs) ≡ some p))
unfolding scan_grid scan cells_of row_of
scan_grid_sound c x [] p e = ground arith
scan_grid_sound c x ((y, none) ∷ rest) p e =
    elim (scan_grid_sound start (update x y start) rest p e) [
      | inl h ↦ inl h
      | inr (j, h) ↦ inr (j, ground arith)
    ]
scan_grid_sound c x ((y, some q) ∷ rest) p e = elim (Bool-cases (leb 4 (extend c q).count)) [
  | inl h ↦ inl (ground arith)
  | inr h ↦ elim (Bool-cases (leb 4 (extend (x y) q).count)) [
    | inl k ↦ inr (y, ground arith)
    | inr k ↦
        elim (scan_grid_sound (extend c q) (update x y (extend (x y) q)) rest p (ground arith)) [
          | inl m ↦ inl (ground arith)
          | inr (j, m) ↦ inr (j, ground arith)
        ]
  ]
]

-- Where the loops report nothing, neither scan does.
pub scan_grid_complete :
    (c : Combo) (x : ℕ → Combo) (vs : List (ℕ × Cell)) (j : ℕ)
    → scan_grid c x vs ≡ none
    → (scan c (cells_of vs) ≡ none) × (scan (x j) (row_of j vs) ≡ none)
unfolding scan_grid scan cells_of row_of
scan_grid_complete c x [] j e = (refl, refl)
scan_grid_complete c x ((y, none) ∷ rest) j e =
    ground (arith, scan_grid_complete start (update x y start) rest j e)
scan_grid_complete c x ((y, some q) ∷ rest) j e =
    ground (arith, scan_grid_complete (extend c q) (update x y (extend (x y) q)) rest j)
