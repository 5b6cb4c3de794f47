-- ===== src/Game/Board/Run.antt =====
-- The scans of src/game/game_info.rs against a plain description: four equal chips in a row.
use fourinarow_server.Base.{
  ℕ, zero, suc, ◌+◌, ◌-◌, ◌<◌, ◌≡◌, refl, ◌≢◌, ◌⊎◌, inr, Bool, true, false, ◌&&◌, ◌||◌, none, some,
  List, [], ◌∷◌, arith,
}
use fourinarow_server.Game.Board.{Player, same, Cell, Combo, start, extend, scan}

-- The first `n` cells are chips of `p`.
unfoldable pub starts : Player → ℕ → List Cell → Bool
unfolding same
starts p zero cells = true
starts p (suc n) [] = false
starts p (suc n) (none ∷ cells) = false
starts p (suc n) (some q ∷ cells) = same p q && starts p n cells

-- Four adjacent cells of the line are chips of `p`.
unfoldable pub four : Player → List Cell → Bool
unfolding starts
four p [] = false
four p (cell ∷ cells) = starts p 4 (cell ∷ cells) || four p cells

-- `p` has a run of `c`'s length behind it and completes it to four at once.
abbrev pub completes : Player → Combo → List Cell → Bool
unfolding same starts
completes p c cells = elim c.owner [
  | none ↦ false
  | some q ↦ same p q && starts p (4 - c.count) cells
]

starts_more :
    (p q : Player) (n : ℕ) (cells : List Cell)
    → n < 4
    → starts p (4 - n) (some q ∷ cells) ≡ (same p q && starts p (4 - (n + 1)) cells)
unfolding starts
starts_more p q zero cells h = refl
starts_more p q (suc zero) cells h = refl
starts_more p q (suc (suc zero)) cells h = refl
starts_more p q (suc (suc (suc zero))) cells h = refl
starts_more p q (suc (suc (suc (suc n)))) cells h = absurd (omega arith)

starts_blocked :
    (p : Player) (n : ℕ) (cells : List Cell)
    → n < 4
    → (starts p (4 - n) [] ≡ false) × (starts p (4 - n) (none ∷ cells) ≡ false)
unfolding starts
starts_blocked p zero cells h = (refl, refl)
starts_blocked p (suc zero) cells h = (refl, refl)
starts_blocked p (suc (suc zero)) cells h = (refl, refl)
starts_blocked p (suc (suc (suc zero))) cells h = (refl, refl)
starts_blocked p (suc (suc (suc (suc n)))) cells h = absurd (omega arith)

-- A result of the scan is justified by four in a row, counting the run that it began with.
pub scan_sound :
    (c : Combo) (cells : List Cell) (p : Player)
    → c.count < 4
    → scan c cells ≡ some p
    → (completes p c cells ≡ true) ⊎ (four p cells ≡ true)
unfolding scan four extend
scan_sound c [] p h e = ground arith
scan_sound c (none ∷ cells) p h e = ground (arith, scan_sound start cells p (omega arith) e)
scan_sound c (some q ∷ cells) p h e =
    ground (arith, scan_sound (extend c q) cells p, starts_more p q c.count cells)

-- A line that completes the run, or has four of its own, is noticed.
pub scan_complete :
    (c : Combo) (cells : List Cell) (p : Player)
    → c.count < 4
    → (completes p c cells ≡ true) ⊎ (four p cells ≡ true)
    → scan c cells ≢ none
unfolding scan four extend
scan_complete c [] p h e = ground (arith, starts_blocked p c.count [])
scan_complete c (none ∷ cells) p h e =
    ground (arith, starts_blocked p c.count cells, scan_complete start cells p)
scan_complete c (some q ∷ cells) p h e =
    ground (arith, scan_complete (extend c q) cells p, starts_more p q c.count cells)

-- A scan from an empty run reports exactly a line with four.
pub scan-four : (line : List Cell) (p : Player) → scan start line ≡ some p → four p line ≡ true
unfolding same starts
scan-four line p h = ground (arith, scan_sound start line p (omega arith) h)

pub four-scan : (line : List Cell) (p : Player) → four p line ≡ true → scan start line ≢ none
four-scan line p h = scan_complete start line p (omega arith) (inr h)
