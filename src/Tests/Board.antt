-- ===== src/Tests/Board.antt =====
-- Games of src/game/game_info.rs.
use fourinarow_server.Base.{ℕ, zero, suc, ◌≡◌, refl, ◌≢◌, none, some, List, [], ◌∷◌, map, arith}
use fourinarow_server.Game.Board.{
  Player, GameInfo, one, two, Cell, new, check_win_internal, place_chip, cell_at,
}
use fourinarow_server.Game.Board.Lines.{IsField}
use fourinarow_server.Game.Board.Slants.{Rising}
use fourinarow_server.Game.Board.Win.{ScannedWin, in_order, check_win_internal-ScannedWin}
use fourinarow_server.Game.Board.Win.Complete.{ScannedWin-check_win_internal}
use fourinarow_server.Game.Board.Chips.Outcome.{
  Outcome, new-IsField, place_chip-Outcome, place_chip-winner,
}

-- The chips of a column, from the top one down, on `n` empty cells.
abbrev column : ℕ → List Player → List Cell
column zero chips = map some chips
column (suc n) chips = none ∷ column n chips

abbrev empty_column : List Cell
empty_column = column 7 []

-- Player one has the bottom row up to the fourth column.
abbrev level_field : List (List Cell)
level_field =
    column 6 (one ∷ [])
    ∷ column 6 (one ∷ [])
    ∷ column 6 (one ∷ [])
    ∷ column 6 (one ∷ [])
    ∷ empty_column
    ∷ empty_column
    ∷ empty_column
    ∷ []

-- Player one has the bottom three cells of the first column and the top one of the second.
abbrev turned_field : List (List Cell)
turned_field =
    column 4 (one ∷ one ∷ one ∷ [])
    ∷ column 0 (one ∷ two ∷ two ∷ one ∷ two ∷ two ∷ two ∷ [])
    ∷ empty_column
    ∷ empty_column
    ∷ empty_column
    ∷ empty_column
    ∷ empty_column
    ∷ []

-- Player one has a rising line of four that ends in the top row.
abbrev top_field : List (List Cell)
top_field =
    column 3 (one ∷ two ∷ one ∷ two ∷ [])
    ∷ column 2 (one ∷ two ∷ two ∷ one ∷ two ∷ [])
    ∷ column 1 (one ∷ two ∷ two ∷ one ∷ one ∷ two ∷ [])
    ∷ column 0 (one ∷ one ∷ two ∷ one ∷ two ∷ two ∷ one ∷ [])
    ∷ empty_column
    ∷ empty_column
    ∷ empty_column
    ∷ []

level_field-IsField : IsField level_field
level_field-IsField = record { width = refl; heights = omega arith }

turned_field-IsField : IsField turned_field
turned_field-IsField = record { width = refl; heights = omega arith }

level_field-wins : check_win_internal level_field ≡ some one
unfolding check_win_internal
level_field-wins = refl

check_win_internal-ScannedWin_example : ScannedWin level_field one
check_win_internal-ScannedWin_example =
    check_win_internal-ScannedWin level_field one level_field-IsField level_field-wins

turned_field-line : ScannedWin turned_field one
turned_field-line = unfold cell_at in (in_order 4 (refl, refl, refl, refl))

ScannedWin-check_win_internal_example : check_win_internal turned_field ≢ none
ScannedWin-check_win_internal_example =
    ScannedWin-check_win_internal turned_field one turned_field-IsField turned_field-line

-- The line is there, and no winner is reported.
top_field-missed : Rising top_field one 0 0 × (check_win_internal top_field ≡ none)
unfolding check_win_internal cell_at
top_field-missed = ((refl, refl, refl, refl), refl)

place_chip-Outcome_example : Outcome (new one) 3 one (place_chip (new one) 3 one)
place_chip-Outcome_example = place_chip-Outcome (new one) 3 one (new-IsField one)

abbrev won_game : GameInfo
won_game = record (new one) { winner = some (record { winner = two; requesting_rematch = none }) }

place_chip-winner_example :
    ((place_chip won_game 3 one).1 ≡ (place_chip (new one) 3 one).1)
    × ((place_chip won_game 3 one).0.field ≡ (place_chip (new one) 3 one).0.field)
    × ((place_chip won_game 3 one).0.turn ≡ (place_chip (new one) 3 one).0.turn)
place_chip-winner_example =
    place_chip-winner (new one) (some (record { winner = two; requesting_rematch = none })) 3 one
