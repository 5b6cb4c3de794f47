-- ===== src/Player/Service/Results.antt =====
-- The ends of games and levels in src/player/repository.rs.
use fourinarow_server.Base.{leb_ℤ, ℤ, if◌then◌else◌, ℕ, ◌⊎◌, inl, inr, ◌&&◌, pos}
use fourinarow_server.Player.{PlayerId, Text}
use fourinarow_server.Player.Transaction.{Finished, committed, returned, aborted, transaction}
use fourinarow_server.Player.Cache.Rows.{LoadError}
use fourinarow_server.Player.Repository.{PlayerRepository, flush_player}
use fourinarow_server.Player.Repository.Loads.{bump_stats}
use fourinarow_server.Player.Games.{
  SettlementError, SettlementOutcome, settle_tx, CompleteLevelError, invalid_stars,
  CompleteLevelOutcome, complete_level_tx,
}
use fourinarow_server.Player.Service.{Surroundings, forget}

-- The statistics of both players, after the transaction. The reason of the change is `reason`.
unfoldable pub bump_loser :
    Surroundings
    → Text
    → PlayerId
    → SettlementOutcome
    → (LoadError ⊎ Unit {0}) × PlayerRepository
    → (SettlementError ⊎ SettlementOutcome) × PlayerRepository
unfolding bump_stats
bump_loser s reason loser outcome (inl e, r) = (inl SettlementError.cache_reload, r)
bump_loser s reason loser outcome (inr _, r) =
    let (result, r') = bump_stats s.after loser (pos 1) (pos 0) (pos 1) reason r in
    (elim result [ inl e ↦ inl SettlementError.cache_reload | inr _ ↦ inr outcome ], r')

unfoldable pub settled :
    Surroundings
    → Text
    → PlayerId
    → PlayerId
    → PlayerRepository
    → Finished (SettlementError ⊎ SettlementOutcome) SettlementOutcome
    → (SettlementError ⊎ SettlementOutcome) × PlayerRepository
unfolding bump_loser
settled s reason winner loser r (committed outcome t) =
    bump_loser s reason loser outcome
      (bump_stats s.after winner (pos 1) (pos 1) (pos 0) reason (record r { tables = t }))
settled s reason winner loser r (returned x) = (x, r)
settled s reason winner loser r aborted = (inl SettlementError.db, r)

unfoldable pub settle_game :
    Surroundings
    → Text
    → ℕ
    → PlayerId
    → PlayerId
    → ℤ
    → PlayerRepository
    → (SettlementError ⊎ SettlementOutcome) × PlayerRepository
unfolding settled settle_tx flush_player transaction
settle_game s reason id winner loser delta r =
    let (first, r') = flush_player s.before winner r in
    let (second, r'') = flush_player s.before loser r' in
    if first
    then (if second
        then settled s reason winner loser r''
            (transaction (settle_tx id winner loser delta s.moment) s.works r''.tables)
        else (inl SettlementError.cache_flush, r''))
    else (inl SettlementError.cache_flush, r')

unfoldable pub level_completed :
    PlayerId
    → PlayerRepository
    → Finished (CompleteLevelError ⊎ CompleteLevelOutcome) CompleteLevelOutcome
    → (CompleteLevelError ⊎ CompleteLevelOutcome) × PlayerRepository
unfolding forget
level_completed u r (committed outcome t) = (inr outcome, forget u t r)
level_completed u r (returned x) = (x, r)
level_completed u r aborted = (inl CompleteLevelError.db, r)

unfoldable pub complete_level :
    ℕ
    → Surroundings
    → PlayerId
    → ℕ
    → ℤ
    → ℤ
    → PlayerRepository
    → (CompleteLevelError ⊎ CompleteLevelOutcome) × PlayerRepository
unfolding level_completed complete_level_tx transaction
complete_level fuel s u mode level stars r =
    if leb_ℤ (pos 1) stars && leb_ℤ stars (pos 3)
    then level_completed u r
        (transaction (complete_level_tx fuel u mode level s.moment) s.works r.tables)
    else (inl invalid_stars, r)
