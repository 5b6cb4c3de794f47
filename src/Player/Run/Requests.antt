-- ===== src/Player/Run/Requests.antt =====
-- Requests to src/player/repository.rs, one after another: they keep whatever each transaction keeps,
-- as long as only statistics are unsaved in the cache.
pub mod Sequence
use fourinarow_server.Base.{
  ltb_ℤ, leb_ℤ, ℤ, Dict, Bool-cases, Option-cases, ℕ, suc, ◌≡◌, ◌⊎◌, inl, inr, Bool, true, ◌&&◌,
  List, [], ◌∷◌, arith, pos,
}
use fourinarow_server.Player.{ItemId, QuestId, PlayerId, Text, Key, GameEvent, PlayerStats}
use fourinarow_server.Player.Tables.{Tables, QuestType, lookup2}
use fourinarow_server.Player.Transaction.{Tx, Finished, committed, returned, aborted, transaction}
use fourinarow_server.Player.Transaction.Rules.{Keeps, Committed, transaction-Committed}
use fourinarow_server.Player.Quests.{Moment}
use fourinarow_server.Player.Cache.Rows.{LoadError}
use fourinarow_server.Player.Repository.{PlayerRepository, Environment, flush_player}
use fourinarow_server.Player.Repository.Loads.{bump_stats}
use fourinarow_server.Player.Operations.{
  operation_id, add_item_tx, purchase_tx, redeem_tx, claim_tx, Completed,
}
use fourinarow_server.Player.Games.{
  SettlementError, SettlementOutcome, CompleteLevelError, CompleteLevelOutcome, ensure_mode,
  ensure_mode_progress, settle_tx, complete_level_tx,
}
use fourinarow_server.Player.Service.{
  Surroundings, reloaded, flushed, purchase, redeem_invite, claim_quest_reward, item_added,
  add_item_once, event_applied, event_tx, trigger_quest_event, forget,
}
use fourinarow_server.Player.Service.Results.{
  bump_loser, settled, settle_game, level_completed, complete_level,
}
use fourinarow_server.Player.Run.{Request, alone, sequential, handle, run}
use fourinarow_server.Player.Run.Cache.{remove-OnlyStats}
use fourinarow_server.Player.Run.Flush.{
  Holds, flush_player-Holds, flush_all-Holds, tick_flush-Holds,
}
use fourinarow_server.Player.Run.Flush.Loads.{
  get_readonly-Holds, reload_after-Holds, bump_stats-Holds,
}

module _ {P : Tables → Type 0}
    (statistics : (rows : Dict PlayerStats) (t : Tables)
      → P t
      → P (record t { player_stats = rows })) where
  with_tables :
      (t : Tables) (r : PlayerRepository) → P t → Holds P r → Holds P (record r { tables = t })
  with_tables t r p h = record { tables = p; only = h.only }

  reloaded-Holds :
      {E A : Type 0} (db : E) (after : Environment) (u : PlayerId) (r : PlayerRepository)
      (x : Finished (E ⊎ A) A)
      → Committed (λ _. P) x
      → Holds P r
      → Holds P (reloaded db after u r x).1
  unfolding reloaded
  reloaded-Holds db after u r (committed a t) p h =
      reload_after-Holds statistics after u (record r { tables = t }) (with_tables t r p h)
  reloaded-Holds db after u r (returned x) p h = h
  reloaded-Holds db after u r aborted p h = h

  pub flushed-Holds :
      {E A : Type 0} (cache_flush db : E) (s : Surroundings) (u : PlayerId) (body : Tx (E ⊎ A) A)
      (r : PlayerRepository)
      → Keeps P body
      → Holds P r
      → Holds P (flushed cache_flush db (sequential s) u body r).1
  unfolding flushed
  flushed-Holds cache_flush db s u body r keeps h =
      let r' : PlayerRepository = (flush_player (alone s.before) u r).1 in
      let h' : Holds P r' = flush_player-Holds statistics s.before u r h in
      elim (Bool-cases (flush_player (alone s.before) u r).0) [
        | inl fine ↦ rw fine (
            reloaded-Holds db (alone s.after) u r' (transaction body s.works r'.tables)
              (transaction-Committed s.works r'.tables keeps h'.tables) h')
        | inr failed ↦ rw failed h'
      ]

  item_added-Holds :
      (s : Surroundings) (u : PlayerId) (r : PlayerRepository) (x : Finished Bool Bool)
      → Committed (λ _. P) x
      → Holds P r
      → Holds P (item_added (sequential s) u r x).1
  unfolding item_added
  item_added-Holds s u r (committed b t) p h =
      reload_after-Holds statistics (alone s.after) u (record r { tables = t })
        (with_tables t r p h)
  item_added-Holds s u r (returned b) p h = h
  item_added-Holds s u r aborted p h = h

  pub add_item_once-Holds :
      (s : Surroundings) (u : PlayerId) (i : ItemId) (n : ℤ) (business key : Key)
      (r : PlayerRepository)
      → (ltb_ℤ (pos 0) n ≡ true → Keeps P (add_item_tx u i n business key))
      → Holds P r
      → Holds P (add_item_once (sequential s) u i n business key r).1
  unfolding add_item_once
  add_item_once-Holds s u i n business key r keeps h =
      let r' : PlayerRepository = (flush_player (alone s.before) u r).1 in
      let h' : Holds P r' = flush_player-Holds statistics s.before u r h in
      elim (Bool-cases (leb_ℤ n (pos 0))) [
        | inl nothing ↦ rw nothing h
        | inr some_n ↦
            let positive : ltb_ℤ (pos 0) n ≡ true = ground arith in
            elim (Bool-cases (flush_player (alone s.before) u r).0) [
              | inl fine ↦
                  rw (some_n, fine)
                    (item_added-Holds s u r'
                      (transaction (add_item_tx u i n business key) s.works r'.tables)
                      (transaction-Committed s.works r'.tables (keeps positive) h'.tables) h')
              | inr failed ↦ rw (some_n, failed) h'
            ]
      ]

  forget-Holds :
      (u : PlayerId) (t : Tables) (r : PlayerRepository) → P t → Holds P r → Holds P (forget u t r)
  unfolding forget
  forget-Holds u t r p h = record { tables = p; only = remove-OnlyStats u r.cache h.only }

  pub event_applied-Holds :
      (u : PlayerId) (r : PlayerRepository) (x : Finished Completed Completed)
      → Committed (λ _. P) x
      → Holds P r
      → Holds P (event_applied u r x).1
  unfolding event_applied
  event_applied-Holds u r (committed a t) p h = forget-Holds u t r p h
  event_applied-Holds u r (returned a) p h = h
  event_applied-Holds u r aborted p h = h

  level_completed-Holds :
      (u : PlayerId) (r : PlayerRepository)
      (x : Finished (CompleteLevelError ⊎ CompleteLevelOutcome) CompleteLevelOutcome)
      → Committed (λ _. P) x
      → Holds P r
      → Holds P (level_completed u r x).1
  unfolding level_completed
  level_completed-Holds u r (committed a t) p h = forget-Holds u t r p h
  level_completed-Holds u r (returned a) p h = h
  level_completed-Holds u r aborted p h = h

  bump_loser-Holds :
      (s : Surroundings) (reason : Text) (loser : PlayerId) (outcome : SettlementOutcome)
      (x : (LoadError ⊎ Unit {0}) × PlayerRepository)
      → Holds P x.1
      → Holds P (bump_loser (sequential s) reason loser outcome x).1
  unfolding bump_loser
  bump_loser-Holds s reason loser outcome (inl e, r) h = h
  bump_loser-Holds s reason loser outcome (inr _, r) h =
      bump_stats-Holds statistics s.after loser (pos 1) (pos 0) (pos 1) reason r h

  settled-Holds :
      (s : Surroundings) (reason : Text) (winner loser : PlayerId) (r : PlayerRepository)
      (x : Finished (SettlementError ⊎ SettlementOutcome) SettlementOutcome)
      → Committed (λ _. P) x
      → Holds P r
      → Holds P (settled (sequential s) reason winner loser r x).1
  unfolding settled
  settled-Holds s reason winner loser r (committed outcome t) p h =
      bump_loser-Holds s reason loser outcome
        (bump_stats (alone s.after) winner (pos 1) (pos 1) (pos 0) reason (record r { tables = t }))
        (bump_stats-Holds statistics s.after winner (pos 1) (pos 1) (pos 0) reason
          (record r { tables = t }) (with_tables t r p h))
  settled-Holds s reason winner loser r (returned x) p h = h
  settled-Holds s reason winner loser r aborted p h = h

  pub settle_game-Holds :
      (s : Surroundings) (reason : Text) (id : ℕ) (winner loser : PlayerId) (delta : ℤ)
      (r : PlayerRepository)
      → Keeps P (settle_tx id winner loser delta s.moment)
      → Holds P r
      → Holds P (settle_game (sequential s) reason id winner loser delta r).1
  unfolding settle_game
  settle_game-Holds s reason id winner loser delta r keeps h =
      let r' : PlayerRepository = (flush_player (alone s.before) winner r).1 in
      let h' : Holds P r' = flush_player-Holds statistics s.before winner r h in
      let r'' : PlayerRepository = (flush_player (alone s.before) loser r').1 in
      let h'' : Holds P r'' = flush_player-Holds statistics s.before loser r' h' in
      elim (Bool-cases (flush_player (alone s.before) winner r).0) [
        | inr failed ↦ rw failed h'
        | inl first ↦ elim (Bool-cases (flush_player (alone s.before) loser r').0) [
          | inl second ↦
              rw (first, second)
                (settled-Holds s reason winner loser r''
                  (transaction (settle_tx id winner loser delta s.moment) s.works r''.tables)
                  (transaction-Committed s.works r''.tables keeps h''.tables) h'')
          | inr failed ↦ rw (first, failed) h''
        ]
      ]

  pub complete_level-Holds :
      (fuel : ℕ) (s : Surroundings) (u : PlayerId) (mode : ℕ) (level stars : ℤ)
      (r : PlayerRepository)
      → Keeps P (complete_level_tx fuel u mode level s.moment)
      → Holds P r
      → Holds P (complete_level fuel (sequential s) u mode level stars r).1
  unfolding complete_level
  complete_level-Holds fuel s u mode level stars r keeps h =
      elim (Bool-cases (leb_ℤ (pos 1) stars && leb_ℤ stars (pos 3))) [
        | inl right ↦ rw right (
            level_completed-Holds u r
              (transaction (complete_level_tx fuel u mode level s.moment) s.works r.tables)
              (transaction-Committed s.works r.tables keeps h.tables) h)
        | inr wrong ↦ rw wrong h
      ]
