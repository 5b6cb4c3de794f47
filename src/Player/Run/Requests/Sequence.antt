-- ===== src/Player/Run/Requests/Sequence.antt =====
-- All requests to src/player/repository.rs, one after another.
use fourinarow_server.Base.{
  ltb_ℤ, ℤ, Dict, Bool-cases, Option-cases, ℕ, suc, ◌≡◌, inl, inr, Bool, true, List, [], ◌∷◌, pos,
}
use fourinarow_server.Player.{ItemId, QuestId, PlayerId, Key, GameEvent, PlayerStats}
use fourinarow_server.Player.Tables.{Tables, QuestType, lookup2}
use fourinarow_server.Player.Transaction.{transaction}
use fourinarow_server.Player.Transaction.Rules.{Keeps, transaction-Committed}
use fourinarow_server.Player.Quests.{Moment}
use fourinarow_server.Player.Repository.{PlayerRepository}
use fourinarow_server.Player.Operations.{
  operation_id, add_item_tx, purchase_tx, redeem_tx, claim_tx,
}
use fourinarow_server.Player.Games.{ensure_mode, ensure_mode_progress, settle_tx, complete_level_tx}
use fourinarow_server.Player.Service.{
  Surroundings, purchase, redeem_invite, claim_quest_reward, event_tx, trigger_quest_event,
}
use fourinarow_server.Player.Run.{Request, alone, sequential, handle, run}
use fourinarow_server.Player.Run.Flush.{Holds, flush_all-Holds, tick_flush-Holds}
use fourinarow_server.Player.Run.Flush.Loads.{get_readonly-Holds}
use fourinarow_server.Player.Run.Requests.{
  flushed-Holds, add_item_once-Holds, event_applied-Holds, settle_game-Holds, complete_level-Holds,
}

-- What each statement that a request makes keeps.
pub record Kept (P : Tables → Type 0) : Type 0 where
  pub statistics :
      (rows : Dict PlayerStats) (t : Tables) → P t → P (record t { player_stats = rows })
  pub modes : (rows : Dict (Dict ℤ)) (t : Tables) → P t → P (record t { mode_progress = rows })
  pub purchase :
      (u : PlayerId) (shop : ℕ) (i : ItemId) (operation : Key) (m : Moment)
      → Keeps P (purchase_tx u shop i operation m)
  pub redeem : (code : ℕ) (u : PlayerId) (m : Moment) → Keeps P (redeem_tx code u m)
  pub claim :
      (u : PlayerId) (kind : QuestType) (id : QuestId) (m : Moment) → Keeps P (claim_tx u kind id m)
  pub add_item :
      (u : PlayerId) (i : ItemId) (n : ℤ) (business key : Key)
      → ltb_ℤ (pos 0) n ≡ true
      → Keeps P (add_item_tx u i n business key)
  pub event :
      (u : PlayerId) (m : Moment) (event : GameEvent) (prefix : Key)
      → Keeps P (event_tx u m event prefix)
  pub settle :
      (id : ℕ) (winner loser : PlayerId) (delta : ℤ) (m : Moment)
      → Keeps P (settle_tx id winner loser delta m)
  pub level :
      (fuel : ℕ) (u : PlayerId) (mode : ℕ) (level : ℤ) (m : Moment)
      → Keeps P (complete_level_tx fuel u mode level m)

module _ {P : Tables → Type 0} (kept : Kept P) where
  ensure_mode-Kept : (u : PlayerId) (mode : ℕ) (t : Tables) → P t → P (ensure_mode u mode t)
  unfolding ensure_mode
  ensure_mode-Kept u mode t p = elim (Option-cases (lookup2 u mode t.mode_progress)) [
    | inl e ↦ rw (ensure_mode, e) (kept.modes _ t p)
    | inr (level, e) ↦ rw (ensure_mode, e) p
  ]

  ensure_mode_progress-Kept :
      (works : ℕ → Bool) (u : PlayerId) (modes : List ℕ) (t : Tables)
      → P t
      → P (ensure_mode_progress works u modes t).1
  unfolding ensure_mode_progress
  ensure_mode_progress-Kept works u [] t p = p
  ensure_mode_progress-Kept works u (mode ∷ modes) t p = elim (Bool-cases (works 0)) [
    | inl does ↦ rw does (
        ensure_mode_progress-Kept (λ n. works (suc n)) u modes (ensure_mode u mode t)
          (ensure_mode-Kept u mode t p))
    | inr fails ↦ rw fails p
  ]

  handle-Holds :
      (s : Surroundings) (request : Request) (r : PlayerRepository)
      → Holds P r
      → Holds P (handle (sequential s) request r)
  unfolding handle purchase redeem_invite claim_quest_reward trigger_quest_event
  handle-Holds s (Request.purchase u shop i nonce request) r h =
      flushed-Holds kept.statistics _ _ s u _ r
        (kept.purchase u shop i (operation_id u shop i nonce request) s.moment) h
  handle-Holds s (Request.redeem_invite code u) r h =
      flushed-Holds kept.statistics _ _ s u _ r (kept.redeem code u s.moment) h
  handle-Holds s (Request.claim_quest_reward u kind id) r h =
      flushed-Holds kept.statistics _ _ s u _ r (kept.claim u kind id s.moment) h
  handle-Holds s (Request.add_item_once u i n business key) r h =
      add_item_once-Holds kept.statistics s u i n business key r (kept.add_item u i n business key)
        h
  handle-Holds s (Request.trigger_quest_event u event prefix) r h =
      event_applied-Holds kept.statistics u r
        (transaction (event_tx u s.moment event prefix) s.works r.tables)
        (transaction-Committed s.works r.tables (kept.event u s.moment event prefix) h.tables) h
  handle-Holds s (Request.settle_game reason id winner loser delta) r h =
      settle_game-Holds kept.statistics s reason id winner loser delta r
        (kept.settle id winner loser delta s.moment) h
  handle-Holds s (Request.complete_level fuel u mode level stars) r h =
      complete_level-Holds kept.statistics fuel s u mode level stars r
        (kept.level fuel u mode level s.moment) h
  handle-Holds s (Request.ensure_mode_progress u modes) r h = record {
    tables = ensure_mode_progress-Kept s.works u modes r.tables h.tables;
    only = h.only;
  }
  handle-Holds s (Request.get_readonly u) r h =
      get_readonly-Holds kept.statistics (alone s.before) u r h
  handle-Holds s Request.flush_all r h = flush_all-Holds kept.statistics s.before r h
  handle-Holds s Request.tick_flush r h = tick_flush-Holds kept.statistics s.before r h

  pub run-Holds :
      (requests : List (Surroundings × Request)) (r : PlayerRepository)
      → Holds P r
      → Holds P (run requests r)
  unfolding run
  run-Holds [] r h = h
  run-Holds ((s, request) ∷ requests) r h =
      run-Holds requests (handle (sequential s) request r) (handle-Holds s request r h)
