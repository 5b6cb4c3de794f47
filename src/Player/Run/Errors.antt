-- ===== src/Player/Run/Errors.antt =====
-- Requests to src/player/repository.rs that are answered by an error.
use fourinarow_server.Base.{
  leb_ℤ, ℤ, Bool-cases, ℕ, ◌≡◌, refl, sym, inl, inr, Bool, true, false, ◌&&◌, [], pos,
}
use mathlib.Core.Path.{subst}
use fourinarow_server.Player.{ItemId, PlayerId, Text, Key}
use fourinarow_server.Player.Tables.{Tables}
use fourinarow_server.Player.Transaction.{transaction}
use fourinarow_server.Player.Operations.{
  add_item_tx, PurchaseError, operation_id, purchase_tx, RedeemError, redeem_tx, QuestClaimError,
  claim_tx,
}
use fourinarow_server.Player.Games.{settle_tx, complete_level_tx}
use fourinarow_server.Player.Repository.{PlayerRepository, Environment, flush_player}
use fourinarow_server.Player.Service
use fourinarow_server.Player.Service.Results
use fourinarow_server.Player.Service.{Surroundings, event_tx}
use fourinarow_server.Player.Run.Outcomes.{
  is_error, is_none, is_unsettled, flushed-Holds, item_added-error, event_applied-error,
  level_completed-error, settled-error,
}
use fourinarow_server.Player.Run.{Request, handle, alone, sequential}
use fourinarow_server.Player.Run.Cache.{OnlyStatsDirty}
use fourinarow_server.Player.Run.Flush.{Holds, flush_player-Holds}

-- All tables but that of the statistics.
abbrev pub apart_from_stats : Tables → Tables
apart_from_stats t = record t { player_stats = [] }

-- Whether a request of a player that writes is answered by an error, other than by the one of a
-- settlement that says that the cache could not be loaded after the commit.
unfoldable pub failed : Surroundings → Request → PlayerRepository → Bool
unfolding is_error is_unsettled is_none
failed s (Request.purchase u shop i nonce request) r =
    is_error (Service.purchase s u shop i nonce request r).0
failed s (Request.redeem_invite code u) r = is_error (Service.redeem_invite s code u r).0
failed s (Request.claim_quest_reward u kind id) r =
    is_error (Service.claim_quest_reward s u kind id r).0
failed s (Request.add_item_once u i qty business key) r =
    is_none (Service.add_item_once s u i qty business key r).0
failed s (Request.trigger_quest_event u event prefix) r =
    is_none (Service.trigger_quest_event s u event prefix r).0
failed s (Request.settle_game reason id winner loser delta) r =
    is_unsettled (Results.settle_game s reason id winner loser delta r).0
failed s (Request.complete_level fuel u mode level stars) r =
    is_error (Results.complete_level fuel s u mode level stars r).0
failed s _ r = false

-- The request left the repository with what a flush may do to it.
abbrev Unchanged : PlayerRepository → PlayerRepository → Type 0
Unchanged r r' = Holds (λ t. apart_from_stats t ≡ apart_from_stats r.tables) r'

flush_player-Unchanged :
    (env : Environment) (u : PlayerId) (r r' : PlayerRepository)
    → Unchanged r r'
    → Unchanged r (flush_player (alone env) u r').1
flush_player-Unchanged env u r r' h = flush_player-Holds (λ rows t p. p) env u r' h

add_item_once-error :
    (s : Surroundings) (u : PlayerId) (i : ItemId) (n : ℤ) (business key : Key)
    (r : PlayerRepository)
    → Unchanged r r
    → is_none (Service.add_item_once (sequential s) u i n business key r).0 ≡ true
    → Unchanged r (Service.add_item_once (sequential s) u i n business key r).1
unfolding Service.add_item_once
add_item_once-error s u i n business key r h error =
    let r' : PlayerRepository = (flush_player (alone s.before) u r).1 in
    let h' : Unchanged r r' = flush_player-Unchanged s.before u r r h in
    elim (Bool-cases (leb_ℤ n (pos 0))) [
      | inl nothing ↦ rw nothing h
      | inr some_n ↦ elim (Bool-cases (flush_player (alone s.before) u r).0) [
        | inl fine ↦
            rw (some_n, fine)
              (subst (Unchanged r)
                (sym (
                  item_added-error (sequential s) u r'
                    (transaction (add_item_tx u i n business key) s.works r'.tables)
                    (rw (some_n, fine) at error)))
                h')
        | inr unsaved ↦ rw (some_n, unsaved) h'
      ]
    ]

settle_game-error :
    (s : Surroundings) (reason : Text) (id : ℕ) (winner loser : PlayerId) (delta : ℤ)
    (r : PlayerRepository)
    → Unchanged r r
    → is_unsettled (Results.settle_game (sequential s) reason id winner loser delta r).0 ≡ true
    → Unchanged r (Results.settle_game (sequential s) reason id winner loser delta r).1
unfolding Results.settle_game
settle_game-error s reason id winner loser delta r h error =
    let r' : PlayerRepository = (flush_player (alone s.before) winner r).1 in
    let h' : Unchanged r r' = flush_player-Unchanged s.before winner r r h in
    let r'' : PlayerRepository = (flush_player (alone s.before) loser r').1 in
    let h'' : Unchanged r r'' = flush_player-Unchanged s.before loser r r' h' in
    elim (Bool-cases (flush_player (alone s.before) winner r).0) [
      | inr unsaved ↦ rw unsaved h'
      | inl first ↦ elim (Bool-cases (flush_player (alone s.before) loser r').0) [
        | inr unsaved ↦ rw (first, unsaved) h''
        | inl second ↦
            rw (first, second)
              (subst (Unchanged r)
                (sym (
                  settled-error (sequential s) reason winner loser r''
                    (transaction (settle_tx id winner loser delta s.moment) s.works r''.tables)
                    (rw (first, second) at error)))
                h'')
      ]
    ]

complete_level-error :
    (fuel : ℕ) (s : Surroundings) (u : PlayerId) (mode : ℕ) (level stars : ℤ) (r : PlayerRepository)
    → Unchanged r r
    → is_error (Results.complete_level fuel s u mode level stars r).0 ≡ true
    → Unchanged r (Results.complete_level fuel s u mode level stars r).1
unfolding Results.complete_level
complete_level-error fuel s u mode level stars r h error =
    elim (Bool-cases (leb_ℤ (pos 1) stars && leb_ℤ stars (pos 3))) [
      | inl valid ↦ rw valid (
          subst (Unchanged r)
            (sym (
              level_completed-error u r
                (transaction (complete_level_tx fuel u mode level s.moment) s.works r.tables)
                (rw valid at error)))
            h)
      | inr invalid ↦ rw invalid h
    ]

failed-Unchanged :
    (s : Surroundings) (request : Request) (r : PlayerRepository)
    → Unchanged r r
    → failed (sequential s) request r ≡ true
    → Unchanged r (handle (sequential s) request r)
unfolding failed handle Service.purchase Service.redeem_invite Service.claim_quest_reward
    Service.trigger_quest_event
failed-Unchanged s (Request.purchase u shop i nonce request) r h error =
    flushed-Holds PurchaseError.cache_flush PurchaseError.db (sequential s) u
      (purchase_tx u shop i (operation_id u shop i nonce request) s.moment) r
      (flush_player-Unchanged s.before u r r h) error
failed-Unchanged s (Request.redeem_invite code u) r h error =
    flushed-Holds RedeemError.cache_flush RedeemError.db (sequential s) u
      (redeem_tx code u s.moment) r (flush_player-Unchanged s.before u r r h) error
failed-Unchanged s (Request.claim_quest_reward u kind id) r h error =
    flushed-Holds QuestClaimError.cache_flush QuestClaimError.db (sequential s) u
      (claim_tx u kind id s.moment) r (flush_player-Unchanged s.before u r r h) error
failed-Unchanged s (Request.add_item_once u i qty business key) r h error =
    add_item_once-error s u i qty business key r h error
failed-Unchanged s (Request.trigger_quest_event u event prefix) r h error =
    subst (Unchanged r)
      (sym (
        event_applied-error u r (transaction (event_tx u s.moment event prefix) s.works r.tables)
          error))
      h
failed-Unchanged s (Request.settle_game reason id winner loser delta) r h error =
    settle_game-error s reason id winner loser delta r h error
failed-Unchanged s (Request.complete_level fuel u mode level stars) r h error =
    complete_level-error fuel (sequential s) u mode level stars r h error
failed-Unchanged s (Request.ensure_mode_progress u modes) r h error = cc
failed-Unchanged s (Request.get_readonly u) r h error = cc
failed-Unchanged s Request.flush_all r h error = cc
failed-Unchanged s Request.tick_flush r h error = cc

-- Let only statistics be unsaved in the cache, and let one of these requests be answered by an error: a
-- purchase, an invitation, the claim of a quest's reward, an item that is added, an event for the quests,
-- the settlement of a game or the end of a level; for a settlement, an error other than `CacheReload`.
-- Then no table has changed but that of the statistics, wherever in the request the database
-- failed or the request was refused, and still only statistics are unsaved.
pub handle-failed :
    (s : Surroundings) (request : Request) (r : PlayerRepository)
    → OnlyStatsDirty r.cache
    → failed (sequential s) request r ≡ true
    → (apart_from_stats (handle (sequential s) request r).tables ≡ apart_from_stats r.tables)
      × OnlyStatsDirty (handle (sequential s) request r).cache
handle-failed s request r only error =
    let held : Unchanged r (handle (sequential s) request r) =
      failed-Unchanged s request r (record { tables = refl; only = only }) error in
    (held.tables, held.only)
