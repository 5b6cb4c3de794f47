-- ===== src/Player/Service.antt =====
-- What src/player/repository.rs offers to the requests: the transactions with the cache around them.
pub mod Results
use fourinarow_server.Base.{
  leb_ℤ, ℤ, remove, if◌then◌else◌, ℕ, ◌⊎◌, inl, inr, Bool, false, ◌&&◌, Option, none, some, pos,
}
use fourinarow_server.Player.{ItemId, QuestId, PlayerId, Text, Key, GameEvent}
use fourinarow_server.Player.Tables.{Tables, QuestType}
use fourinarow_server.Player.Transaction.{
  Tx, Finished, committed, returned, aborted, transaction, pure, ◌>>=◌,
}
use fourinarow_server.Player.Quests.{Moment}
use fourinarow_server.Player.Achievements.{apply_quest_event}
use fourinarow_server.Player.Cache.Rows.{LoadError}
use fourinarow_server.Player.Repository.{PlayerRepository, Environment, flush_player}
use fourinarow_server.Player.Repository.Loads.{reload_player_after_sync_write, bump_stats}
use fourinarow_server.Player.Operations.{
  add_item_tx, PurchaseError, Completed, operation_id, purchase_tx, RedeemError, redeem_tx,
  QuestClaimError, claim_tx,
}
use fourinarow_server.Player.Games.{
  SettlementError, SettlementOutcome, settle_tx, CompleteLevelError, invalid_stars,
  CompleteLevelOutcome, complete_level_tx,
}

-- What happens around a request: the flush before it, the statements of its transaction, and the
-- loads after it.
pub record Surroundings : Type 0 where
  pub before : Environment
  pub works : ℕ → Bool
  pub after : Environment
  pub moment : Moment

-- The end of a request whose transaction is followed by a reload of the player's entry.
unfoldable pub reloaded :
    {E A : Type 0}
    → E
    → Environment
    → PlayerId
    → PlayerRepository
    → Finished (E ⊎ A) A
    → (E ⊎ A) × PlayerRepository
unfolding reload_player_after_sync_write
reloaded db after u r (committed a t) =
    (inr a, reload_player_after_sync_write after u (record r { tables = t }))
reloaded db after u r (returned x) = (x, r)
reloaded db after u r aborted = (inl db, r)

-- A request that is given up if the cache cannot be flushed.
unfoldable pub flushed :
    {E A : Type 0}
    → E
    → E
    → Surroundings
    → PlayerId
    → Tx (E ⊎ A) A
    → PlayerRepository
    → (E ⊎ A) × PlayerRepository
unfolding reloaded flush_player transaction
flushed cache_flush db s u body r =
    let (fine, r') = flush_player s.before u r in
    if fine
    then reloaded db s.after u r' (transaction body s.works r'.tables)
    else (inl cache_flush, r')

unfoldable pub purchase :
    Surroundings
    → PlayerId
    → ℕ
    → ItemId
    → ℕ
    → Option ℕ
    → PlayerRepository
    → (PurchaseError ⊎ Completed) × PlayerRepository
unfolding flushed purchase_tx operation_id
purchase s u shop i nonce request =
    flushed PurchaseError.cache_flush PurchaseError.db s u
      (purchase_tx u shop i (operation_id u shop i nonce request) s.moment)

unfoldable pub redeem_invite :
    Surroundings
    → ℕ
    → PlayerId
    → PlayerRepository
    → (RedeemError ⊎ Option (ItemId × ℤ)) × PlayerRepository
unfolding flushed redeem_tx
redeem_invite s code u =
    flushed RedeemError.cache_flush RedeemError.db s u (redeem_tx code u s.moment)

unfoldable pub claim_quest_reward :
    Surroundings
    → PlayerId
    → QuestType
    → QuestId
    → PlayerRepository
    → (QuestClaimError ⊎ Option (ItemId × ℤ)) × PlayerRepository
unfolding flushed claim_tx
claim_quest_reward s u kind id =
    flushed QuestClaimError.cache_flush QuestClaimError.db s u (claim_tx u kind id s.moment)

-- The answer of `add_item_once`, or nothing if it is an error.
unfoldable pub item_added :
    Surroundings → PlayerId → PlayerRepository → Finished Bool Bool → Option Bool × PlayerRepository
unfolding reload_player_after_sync_write
item_added s u r (committed b t) =
    (some b, reload_player_after_sync_write s.after u (record r { tables = t }))
item_added s u r (returned b) = (some b, r)
item_added s u r aborted = (none, r)

unfoldable pub add_item_once :
    Surroundings
    → PlayerId
    → ItemId
    → ℤ
    → Key
    → Key
    → PlayerRepository
    → Option Bool × PlayerRepository
unfolding item_added add_item_tx flush_player transaction
add_item_once s u i qty business key r =
    let (fine, r') = flush_player s.before u r in
    if leb_ℤ qty (pos 0)
    then (some false, r)
    else if fine
    then item_added s u r' (transaction (add_item_tx u i qty business key) s.works r'.tables)
    else (none, r')

unfoldable pub forget : PlayerId → Tables → PlayerRepository → PlayerRepository
forget u t r = record r { tables = t; cache = remove u r.cache }

unfoldable pub event_applied :
    PlayerId → PlayerRepository → Finished Completed Completed → Option Completed × PlayerRepository
unfolding forget
event_applied u r (committed a t) = (some a, forget u t r)
event_applied u r (returned a) = (some a, r)
event_applied u r aborted = (none, r)

unfoldable pub event_tx : PlayerId → Moment → GameEvent → Key → Tx Completed Completed
unfolding apply_quest_event
event_tx u m event prefix = do
  (rewards, unlocked, completed) ← apply_quest_event u m event prefix
  pure completed

unfoldable pub trigger_quest_event :
    Surroundings
    → PlayerId
    → GameEvent
    → Key
    → PlayerRepository
    → Option Completed × PlayerRepository
unfolding event_applied event_tx transaction
trigger_quest_event s u event prefix r =
    event_applied u r (transaction (event_tx u s.moment event prefix) s.works r.tables)
