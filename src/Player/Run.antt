-- ===== src/Player/Run.antt =====
-- Requests to the players' part, src/player/repository.rs, one after another.
pub mod Cache
pub mod Flush
pub mod Requests
pub mod Stable
pub mod Books
pub mod Bounds
pub mod Settlement
pub mod Ratings
pub mod Outcomes
pub mod Errors
pub mod Saved
pub mod Levels
use fourinarow_server.Base.{ℤ, ℕ, Option, List, [], ◌∷◌}
use fourinarow_server.Player.{ItemId, QuestId, PlayerId, Text, Key, GameEvent}
use fourinarow_server.Player.Tables.{QuestType}
use fourinarow_server.Player.Repository
use fourinarow_server.Player.Repository.Loads
use fourinarow_server.Player.Repository.{PlayerRepository, Environment}
use fourinarow_server.Player.Games
use fourinarow_server.Player.Service
use fourinarow_server.Player.Service.Results
use fourinarow_server.Player.Service.{Surroundings}

pub data Request : Type 0 where
  purchase : PlayerId → ℕ → ItemId → ℕ → Option ℕ → Request
  redeem_invite : ℕ → PlayerId → Request
  claim_quest_reward : PlayerId → QuestType → QuestId → Request
  add_item_once : PlayerId → ItemId → ℤ → Key → Key → Request
  trigger_quest_event : PlayerId → GameEvent → Key → Request
  settle_game : Text → ℕ → PlayerId → PlayerId → ℤ → Request
  complete_level : ℕ → PlayerId → ℕ → ℤ → ℤ → Request
  ensure_mode_progress : PlayerId → List ℕ → Request
  get_readonly : PlayerId → Request
  flush_all tick_flush : Request

-- Nothing else changes the cache while a bucket is saved.
abbrev pub alone : Environment → Environment
alone env = record env { meanwhile = λ b cache. cache }

abbrev pub sequential : Surroundings → Surroundings
sequential s = record s { before = alone s.before; after = alone s.after }

-- What a request leaves behind.
unfoldable pub handle : Surroundings → Request → PlayerRepository → PlayerRepository
handle s (Request.purchase u shop i nonce request) r =
    (Service.purchase s u shop i nonce request r).1
handle s (Request.redeem_invite code u) r = (Service.redeem_invite s code u r).1
handle s (Request.claim_quest_reward u kind id) r = (Service.claim_quest_reward s u kind id r).1
handle s (Request.add_item_once u i qty business key) r =
    (Service.add_item_once s u i qty business key r).1
handle s (Request.trigger_quest_event u event prefix) r =
    (Service.trigger_quest_event s u event prefix r).1
handle s (Request.settle_game reason id winner loser delta) r =
    (Results.settle_game s reason id winner loser delta r).1
handle s (Request.complete_level fuel u mode level stars) r =
    (Results.complete_level fuel s u mode level stars r).1
handle s (Request.ensure_mode_progress u modes) r = record r {
  tables = (Games.ensure_mode_progress s.works u modes r.tables).1;
}
handle s (Request.get_readonly u) r = (Loads.get_readonly s.before u r).1
handle s Request.flush_all r = (Repository.flush_all s.before r).1
handle s Request.tick_flush r = Repository.tick_flush s.before r

unfoldable pub run : List (Surroundings × Request) → PlayerRepository → PlayerRepository
run [] r = r
run ((s, request) ∷ requests) r = run requests (handle (sequential s) request r)
