-- ===== src/Tests/Player.antt =====
-- Requests to src/player/repository.rs.
use fourinarow_server.Base.{
  Each, ◌+ℤ◌, ◌-ℤ◌, ◌*ℤ◌, ◌≤ℤ◌, All, same_list, lookup, insert, ltb, ◌==◌, if◌then◌else◌, ℕ, suc,
  ◌≡◌, refl, ◌⊎◌, inr, true, false, ◌&&◌, none, some, List, [], ◌∷◌, arith, pos,
}
use fourinarow_server.Player.{PlayerId, DirtyBucket, stats}
use fourinarow_server.Player.Tables.{Tables, UserRow, Progressive, lookup2, insert2, inner}
use fourinarow_server.Player.Transaction.{
  Session, update, committed, returned, aborted, transaction,
}
use fourinarow_server.Player.Transaction.Rules.{After}
use fourinarow_server.Player.Quests.{Moment}
use fourinarow_server.Player.Milestones.{announce_steps}
use fourinarow_server.Player.Milestones.Ends.{Above, announce_steps-ends}
use fourinarow_server.Player.Repository.{PlayerRepository, Environment, flush_all, flush_player}
use fourinarow_server.Player.Operations.{purchase_tx}
use fourinarow_server.Player.Games.{
  CompleteLevelOutcome, nothing_settled, settle_new, settle_tx, complete_level_tx,
}
use fourinarow_server.Player.Service.{Surroundings, redeem_invite, purchase, flushed}
use fourinarow_server.Player.Service.Results.{settle_game}
use fourinarow_server.Player.Books.{held, booked}
use fourinarow_server.Player.Run.{Request, sequential, handle, run, alone}
use fourinarow_server.Player.Run.Cache.{OnlyStatsDirty}
use fourinarow_server.Player.Cache.{same_bucket, PlayerCacheEntry}
use fourinarow_server.Player.Run.Saved.{after_saving}
use fourinarow_server.Player.Run.Saved.Entry.{flush_player-entry}
use fourinarow_server.Player.Run.Books.{run-booked}
use fourinarow_server.Player.Run.Bounds.{InStock, WithinUses, run-InStock, run-WithinUses, run-held}
use fourinarow_server.Player.Run.Settlement.{settle-once}
use fourinarow_server.Player.Run.Ratings.{rating, change_for, settle-rating}
use fourinarow_server.Player.Run.Levels.{Next, complete_level-Next}
use fourinarow_server.Player.Run.Errors.{apart_from_stats, failed, handle-failed}

abbrev row : UserRow
row = record { username = 1; email = none; skill_rating = pos 1000; deleted_at = none }

-- Player 1 has 50 of item 9, which item 2 of shop 1 costs 30 of.
abbrev start : Tables
start = record {
  users = (1, row) ∷ (2, row) ∷ [];
  player_stats = [];
  user_inventory = (1, (9, pos 50) ∷ []) ∷ [];
  asset_ledger = [];
  idempotency = [];
  shop_items =
      record {
        shop_id = 1;
        item_id = 2;
        price_item_id = 9;
        price = pos 30;
        stock = some (pos 1);
        enabled = true;
      }
      ∷ [];
  invite_codes =
      (
        4,
        record {
          max_uses = pos 1;
          uses = pos 0;
          reward_item_id = some 9;
          reward_quantity = pos 5;
          expires_at = none;
        },
      )
      ∷ [];
  invite_code_uses = [];
  quests = [];
  quest_progress = [];
  achievement_tiers = [];
  achievement_progress = [];
  mode_progress = (1, (3, pos 6) ∷ []) ∷ [];
  progressive = [];
  progressive_steps = [];
  inbox = [];
  games = [];
}

abbrev repository : PlayerRepository
repository = record { tables = start; cache = []; flush_immediately = false }

abbrev moment : Moment
moment = record { now = 100; today = 1 }

abbrev quiet : Environment
quiet = record { now = 100; reads = λ n. true; saves = λ b. true; meanwhile = λ b cache. cache }

abbrev fine : Surroundings
fine = record { before = quiet; works = λ n. true; after = quiet; moment = moment }

-- A purchase, its repetition, an invitation, a settlement, and a flush.
abbrev requests : List (Surroundings × Request)
requests =
    (fine, Request.purchase 1 1 2 0 (some 77))
    ∷ (fine, Request.purchase 1 1 2 0 (some 77))
    ∷ (fine, Request.redeem_invite 4 1)
    ∷ (fine, Request.settle_game 5 8 1 2 (pos 10))
    ∷ (fine, Request.flush_all)
    ∷ []

-- The purchase is made once, and the invitation brings 5.
held_after :
    (held 1 9 (run requests repository).tables ≡ pos 25)
    × (held 1 2 (run requests repository).tables ≡ pos 1)
unfolding run handle lookup insert insert2 lookup2 update ◌-ℤ◌ ◌+ℤ◌ flush_all settle_game
    redeem_invite purchase same_list
held_after = (refl, refl)

run-booked_example :
    held 1 9 (run requests repository).tables
      -ℤ booked 1 9 (run requests repository).tables.asset_ledger
    ≡ held 1 9 repository.tables -ℤ booked 1 9 repository.tables.asset_ledger
run-booked_example = run-booked requests repository 1 9 tt tt (omega arith, tt)

run-InStock_example : All InStock (run requests repository).tables.shop_items
run-InStock_example = run-InStock requests repository tt (omega arith, tt)

run-WithinUses_example : Each WithinUses (run requests repository).tables.invite_codes
run-WithinUses_example = run-WithinUses requests repository tt (omega arith, tt)

run-held_example : pos 0 ≤ℤ held 1 9 (run requests repository).tables
unfolding lookup2 inner lookup
run-held_example = run-held requests repository tt 1 9 (omega arith)

abbrev after_game : Tables
after_game = record start {
  idempotency = (7 ∷ 8 ∷ [], 1) ∷ [];
  users =
      (2, record row { skill_rating = pos 990 }) ∷ (1, record row { skill_rating = pos 1010 }) ∷ [];
  games = (1, 2) ∷ [];
}

game_done :
    transaction (settle_tx 8 1 2 (pos 10) moment) (λ n. true) start
    ≡ committed nothing_settled after_game
unfolding transaction settle_tx settle_new lookup update insert ◌-ℤ◌ ◌+ℤ◌
game_done = refl

settle-once_example :
    (transaction
        (settle_tx 8 2 1 (pos 3) moment)
        (λ n. true)
        (run requests
          (record { tables = after_game; cache = []; flush_immediately = false })).tables
      ≡ returned (inr nothing_settled))
    ⊎ (transaction
          (settle_tx 8 2 1 (pos 3) moment)
          (λ n. true)
          (run requests
            (record { tables = after_game; cache = []; flush_immediately = false })).tables
        ≡ aborted)
settle-once_example =
    settle-once 8 1 2 (pos 10) moment (λ n. true) start nothing_settled
      (record { tables = after_game; cache = []; flush_immediately = false }) requests 2 1 (pos 3)
      moment (λ n. true) game_done tt

settle-rating_example :
    (after_game.games ≡ (1, 2) ∷ start.games)
    × ((v : PlayerId)
        → rating v after_game
          ≡ (rating v start +ℤ change_for v 1 (pos 10)) +ℤ change_for v 2 (pos 0 -ℤ pos 10))
settle-rating_example =
    settle-rating 8 1 2 (pos 10) moment (λ n. true) start after_game nothing_settled game_done

abbrev after_level : Tables
after_level = record start {
  idempotency = (8 ∷ 1 ∷ 3 ∷ 7 ∷ 0 ∷ [], 1) ∷ [];
  mode_progress = (1, (3, pos 7) ∷ []) ∷ [];
}

abbrev level_7 : CompleteLevelOutcome
level_7 = record {
  new_level = pos 7;
  rewards = [];
  achievements = [];
  milestones = [];
  completed_quests = [];
}

level_done :
    transaction (complete_level_tx 9 1 3 (pos 7) moment) (λ n. true) start
    ≡ committed level_7 after_level
unfolding transaction complete_level_tx lookup ◌+ℤ◌ update insert
level_done = refl

complete_level-Next_example :
    Next (pos 7) (lookup2 1 3 start.mode_progress)
    × ((v : PlayerId) (other : ℕ)
        → lookup2 v other after_level.mode_progress ≡ (
            if (1 == v) && (3 == other) then some (pos 7) else lookup2 v other start.mode_progress))
complete_level-Next_example =
    complete_level-Next 9 1 3 (pos 7) moment (λ n. true) start after_level level_7 level_done

-- The statistics of player 1 are to be saved.
abbrev cached : PlayerCacheEntry
cached = record {
  aggregate = record {
    profile = record { id = 1; username = 1; email = none };
    skill_rating = pos 1000;
    inventory = [];
    quests = [];
    achievements = [];
    stats = record { games_played = pos 3; games_won = pos 1; games_lost = pos 2; version = pos 0 };
    mode_progress = [];
  };
  dirty = λ b.
      (if same_bucket b stats
        then some (record { changed_at = 90; last_flush_at = 90; attempts = 0; reason = none })
        else none);
}

-- Player 1's statistics are unsaved.
abbrev unsaved : PlayerRepository
unsaved = record repository { cache = (1, cached) ∷ [] }

unsaved-OnlyStatsDirty : OnlyStatsDirty unsaved.cache
unsaved-OnlyStatsDirty = (λ b other. rw other refl, tt)

-- The database does two statements of a purchase and then fails.
abbrev failing : Surroundings
failing = record fine { works = λ n. ltb n 2 }

purchase_failed : failed (sequential failing) (Request.purchase 1 1 2 0 (some 77)) unsaved ≡ true
unfolding failed purchase flushed purchase_tx lookup
purchase_failed = refl

handle-failed_example :
    (apart_from_stats
        (handle (sequential failing) (Request.purchase 1 1 2 0 (some 77)) unsaved).tables
      ≡ apart_from_stats unsaved.tables)
    × OnlyStatsDirty
        (handle (sequential failing) (Request.purchase 1 1 2 0 (some 77)) unsaved).cache
handle-failed_example =
    handle-failed failing (Request.purchase 1 1 2 0 (some 77)) unsaved unsaved-OnlyStatsDirty
      purchase_failed

-- A step every 5 levels, the first at level 5.
abbrev every_5 : Progressive
every_5 = record {
  id = 1;
  name = 1;
  mode = 3;
  init = pos 1;
  gap = pos 5;
  rewards = record { item_id = 9; count = pos 2; coefficient = pos 1 } ∷ [];
}

abbrev session : Session
session = record { tables = start; works = λ n. true; count = 0 }

announce_steps-ends_example :
    After {R = Unit {0}}
      (λ result _. Above every_5 (pos 12) result)
      (announce_steps (suc 12) 1 every_5 (pos 12) (pos 0) session)
unfolding ◌+ℤ◌ ◌*ℤ◌
announce_steps-ends_example =
    announce_steps-ends (Unit {0}) 12 1 every_5 (pos 12) (pos 0) session (omega arith) (omega arith)
      (omega arith) (omega arith) refl (omega arith)

flush_player-entry_example :
    ((e' : PlayerCacheEntry) × (lookup 1
          (flush_player (alone quiet) 1 (record repository { cache = (1, cached) ∷ [] })).1.cache
        ≡ some e')
      × (e'.aggregate ≡ cached.aggregate)
      × ((b : DirtyBucket) → e'.dirty b ≡ after_saving quiet b (cached.dirty b)))
    × ((v : PlayerId)
        → (1 == v) ≡ false
        → lookup v
            (flush_player (alone quiet) 1 (record repository { cache = (1, cached) ∷ [] })).1.cache
          ≡ lookup v (record repository { cache = (1, cached) ∷ [] }).cache)
unfolding lookup
flush_player-entry_example =
    flush_player-entry quiet 1 (record repository { cache = (1, cached) ∷ [] }) cached refl
