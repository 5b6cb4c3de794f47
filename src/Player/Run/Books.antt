-- ===== src/Player/Run/Books.antt =====
-- The books through any sequence of requests to src/player/repository.rs.
use fourinarow_server.Base.{◌+ℤ◌, ◌-ℤ◌, ◌≤ℤ◌, ℤ, int_laws, All, ℕ, ◌≡◌, true, List, pos}
use fourinarow_server.Player.{ItemId, PlayerId}
use fourinarow_server.Player.Tables.{LedgerRow, ShopItem, has_key}
use fourinarow_server.Player.Repository.{PlayerRepository}
use fourinarow_server.Player.Service.{Surroundings}
use fourinarow_server.Player.Books.{Books, held, booked}
use fourinarow_server.Player.Books.Requests.{add_item_tx-Books}
use fourinarow_server.Player.Books.Shop.{purchase_tx-Books}
use fourinarow_server.Player.Books.Rewards.{
  redeem_tx-Books, claim_tx-Books, event_tx-Books, settle_tx-Books, complete_level_tx-Books,
}
use fourinarow_server.Player.Run.{Request, run}
use fourinarow_server.Player.Run.Cache.{OnlyStatsDirty}
use fourinarow_server.Player.Run.Flush.{Holds}
use fourinarow_server.Player.Run.Requests.Sequence.{run-Holds}
use fourinarow_server.Player.Run.Requests.Sequence.{Kept}

Kept-Books : (w j : ℕ) (base : ℤ) → Kept (Books w j base (pos 0))
Kept-Books w j base = record {
  statistics = λ rows t b. record { keyed = b.keyed; even = b.even; priced = b.priced };
  modes = λ rows t b. record { keyed = b.keyed; even = b.even; priced = b.priced };
  purchase = purchase_tx-Books;
  redeem = redeem_tx-Books w j base;
  claim = claim_tx-Books w j base;
  add_item = λ u i n business key _. add_item_tx-Books u i n business key;
  event = event_tx-Books w j base;
  settle = settle_tx-Books w j base;
  level = complete_level_tx-Books w j base;
}

difference : (a b x : ℤ) → a ≡ (x +ℤ b) +ℤ pos 0 → a -ℤ b ≡ x
difference a b x e = rw e (omega int_laws)

remainder : (a b : ℤ) → a ≡ ((a -ℤ b) +ℤ b) +ℤ pos 0
remainder a b = omega int_laws

-- Let only statistics be unsaved in the cache, let each entry of the ledger have a key that was used,
-- and let no price be negative. Then after any requests, one after another, with any failures of the
-- database in between, what a player holds of an item has changed by the sum of the new entries of the
-- ledger about that player and item.
pub run-booked :
    (requests : List (Surroundings × Request)) (r : PlayerRepository) (w : PlayerId) (j : ItemId)
    → OnlyStatsDirty r.cache
    → All
        (λ (row : LedgerRow). has_key row.idempotency_key r.tables.idempotency ≡ true)
        r.tables.asset_ledger
    → All (λ (row : ShopItem). pos 0 ≤ℤ row.price) r.tables.shop_items
    → held w j (run requests r).tables -ℤ booked w j (run requests r).tables.asset_ledger
      ≡ held w j r.tables -ℤ booked w j r.tables.asset_ledger
run-booked requests r w j only keyed priced =
    let base : ℤ = held w j r.tables -ℤ booked w j r.tables.asset_ledger in
    let start : Holds (Books w j base (pos 0)) r = record {
      tables = record {
        keyed = keyed;
        even = remainder (held w j r.tables) (booked w j r.tables.asset_ledger);
        priced = priced;
      };
      only = only;
    } in
    difference (held w j (run requests r).tables) (booked w j (run requests r).tables.asset_ledger)
      base (run-Holds (Kept-Books w j base) requests r start).tables.even
