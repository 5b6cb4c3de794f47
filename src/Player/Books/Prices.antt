-- ===== src/Player/Books/Prices.antt =====
-- Offers and payments of src/player/repository.rs: what they leave of the tables.
use fourinarow_server.Base.{
  ◌+ℤ◌, ◌-ℤ◌, ◌≤ℤ◌, ltb_ℤ, leb_ℤ, same_ℤ, -ℤ_parts, ℤ, int_laws, All, ◌==◌, Bool-cases,
  Option-cases, ℕ, ◌≡◌, refl, inl, inr, false, ◌&&◌, Option, none, some, List, [], ◌∷◌, arith, pos,
}
use fourinarow_server.Player.{ItemId, PlayerId, Key}
use fourinarow_server.Player.Tables.{
  Tables, LedgerRow, ShopItem, consume_inventory, consumed, set_inventory, has_entry, lookup2,
}
use fourinarow_server.Player.Tables.Progress.{find_item}
use mathlib.Core.Path.{subst}
use fourinarow_server.Player.Operations.{less_stock}

pub find_item-priced :
    (shop : ℕ) (i : ItemId) (rows : List ShopItem)
    → All (λ (r : ShopItem). pos 0 ≤ℤ r.price) rows
    → (offer : ShopItem) → find_item shop i rows ≡ some offer
    → pos 0 ≤ℤ offer.price
unfolding find_item
find_item-priced shop i [] h offer e = cc
find_item-priced shop i (r ∷ rows) h offer e =
    elim (Bool-cases ((r.shop_id == shop) && ((r.item_id == i) && r.enabled))) [
      | inl this ↦
          let here : some r ≡ some offer = (rw this at e) in
          let same : r ≡ offer = cc in subst (λ (o : ShopItem). pos 0 ≤ℤ o.price) same h.0
      | inr other ↦ find_item-priced shop i rows h.1 offer (rw other at e)
    ]

pub less_stock-priced :
    (shop : ℕ) (i : ItemId) (rows : List ShopItem)
    → All (λ (r : ShopItem). pos 0 ≤ℤ r.price) rows
    → All (λ (r : ShopItem). pos 0 ≤ℤ r.price) (less_stock shop i rows)
unfolding less_stock
less_stock-priced shop i [] h = tt
less_stock-priced shop i (r ∷ rows) h = elim (Option-cases r.stock) [
  | inl none_left ↦ rw (less_stock, none_left) (h.0, less_stock-priced shop i rows h.1)
  | inr (left, e) ↦
      rw (less_stock, e)
        (elim (Bool-cases ((r.shop_id == shop) && ((r.item_id == i) && ltb_ℤ (pos 0) left))) [
          | inl this ↦ rw this (h.0, less_stock-priced shop i rows h.1)
          | inr other ↦ rw other (h.0, less_stock-priced shop i rows h.1)
        ])
]

-- A payment leaves all but the inventory as it is.
pub consumed-apart :
    (u : PlayerId) (i : ItemId) (n : ℤ) (o : Option ℤ) (t : Tables)
    → ((consumed u i n o t).1.asset_ledger ≡ t.asset_ledger)
      × ((consumed u i n o t).1.idempotency ≡ t.idempotency)
      × ((consumed u i n o t).1.shop_items ≡ t.shop_items)
unfolding consumed set_inventory
consumed-apart u i n none t = (refl, refl, refl)
consumed-apart u i n (some m) t = elim (Bool-cases (leb_ℤ n m)) [
  | inl enough ↦ rw enough (refl, refl, refl)
  | inr short ↦ rw short (refl, refl, refl)
]

pub consume-apart :
    (u : PlayerId) (i : ItemId) (n : ℤ) (t : Tables)
    → ((consume_inventory u i n t).1.asset_ledger ≡ t.asset_ledger)
      × ((consume_inventory u i n t).1.idempotency ≡ t.idempotency)
      × ((consume_inventory u i n t).1.shop_items ≡ t.shop_items)
unfolding consume_inventory
consume-apart u i n t = consumed-apart u i n (lookup2 u i t.user_inventory) t

-- With a price that is not negative, the entry of the payment is not that of the item.
pub payment-ne_item :
    (key : Key) (i : ItemId) (price : ℤ) (r : LedgerRow) (rows : List LedgerRow)
    → pos 0 ≤ℤ price
    → r.delta ≡ pos 0 -ℤ price
    → has_entry key i (pos 1) rows ≡ false
    → has_entry key i (pos 1) (r ∷ rows) ≡ false
unfolding has_entry
payment-ne_item key i price r rows positive delta new =
    let other : same_ℤ r.delta (pos 1) ≡ false =
      rw delta (ground (arith, -ℤ_parts (pos 0) price)) in
    rw (other, new) (ground arith)

pub swap : (paid got : ℤ) → (pos 0 +ℤ paid) +ℤ got ≡ (pos 0 +ℤ got) +ℤ paid
swap paid got = omega int_laws
