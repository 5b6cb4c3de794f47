-- ===== src/Player/Books.antt =====
-- Items that players hold and the ledger, in src/player/repository.rs: what the statements on both do
-- to the difference.
pub mod Grants
pub mod Requests
pub mod Prices
pub mod Shop
pub mod Rewards
use fourinarow_server.Base.{
  ◌+ℤ◌, ◌-ℤ◌, ◌≤ℤ◌, leb_ℤ, ℤ, int_laws, All, Dict, ◌==◌, if◌then◌else◌, Bool-cases, ℕ, ◌≡◌, refl,
  inl, inr, true, false, ◌&&◌, Option, none, some, List, [], ◌∷◌, arith, pos,
}
use fourinarow_server.Player.{ItemId, PlayerId, Key}
use fourinarow_server.Player.Tables.{
  Tables, LedgerRow, ShopItem, lookup2, insert2, lookup2-insert2, added, add_inventory,
  set_inventory, consumed, consume_inventory, has_key, insert_idempotency, has_entry,
  insert_asset_ledger,
}

abbrev pub amount_of : Option ℤ → ℤ
amount_of none = pos 0
amount_of (some n) = n

-- How many of an item a player holds.
abbrev pub held : PlayerId → ItemId → Tables → ℤ
held w j t = amount_of (lookup2 w j t.user_inventory)

-- The part of a change that concerns one player and item.
abbrev pub share : PlayerId → ItemId → PlayerId → ItemId → ℤ → ℤ
share w j u i n = if (u == w) && (i == j) then n else pos 0

-- The sum of the changes in the ledger.
pub booked : PlayerId → ItemId → List LedgerRow → ℤ
booked w j [] = pos 0
booked w j (r ∷ rows) = share w j r.user_id r.item_id r.delta +ℤ booked w j rows

pub held-insert2 :
    (w j u i : ℕ) (n : ℤ) (m : Dict (Dict ℤ))
    → amount_of (lookup2 w j (insert2 u i n m))
      ≡ (if (u == w) && (i == j) then n else amount_of (lookup2 w j m))
held-insert2 w j u i n m = elim (Bool-cases ((u == w) && (i == j))) [
  | inl same ↦ rw (lookup2-insert2 u i w j n m, same) refl
  | inr other ↦ rw (lookup2-insert2 u i w j n m, other) refl
]

added-amount : (n : ℤ) (o : Option ℤ) → added n o ≡ amount_of o +ℤ n
unfolding added
added-amount n none = omega int_laws
added-amount n (some m) = refl

pub held-add_inventory :
    (w j u i : ℕ) (n : ℤ) (t : Tables)
    → held w j (add_inventory u i n t) ≡ held w j t +ℤ share w j u i n
unfolding add_inventory
held-add_inventory w j u i n t = elim (Bool-cases ((u == w) && (i == j))) [
  | inl same ↦
      let here : u ≡ w = ground arith in
      let it : i ≡ j = ground arith in
      rw
        (
          held-insert2 w j u i (added n (lookup2 u i t.user_inventory)) t.user_inventory,
          same,
          here,
          it,
        )
        (added-amount n (lookup2 w j t.user_inventory))
  | inr other ↦
      rw (held-insert2 w j u i (added n (lookup2 u i t.user_inventory)) t.user_inventory, other)
        (omega int_laws)
]

consumed-held :
    (w j u i : ℕ) (n : ℤ) (o : Option ℤ) (t : Tables)
    → lookup2 u i t.user_inventory ≡ o
    → (consumed u i n o t).0 ≡ true
    → held w j (consumed u i n o t).1 ≡ held w j t +ℤ share w j u i (pos 0 -ℤ n)
unfolding consumed set_inventory
consumed-held w j u i n none t e paid = cc
consumed-held w j u i n (some m) t e paid = elim (Bool-cases (leb_ℤ n m)) [
  | inr short ↦ let unpaid : false ≡ true = (rw short at paid) in cc
  | inl enough ↦
      rw (enough, held-insert2 w j u i (m -ℤ n) t.user_inventory)
        (elim (Bool-cases ((u == w) && (i == j))) [
          | inl same ↦
              let here : u ≡ w = ground arith in
              let it : i ≡ j = ground arith in
              let before : lookup2 w j t.user_inventory ≡ some m = rw (← here, ← it) e in
              rw (same, before) (omega int_laws)
          | inr other ↦ rw other (omega int_laws)
        ])
]

pub held-consume_inventory :
    (w j u i : ℕ) (n : ℤ) (t : Tables)
    → (consume_inventory u i n t).0 ≡ true
    → held w j (consume_inventory u i n t).1 ≡ held w j t +ℤ share w j u i (pos 0 -ℤ n)
unfolding consume_inventory
held-consume_inventory w j u i n t paid =
    consumed-held w j u i n (lookup2 u i t.user_inventory) t refl paid

-- What a player holds of an item is `base` and what the ledger says, up to `x` that is not booked yet.
-- Each entry's key is a used one, and no price is negative.
pub record Books (w j : ℕ) (base x : ℤ) (t : Tables) : Type 0 where
  pub keyed : All (λ (r : LedgerRow). has_key r.idempotency_key t.idempotency ≡ true) t.asset_ledger
  pub even : held w j t ≡ (base +ℤ booked w j t.asset_ledger) +ℤ x
  pub priced : All (λ (r : ShopItem). pos 0 ≤ℤ r.price) t.shop_items

-- The key was used just now: it has no entry in the ledger.
pub record Fresh (key : Key) (t : Tables) : Type 0 where
  pub used : has_key key t.idempotency ≡ true
  pub unposted : (i : ItemId) (n : ℤ) → has_entry key i n t.asset_ledger ≡ false
