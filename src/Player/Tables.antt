-- ===== src/Player/Tables.antt =====
-- The tables that src/player/repository.rs reads and writes, and its statements on them. The order of
-- the rows of `quests` is that of their sort_order.
pub mod Progress
use fourinarow_server.Base.{
  ◌+ℤ◌, ◌-ℤ◌, leb_ℤ, same_ℤ, ℤ, same_list, Dict, lookup, insert, lookup-insert, ◌==◌, if◌then◌else◌,
  Bool-cases, ℕ, ◌≡◌, refl, inl, inr, Bool, true, false, ◌&&◌, ◌||◌, Option, none, some, List, [],
  ◌∷◌, arith,
}
use fourinarow_server.Player.{
  ItemId, QuestId, AchievementId, PlayerId, Day, Instant, Text, Key, GameEvent, PlayerStats,
}

pub record UserRow : Type 0 where
  pub username : Text
  pub email : Option Text
  pub skill_rating : ℤ
  pub deleted_at : Option Instant

pub record LedgerRow : Type 0 where
  pub user_id : PlayerId
  pub item_id : ItemId
  pub delta : ℤ
  pub idempotency_key : Key
  pub business_id : Key

pub record ShopItem : Type 0 where
  pub shop_id : ℕ
  pub item_id : ItemId
  pub price_item_id : ItemId
  pub price : ℤ
  pub stock : Option ℤ
  pub enabled : Bool

pub record InviteCode : Type 0 where
  pub max_uses : ℤ
  pub uses : ℤ
  pub reward_item_id : Option ItemId
  pub reward_quantity : ℤ
  pub expires_at : Option Instant

pub data QuestType : Type 0 where
  story daily : QuestType

pub record Quest : Type 0 where
  pub id : QuestId
  pub quest_type : QuestType
  pub condition_type : GameEvent
  pub condition_value : ℤ
  pub reward_item_id : Option ItemId
  pub reward_quantity : ℤ
  pub next_quest_id : Option QuestId

pub record QuestRow : Type 0 where
  pub user_id : PlayerId
  pub quest_id : QuestId
  pub current_value : ℤ
  pub completed_at : Option Instant
  pub rewarded : Bool
  pub quest_date : Option Day

pub record AchievementTier : Type 0 where
  pub achievement_id : AchievementId
  pub tier : ℤ
  pub condition_value : ℤ
  pub reward_item_id : Option ItemId
  pub reward_quantity : ℤ

pub record AchievementRow : Type 0 where
  pub user_id : PlayerId
  pub achievement_id : AchievementId
  pub current_tier : ℤ
  pub current_value : ℤ

-- `ProgressiveRewardConfig`, and a row of `achievement_progressive` with its rewards as read from
-- the JSON, none if they cannot be read.
pub record RewardConfig : Type 0 where
  pub item_id : ItemId
  pub count : ℤ
  pub coefficient : ℤ

pub record Progressive : Type 0 where
  pub id : AchievementId
  pub name : Text
  pub mode : ℕ
  pub init : ℤ
  pub gap : ℤ
  pub rewards : List RewardConfig

pub record InboxRow : Type 0 where
  pub id : ℕ
  pub user_id : PlayerId
  pub name : Text
  pub threshold : ℤ
  pub reward_item_id : ItemId
  pub reward_qty : ℤ

pub record Tables : Type 0 where
  pub users : Dict UserRow
  pub player_stats : Dict PlayerStats
  pub user_inventory : Dict (Dict ℤ)
  pub asset_ledger : List LedgerRow
  pub idempotency : List (Key × PlayerId)
  pub shop_items : List ShopItem
  pub invite_codes : Dict InviteCode
  pub invite_code_uses : List (ℕ × PlayerId)
  pub quests : List Quest
  pub quest_progress : List QuestRow
  pub achievement_tiers : List AchievementTier
  pub achievement_progress : List AchievementRow
  pub mode_progress : Dict (Dict ℤ)
  pub progressive : List Progressive
  pub progressive_steps : Dict (Dict ℤ)
  pub inbox : List InboxRow
  pub games : List (PlayerId × PlayerId)

-- A table with the key of two columns.
module _ {V : Type 0} where
  unfoldable pub inner : Option (Dict V) → Dict V
  inner none = []
  inner (some m) = m

  unfoldable pub lookup2 : ℕ → ℕ → Dict (Dict V) → Option V
  unfolding inner
  lookup2 u i m = lookup i (inner (lookup u m))

  unfoldable pub insert2 : ℕ → ℕ → V → Dict (Dict V) → Dict (Dict V)
  unfolding inner
  insert2 u i v m = insert u (insert i v (inner (lookup u m))) m

  pub lookup2-insert2 :
      (u i w j : ℕ) (v : V) (m : Dict (Dict V))
      → lookup2 w j (insert2 u i v m) ≡ (if (u == w) && (i == j) then some v else lookup2 w j m)
  unfolding lookup2 insert2
  lookup2-insert2 u i w j v m = elim (Bool-cases (u == w)) [
    | inl same ↦
        let here : u ≡ w = ground arith in
        rw (lookup2, insert2, lookup-insert w u, same, inner, lookup-insert j i, here) refl
    | inr other ↦ rw (lookup2, insert2, lookup-insert w u, other) refl
  ]

-- `add_inventory_in_tx`.
unfoldable pub added : ℤ → Option ℤ → ℤ
added qty none = qty
added qty (some quantity) = quantity +ℤ qty

unfoldable pub add_inventory : PlayerId → ItemId → ℤ → Tables → Tables
unfolding added lookup2 insert2
add_inventory u i qty t = record t {
  user_inventory = insert2 u i (added qty (lookup2 u i t.user_inventory)) t.user_inventory;
}

-- `set_inventory_quantity_in_tx`.
unfoldable pub set_inventory : PlayerId → ItemId → ℤ → Tables → Tables
unfolding insert2
set_inventory u i qty t = record t { user_inventory = insert2 u i qty t.user_inventory }

-- `consume_inventory_in_tx`: whether a row was changed.
unfoldable pub consumed : PlayerId → ItemId → ℤ → Option ℤ → Tables → Bool × Tables
unfolding set_inventory
consumed u i qty none t = (false, t)
consumed u i qty (some quantity) t =
    if leb_ℤ qty quantity then (true, set_inventory u i (quantity -ℤ qty) t) else (false, t)

unfoldable pub consume_inventory : PlayerId → ItemId → ℤ → Tables → Bool × Tables
unfolding consumed lookup2
consume_inventory u i qty t = consumed u i qty (lookup2 u i t.user_inventory) t

unfoldable pub has_key : Key → List (Key × PlayerId) → Bool
has_key key [] = false
has_key key ((k, u) ∷ rows) = same_list k key || has_key key rows

-- `insert_idempotency`: whether the key is new.
unfoldable pub insert_idempotency : PlayerId → Key → Tables → Bool × Tables
unfolding has_key
insert_idempotency u key t =
    if has_key key t.idempotency
    then (false, t)
    else (true, record t { idempotency = (key, u) ∷ t.idempotency })

unfoldable pub has_entry : Key → ItemId → ℤ → List LedgerRow → Bool
has_entry key i delta [] = false
has_entry key i delta (r ∷ rows) =
    (same_list r.idempotency_key key && ((r.item_id == i) && same_ℤ r.delta delta))
    || has_entry key i delta rows

-- `insert_asset_ledger`: nothing happens if the key has an entry of the same item and change.
unfoldable pub insert_asset_ledger : PlayerId → ItemId → ℤ → Key → Key → Tables → Tables
unfolding has_entry
insert_asset_ledger u i delta business key t =
    if has_entry key i delta t.asset_ledger then t else record t {
      asset_ledger =
          record {
            user_id = u;
            item_id = i;
            delta = delta;
            idempotency_key = key;
            business_id = business;
          }
          ∷ t.asset_ledger;
    }
