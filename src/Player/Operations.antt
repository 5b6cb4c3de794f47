-- ===== src/Player/Operations.antt =====
-- The transactions of src/player/repository.rs that change what a player owns: purchases, invitations,
-- rewards of quests and items given once.
use fourinarow_server.Base.{
  ◌+ℤ◌, ◌-ℤ◌, ltb_ℤ, ℤ, lookup, insert, leb, ◌==◌, if◌then◌else◌, is_some, ℕ, ◌⊎◌, inl, Bool, true,
  false, not, ◌&&◌, ◌||◌, Option, none, some, List, [], ◌∷◌, pos,
}
use fourinarow_server.Player.{ItemId, QuestId, PlayerId, Day, Key, item_purchased}
use fourinarow_server.Player.Tables.{
  Tables, ShopItem, Quest, QuestType, story, daily, QuestRow, add_inventory, consume_inventory,
  insert_idempotency, insert_asset_ledger,
}
use fourinarow_server.Player.Tables.Progress.{find_progress, update_progress, find_item}
use fourinarow_server.Player.Transaction.{
  Tx, pure, statement, query, update, ◌>>=◌, ◌>>◌, require, require_quietly, or_return,
}
use fourinarow_server.Player.Quests.{Moment, reward_tuple, grant, same_type}
use fourinarow_server.Player.Achievements.{apply_quest_event}

-- The literal parts of the keys; that of achievements is with them.
abbrev pub purchase_literal : ℕ
purchase_literal = 2

abbrev pub purchase_quest_literal : ℕ
purchase_quest_literal = 3

abbrev pub invite_literal : ℕ
invite_literal = 4

abbrev story_literal : ℕ
story_literal = 5

abbrev daily_literal : ℕ
daily_literal = 6

-- `add_item_once` from `begin` to `commit`.
unfoldable pub add_item_tx : PlayerId → ItemId → ℤ → Key → Key → Tx Bool Bool
unfolding insert_idempotency grant require
add_item_tx u i qty business key = do
  inserted ← statement (insert_idempotency u key)
  require inserted false
  grant u i qty business key
  pure true

pub data PurchaseError : Type 0 where
  item_not_found not_enough_items already_applied cache_flush db : PurchaseError

abbrev pub Completed : Type 0
Completed = List (QuestId × QuestType)

-- The id of the operation: that of the request, or one with a random part.
unfoldable pub operation_id : PlayerId → ℕ → ItemId → ℕ → Option ℕ → Key
operation_id u shop i nonce none = u ∷ shop ∷ i ∷ nonce ∷ []
operation_id u shop i nonce (some request) = request ∷ []

unfoldable pub in_stock : Option ℤ → Bool
in_stock none = true
in_stock (some left) = ltb_ℤ (pos 0) left

unfoldable pub less_stock : ℕ → ItemId → List ShopItem → List ShopItem
less_stock shop i [] = []
less_stock shop i (r ∷ rows) =
    let rest = less_stock shop i rows in
    elim r.stock [
      | none ↦ r ∷ rest
      | some left ↦
          (if (r.shop_id == shop) && ((r.item_id == i) && ltb_ℤ (pos 0) left)
            then record r { stock = some (left -ℤ pos 1) } ∷ rest
            else r ∷ rest)
    ]

unfoldable pub take_stock : {R : Type 0} → ℕ → ItemId → Option ℤ → Tx R (Unit {0})
unfolding less_stock
take_stock shop i none = pure tt
take_stock shop i (some left) =
    update (λ t. record t { shop_items = less_stock shop i t.shop_items })

unfoldable pub purchase_tx :
    PlayerId → ℕ → ItemId → Key → Moment → Tx (PurchaseError ⊎ Completed) Completed
unfolding insert_idempotency require or_return find_item in_stock consume_inventory add_inventory
    insert_asset_ledger take_stock apply_quest_event
purchase_tx u shop i operation m = do
  let key = purchase_literal ∷ u ∷ operation
  let business = shop ∷ i ∷ []
  inserted ← statement (insert_idempotency u key)
  require inserted (inl already_applied)
  row ← query (λ t. find_item shop i t.shop_items)
  offer ← or_return row (inl item_not_found)
  require (in_stock offer.stock) (inl not_enough_items)
  paid ← statement (consume_inventory u offer.price_item_id offer.price)
  require paid (inl not_enough_items)
  update (add_inventory u i (pos 1))
  update (insert_asset_ledger u offer.price_item_id (pos 0 -ℤ offer.price) business key)
  update (insert_asset_ledger u i (pos 1) business key)
  take_stock shop i offer.stock
  (rewards, unlocked, completed) ←
      apply_quest_event u m item_purchased (purchase_quest_literal ∷ shop ∷ i ∷ [])
  pure completed

pub data RedeemError : Type 0 where
  invalid_code expired max_uses_reached already_used cache_flush db : RedeemError

not_expired : Moment → Option ℕ → Bool
not_expired m none = true
not_expired m (some at) = leb m.now at

pub has_use : ℕ → PlayerId → List (ℕ × PlayerId) → Bool
has_use code u [] = false
has_use code u ((c, v) ∷ rows) = ((c == code) && (v == u)) || has_use code u rows

-- `INSERT INTO invite_code_uses`, whose rows are unique.
unfoldable pub insert_use : ℕ → PlayerId → Tables → Bool × Tables
unfolding has_use
insert_use code u t =
    if has_use code u t.invite_code_uses
    then (false, t)
    else (true, record t { invite_code_uses = (code, u) ∷ t.invite_code_uses })

unfoldable pub count_use : ℕ → Tables → Tables
count_use code t = elim (lookup code t.invite_codes) [
  | none ↦ t
  | some c ↦ record t {
    invite_codes = insert code (record c { uses = c.uses +ℤ pos 1 }) t.invite_codes;
  }
]

unfoldable pub grant_some :
    {R : Type 0} → PlayerId → Key → Key → Option (ItemId × ℤ) → Tx R (Unit {0})
unfolding grant
grant_some u business key none = pure tt
grant_some u business key (some (i, qty)) = grant u i qty business key

unfoldable pub redeem_tx :
    ℕ → PlayerId → Moment → Tx (RedeemError ⊎ Option (ItemId × ℤ)) (Option (ItemId × ℤ))
unfolding insert_idempotency require_quietly or_return not_expired insert_use count_use grant_some
    reward_tuple
redeem_tx code u m = do
  let key = invite_literal ∷ code ∷ u ∷ []
  let business = code ∷ u ∷ []
  row ← query (λ t. lookup code t.invite_codes)
  invite ← or_return row (inl invalid_code)
  require_quietly (not_expired m invite.expires_at) (inl expired)
  require_quietly (ltb_ℤ invite.uses invite.max_uses) (inl max_uses_reached)
  inserted ← statement (insert_idempotency u key)
  require_quietly inserted (inl already_used)
  used ← statement (insert_use code u)
  require_quietly used (inl RedeemError.db)
  update (count_use code)
  let reward = reward_tuple invite.reward_item_id invite.reward_quantity
  grant_some u business key reward
  pure reward

pub data QuestClaimError : Type 0 where
  not_found not_completed already_claimed cache_flush db : QuestClaimError

find_quest : QuestType → QuestId → List Quest → Option Quest
unfolding same_type
find_quest kind id [] = none
find_quest kind id (q ∷ quests) =
    let rest = find_quest kind id quests in
    if (q.id == id) && same_type q.quest_type kind then some q else rest

-- The row of progress with its quest.
joined : Option QuestRow → Option Quest → Option (QuestRow × Quest)
joined (some r) (some q) = some (r, q)
joined _ _ = none

abbrev pub day_of : QuestType → Moment → Option Day
day_of story m = none
day_of daily m = some m.today

abbrev pub quest_key : QuestType → PlayerId → QuestId → Moment → Key
quest_key story u id m = story_literal ∷ u ∷ id ∷ []
quest_key daily u id m = daily_literal ∷ u ∷ id ∷ m.today ∷ []

abbrev pub quest_business : QuestType → QuestId → Moment → Key
quest_business story id m = story_literal ∷ id ∷ []
quest_business daily id m = daily_literal ∷ id ∷ m.today ∷ []

unfoldable pub claim_tx :
    PlayerId
    → QuestType
    → QuestId
    → Moment
    → Tx (QuestClaimError ⊎ Option (ItemId × ℤ)) (Option (ItemId × ℤ))
unfolding insert_idempotency require_quietly or_return find_progress find_quest joined grant_some
    reward_tuple update_progress
claim_tx u kind id m = do
  let key = quest_key kind u id m
  row ← query (λ t.
      joined (find_progress u id (day_of kind m) t.quest_progress) (find_quest kind id t.quests))
  (progress, quest) ← or_return row (inl not_found)
  require_quietly (is_some progress.completed_at) (inl not_completed)
  require_quietly (not progress.rewarded) (inl already_claimed)
  inserted ← statement (insert_idempotency u key)
  require_quietly inserted (inl already_claimed)
  let reward = reward_tuple quest.reward_item_id quest.reward_quantity
  grant_some u (quest_business kind id m) key reward
  update (λ t. record t {
    quest_progress =
        update_progress (λ r. record r { rewarded = true }) u id (day_of kind m) t.quest_progress;
  })
  pure reward
