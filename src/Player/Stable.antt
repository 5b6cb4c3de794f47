-- ===== src/Player/Stable.antt =====
-- What every request to src/player/repository.rs keeps of the tables: whatever each single statement
-- keeps.
pub mod Requests
use fourinarow_server.Base.{
  ◌-ℤ◌, ltb_ℤ, ℤ, Dict, lookup, Bool-cases, ℕ, ◌≡◌, refl, inl, inr, Bool, true, false, Option, none,
  some, List, [], ◌∷◌, pos,
}
use mathlib.Core.Path.{◌∙◌}
use fourinarow_server.Player.{
  ItemId, QuestId, AchievementId, PlayerId, Key, GameEvent, PlayerStats, game_played, game_won,
  level_completed, item_purchased, code_ℤ,
}
use fourinarow_server.Player.Tables.{
  Tables, UserRow, QuestRow, AchievementRow, InboxRow, InviteCode, QuestType, add_inventory,
  consume_inventory, insert_idempotency, insert_asset_ledger, has_key, has_entry, LedgerRow,
}
use fourinarow_server.Player.Transaction.{statement, update}
use fourinarow_server.Player.Transaction.Rules.{
  Keeps, Ensures-pure, Ensures-statement, Ensures-query, Ensures-update, Ensures-bind,
  Ensures-require, Ensures-require_quietly, Ensures-or_return, Ensures-or_rollback, Ensures-from,
  Ensures-fact,
}
use fourinarow_server.Player.Quests.{Moment, grant}
use fourinarow_server.Player.Achievements.{grant_once, tier_reward, apply_quest_event}
use fourinarow_server.Player.Events.{IsPositive, reward_tuple-IsPositive, apply_quest_event-Keeps}
use fourinarow_server.Player.Milestones.{check_progressive_achievements}
use fourinarow_server.Player.Milestones.Keeps.{check_progressive_achievements-Keeps}
use fourinarow_server.Player.Operations.{
  add_item_tx, purchase_tx, purchase_literal, purchase_quest_literal, less_stock, take_stock,
  redeem_tx, has_use, insert_use, count_use, grant_some, claim_tx,
}
use fourinarow_server.Player.Games.{
  settlement_literal, level_literal, settle_new, settle_tx, complete_level_tx,
}
use fourinarow_server.Player.Service.{event_tx}

-- What a reward and the progress of quests and achievements write.
pub record Rewarding (P : Tables → Type 0) : Type 0 where
  pub adding :
      (u : PlayerId) (i : ItemId) (n : ℤ) (t : Tables)
      → ltb_ℤ (pos 0) n ≡ true
      → P t
      → P (add_inventory u i n t)
  pub asset_ledger :
      (rows : List LedgerRow) (t : Tables) → P t → P (record t { asset_ledger = rows })
  pub new_key :
      (key : Key) (u : PlayerId) (t : Tables)
      → P t
      → P (record t { idempotency = (key, u) ∷ t.idempotency })
  pub quest_progress :
      (rows : List QuestRow) (t : Tables) → P t → P (record t { quest_progress = rows })
  pub achievement_progress :
      (rows : List AchievementRow) (t : Tables) → P t → P (record t { achievement_progress = rows })

pub record Stable (P : Tables → Type 0) : Type 0 where
  pub rewarding : Rewarding P
  pub users : (rows : Dict UserRow) (t : Tables) → P t → P (record t { users = rows })
  pub player_stats :
      (rows : Dict PlayerStats) (t : Tables) → P t → P (record t { player_stats = rows })
  pub consuming :
      (u : PlayerId) (i : ItemId) (n : ℤ) (t : Tables) → P t → P (consume_inventory u i n t).1
  pub selling :
      (shop : ℕ) (i : ItemId) (t : Tables)
      → P t
      → P (record t { shop_items = less_stock shop i t.shop_items })
  pub invite_code_uses :
      (rows : List (ℕ × PlayerId)) (t : Tables) → P t → P (record t { invite_code_uses = rows })
  pub using_code :
      (code : ℕ) (c : InviteCode) (t : Tables)
      → lookup code t.invite_codes ≡ some c
      → ltb_ℤ c.uses c.max_uses ≡ true
      → P t
      → P (count_use code t)
  pub mode_progress :
      (rows : Dict (Dict ℤ)) (t : Tables) → P t → P (record t { mode_progress = rows })
  pub progressive_steps :
      (rows : Dict (Dict ℤ)) (t : Tables) → P t → P (record t { progressive_steps = rows })
  pub inbox : (rows : List InboxRow) (t : Tables) → P t → P (record t { inbox = rows })
  pub games : (rows : List (PlayerId × PlayerId)) (t : Tables) → P t → P (record t { games = rows })

module _ {P : Tables → Type 0} (rewarding : Rewarding P) where
  insert_idempotency-Stable :
      (u : PlayerId) (key : Key) (t : Tables) → P t → P (insert_idempotency u key t).1
  unfolding insert_idempotency
  insert_idempotency-Stable u key t p = elim (Bool-cases (has_key key t.idempotency)) [
    | inl used ↦ rw used p
    | inr new ↦ rw new (rewarding.new_key key u t p)
  ]

  insert_asset_ledger-Stable :
      (u : PlayerId) (i : ItemId) (n : ℤ) (business key : Key) (t : Tables)
      → P t
      → P (insert_asset_ledger u i n business key t)
  unfolding insert_asset_ledger
  insert_asset_ledger-Stable u i n business key t p =
      elim (Bool-cases (has_entry key i n t.asset_ledger)) [
        | inl there ↦ rw there p
        | inr new ↦ rw new (rewarding.asset_ledger _ t p)
      ]

module _ {R : Type 0} {P : Tables → Type 0} (rewarding : Rewarding P) where
  pub key-Stable :
      (u : PlayerId) (key : Key) → Keeps {R = R} P (statement (insert_idempotency u key))
  key-Stable u key = Ensures-statement _ (insert_idempotency-Stable rewarding u key)

  pub ledger-Stable :
      (u : PlayerId) (i : ItemId) (n : ℤ) (business key : Key)
      → Keeps {R = R} P (update (insert_asset_ledger u i n business key))
  ledger-Stable u i n business key =
      Ensures-update _ (insert_asset_ledger-Stable rewarding u i n business key)

  pub grant-Stable :
      (u : PlayerId) (i : ItemId) (n : ℤ) (business key : Key)
      → ltb_ℤ (pos 0) n ≡ true
      → Keeps {R = R} P (grant u i n business key)
  unfolding grant
  grant-Stable u i n business key positive =
      Ensures-bind (Ensures-update {Q = λ _. P} _ (λ t p. rewarding.adding u i n t positive p))
        (λ _. ledger-Stable u i n business key)

  grant_once-Stable :
      (u : PlayerId) (i : ItemId) (n : ℤ) (business key : Key) (new : Bool)
      → ltb_ℤ (pos 0) n ≡ true
      → Keeps {R = R} P (grant_once u i n business key new)
  unfolding grant_once
  grant_once-Stable u i n business key false positive = Ensures-pure _ (λ t p. p)
  grant_once-Stable u i n business key true positive =
      Ensures-bind (grant-Stable u i n business key positive) (λ _. Ensures-pure _ (λ t p. p))

  tier_reward-Stable :
      (u : PlayerId) (prefix : Key) (a : AchievementId) (tier : ℤ) (reward : Option (ItemId × ℤ))
      → IsPositive reward
      → Keeps {R = R} P (tier_reward u prefix a tier reward)
  unfolding tier_reward
  tier_reward-Stable u prefix a tier none positive = Ensures-pure _ (λ t p. p)
  tier_reward-Stable u prefix a tier (some (i, n)) positive =
      Ensures-bind (key-Stable u _) (λ new. grant_once-Stable u i n _ _ new positive)

  pub grant_some-Stable :
      (u : PlayerId) (business key : Key) (reward : Option (ItemId × ℤ))
      → IsPositive reward
      → Keeps {R = R} P (grant_some u business key reward)
  unfolding grant_some
  grant_some-Stable u business key none positive = Ensures-pure _ (λ t p. p)
  grant_some-Stable u business key (some (i, n)) positive = grant-Stable u i n business key positive

  pub event-Stable :
      (u : PlayerId) (m : Moment) (event : GameEvent) (prefix : Key)
      → Keeps {R = R} P (apply_quest_event u m event prefix)
  event-Stable =
      apply_quest_event-Keeps rewarding.achievement_progress tier_reward-Stable
        rewarding.quest_progress

pub event_tx-Rewarding :
    {P : Tables → Type 0}
    → Rewarding P
    → (u : PlayerId) (m : Moment) (event : GameEvent) (prefix : Key)
    → Keeps P (event_tx u m event prefix)
unfolding event_tx
event_tx-Rewarding rewarding u m event prefix =
    Ensures-bind (event-Stable rewarding u m event prefix) (λ _. Ensures-pure _ (λ t p. p))

module _ {R : Type 0} {P : Tables → Type 0} (stable : Stable P) where
  pub take_stock-Stable :
      (shop : ℕ) (i : ItemId) (stock : Option ℤ) → Keeps {R = R} P (take_stock shop i stock)
  unfolding take_stock
  take_stock-Stable shop i none = Ensures-pure _ (λ t p. p)
  take_stock-Stable shop i (some left) = Ensures-update _ (λ t p. stable.selling shop i t p)

  pub milestones-Stable :
      (fuel : ℕ) (u : PlayerId) (mode : ℕ) (level : ℤ)
      → Keeps {R = R} P (check_progressive_achievements fuel u mode level)
  milestones-Stable fuel u mode level =
      check_progressive_achievements-Keeps stable.inbox stable.progressive_steps fuel u mode level
