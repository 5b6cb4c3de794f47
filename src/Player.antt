-- ===== src/Player.antt =====
-- src/player: the players' rows, the operations on them, and the cache in front of them. The data
-- types here are those of src/player/aggregate.rs and src/quests.rs. Ids of items, quests, modes and
-- the like, and texts, are numbers, since they are only compared and passed on.
pub mod Tables
pub mod Transaction
pub mod Quests
pub mod Achievements
pub mod Milestones
pub mod Cache
pub mod Repository
pub mod Operations
pub mod Games
pub mod Service
pub mod Events
pub mod Books
pub mod Stable
pub mod Run
use fourinarow_server.Base.{
  pos_part, neg_part, ℤ, Dict, ℕ, Bool, true, false, Option, List, [], ◌∷◌, pos,
}

abbrev pub ItemId : Type 0
ItemId = ℕ

abbrev pub QuestId : Type 0
QuestId = ℕ

abbrev pub AchievementId : Type 0
AchievementId = ℕ

abbrev pub PlayerId : Type 0
PlayerId = ℕ

abbrev pub Day : Type 0
Day = ℕ

abbrev pub Instant : Type 0
Instant = ℕ

abbrev pub Text : Type 0
Text = ℕ

-- A formatted text, as the list of its parts; the first part stands for the literal ones.
abbrev pub Key : Type 0
Key = List ℕ

-- An integer as a part of a text.
abbrev pub code_ℤ : ℤ → Key
code_ℤ n = pos_part n ∷ neg_part n ∷ []

pub data GameEvent : Type 0 where
  game_played game_won level_completed item_purchased invite_created : GameEvent

unfoldable pub same_event : GameEvent → GameEvent → Bool
same_event GameEvent.game_played GameEvent.game_played = true
same_event GameEvent.game_won GameEvent.game_won = true
same_event GameEvent.level_completed GameEvent.level_completed = true
same_event GameEvent.item_purchased GameEvent.item_purchased = true
same_event GameEvent.invite_created GameEvent.invite_created = true
same_event _ _ = false

pub data DirtyBucket : Type 0 where
  profile game_info inventory quests achievements stats : DirtyBucket

pub record PlayerProfile : Type 0 where
  pub id : PlayerId
  pub username : Text
  pub email : Option Text

pub record PlayerStats : Type 0 where
  pub games_played : ℤ
  pub games_won : ℤ
  pub games_lost : ℤ
  pub version : ℤ

abbrev pub default_stats : PlayerStats
default_stats = record {
  games_played = pos 0;
  games_won = pos 0;
  games_lost = pos 0;
  version = pos 0;
}

pub record PlayerQuestProgress : Type 0 where
  pub quest_id : QuestId
  pub current_value : ℤ
  pub completed_at : Option Instant
  pub rewarded : Bool
  pub quest_date : Option Day

pub record PlayerAchievementProgress : Type 0 where
  pub achievement_id : AchievementId
  pub current_tier : ℤ
  pub current_value : ℤ

pub record PlayerAggregate : Type 0 where
  pub profile : PlayerProfile
  pub skill_rating : ℤ
  pub inventory : Dict ℤ
  pub quests : List PlayerQuestProgress
  pub achievements : List PlayerAchievementProgress
  pub stats : PlayerStats
  pub mode_progress : Dict ℤ
