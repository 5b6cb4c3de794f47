-- ===== src/Player/Achievements.antt =====
-- The achievements that a won game counts for, and all that an event brings, inside a transaction of
-- src/player/repository.rs.
use fourinarow_server.Base.{
  ◌+ℤ◌, ltb_ℤ, leb_ℤ, same_ℤ, ℤ, ◌==◌, if◌then◌else◌, ℕ, Bool, true, false, ◌&&◌, Option, none,
  some, List, [], ◌∷◌, ◌++◌, pos,
}
use fourinarow_server.Player.{
  ItemId, QuestId, AchievementId, PlayerId, Key, GameEvent, game_won, code_ℤ,
}
use fourinarow_server.Player.Tables.{
  Tables, QuestType, story, daily, AchievementTier, AchievementRow, insert_idempotency,
}
use fourinarow_server.Player.Tables.Progress.{find_achievement, update_achievement, find_tier}
use fourinarow_server.Player.Transaction.{Tx, pure, statement, query, update, ◌>>=◌, ◌>>◌}
use fourinarow_server.Player.Quests.{Moment, reward_tuple, grant, quests_for, apply_quests}

without : AchievementId → List AchievementId → List AchievementId
without a [] = []
without a (b ∷ rest) = let kept = without a rest in if a == b then kept else b ∷ kept

-- The first tiers: the achievements that are counted, each once.
counted : AchievementTier → Bool
counted r = same_ℤ r.tier (pos 1) && ltb_ℤ (pos 0) r.condition_value

unfoldable pub counted_achievements : List AchievementTier → List AchievementId
unfolding counted without
counted_achievements [] = []
counted_achievements (r ∷ rows) =
    let rest = counted_achievements rows in
    if counted r then r.achievement_id ∷ without r.achievement_id rest else rest

-- What one event brings: rewards, tiers of achievements and completed quests.
abbrev pub Rewards : Type 0
Rewards = List (ItemId × ℤ)

abbrev pub Unlocked : Type 0
Unlocked = List (AchievementId × ℤ)

abbrev pub achievement_literal : ℕ
achievement_literal = 1

unfoldable pub tier_of : Option AchievementRow → ℤ × ℤ
tier_of none = (pos 1, pos 0)
tier_of (some r) = (r.current_tier, r.current_value)

-- The new value in the row of the progress, which is inserted if there is none.
unfoldable pub count_win :
    PlayerId → AchievementId → ℤ → ℤ → Option AchievementRow → Tables → Tables
unfolding update_achievement
count_win u a tier value none t = record t {
  achievement_progress =
      record { user_id = u; achievement_id = a; current_tier = tier; current_value = value }
      ∷ t.achievement_progress;
}
count_win u a tier value (some r) t = record t {
  achievement_progress =
      update_achievement (λ r. record r { current_value = value }) u a t.achievement_progress;
}

unfoldable pub next_tier : PlayerId → AchievementId → ℤ → Tables → Tables
unfolding update_achievement
next_tier u a tier t = record t {
  achievement_progress =
      update_achievement (λ r. record r { current_tier = tier +ℤ pos 1; current_value = pos 0 }) u a
        t.achievement_progress;
}

unfoldable pub grant_once : {R : Type 0} → PlayerId → ItemId → ℤ → Key → Key → Bool → Tx R Rewards
unfolding grant
grant_once u i qty business key false = pure []
grant_once u i qty business key true = do grant u i qty business key; pure ((i, qty) ∷ [])

-- The reward of a tier.
unfoldable pub tier_reward :
    {R : Type 0} → PlayerId → Key → AchievementId → ℤ → Option (ItemId × ℤ) → Tx R Rewards
unfolding insert_idempotency grant_once
tier_reward u prefix a tier none = pure []
tier_reward u prefix a tier (some (i, qty)) = do
  let business = prefix ++ (achievement_literal ∷ a ∷ code_ℤ tier)
  let key = achievement_literal ∷ u ∷ a ∷ code_ℤ tier
  inserted ← statement (insert_idempotency u key)
  grant_once u i qty business key inserted

unfoldable pub reach_tier :
    {R : Type 0}
    → PlayerId
    → Key
    → AchievementId
    → ℤ
    → AchievementTier
    → Bool
    → Tx R (Rewards × Unlocked)
unfolding tier_reward next_tier reward_tuple
reach_tier u prefix a tier r false = pure ([], [])
reach_tier u prefix a tier r true = do
  update (next_tier u a tier)
  rewards ← tier_reward u prefix a tier (reward_tuple r.reward_item_id r.reward_quantity)
  pure (rewards, (a, tier) ∷ [])

unfoldable pub tier_step :
    {R : Type 0}
    → PlayerId
    → Key
    → AchievementId
    → Option AchievementRow
    → Option AchievementTier
    → Tx R (Rewards × Unlocked)
unfolding reach_tier tier_of count_win
tier_step u prefix a row none = pure ([], [])
tier_step u prefix a row (some r) = do
  let (tier, value) = tier_of row
  update (count_win u a tier (value +ℤ pos 1) row)
  reach_tier u prefix a tier r (leb_ℤ r.condition_value (value +ℤ pos 1))

unfoldable pub apply_achievement :
    {R : Type 0} → PlayerId → Key → AchievementId → Tx R (Rewards × Unlocked)
unfolding tier_step tier_of find_achievement find_tier
apply_achievement u prefix a = do
  row ← query (λ t. find_achievement u a t.achievement_progress)
  tier ← query (λ t. find_tier a (tier_of row).0 t.achievement_tiers)
  tier_step u prefix a row tier

unfoldable pub apply_each :
    {R : Type 0} → PlayerId → Key → List AchievementId → Tx R (Rewards × Unlocked)
unfolding apply_achievement
apply_each u prefix [] = pure ([], [])
apply_each u prefix (a ∷ achievements) = do
  (rewards, unlocked) ← apply_achievement u prefix a
  (more, others) ← apply_each u prefix achievements
  pure (rewards ++ more, unlocked ++ others)

-- `apply_achievements_in_tx`.
unfoldable pub apply_achievements : {R : Type 0} → PlayerId → Key → Tx R (Rewards × Unlocked)
unfolding apply_each counted_achievements
apply_achievements u prefix = do
  achievements ← query (λ t. counted_achievements t.achievement_tiers)
  apply_each u prefix achievements

unfoldable pub achievements_of :
    {R : Type 0} → PlayerId → Key → GameEvent → Tx R (Rewards × Unlocked)
unfolding apply_achievements
achievements_of u prefix game_won = apply_achievements u prefix
achievements_of u prefix _ = pure ([], [])

-- `apply_quest_event_in_tx`.
unfoldable pub apply_quest_event :
    {R : Type 0}
    → PlayerId
    → Moment
    → GameEvent
    → Key
    → Tx R (Rewards × Unlocked × List (QuestId × QuestType))
unfolding apply_quests quests_for achievements_of
apply_quest_event u m event prefix = do
  stories ← query (λ t. quests_for story event t.quests)
  completed ← apply_quests story u m stories
  dailies ← query (λ t. quests_for daily event t.quests)
  others ← apply_quests daily u m dailies
  (rewards, unlocked) ← achievements_of u prefix event
  pure (rewards, unlocked, completed ++ others)
