-- ===== src/Player/Tables/Progress.antt =====
-- The rows of progress, tiers and offers that src/player/repository.rs selects.
use fourinarow_server.Base.{
  same_ℤ, ℤ, ◌==◌, if◌then◌else◌, ℕ, Bool, true, false, ◌&&◌, Option, none, some, List, [], ◌∷◌,
}
use fourinarow_server.Player.{ItemId, QuestId, AchievementId, PlayerId, Day}
use fourinarow_server.Player.Tables.{AchievementRow, AchievementTier, QuestRow, ShopItem}

-- The part of a row of progress that a statement selects by.
unfoldable pub same_day : Option Day → Option Day → Bool
same_day none none = true
same_day (some a) (some b) = a == b
same_day _ _ = false

unfoldable pub of_quest : PlayerId → QuestId → Option Day → QuestRow → Bool
unfolding same_day
of_quest u q d r = (r.user_id == u) && ((r.quest_id == q) && same_day r.quest_date d)

unfoldable pub find_progress : PlayerId → QuestId → Option Day → List QuestRow → Option QuestRow
unfolding of_quest
find_progress u q d [] = none
find_progress u q d (r ∷ rows) =
    let rest = find_progress u q d rows in if of_quest u q d r then some r else rest

-- `UPDATE user_quest_progress` of the rows of one player, quest and day.
unfoldable pub update_progress :
    (QuestRow → QuestRow) → PlayerId → QuestId → Option Day → List QuestRow → List QuestRow
unfolding of_quest
update_progress f u q d [] = []
update_progress f u q d (r ∷ rows) =
    let rest = update_progress f u q d rows in if of_quest u q d r then f r ∷ rest else r ∷ rest

unfoldable pub of_achievement : PlayerId → AchievementId → AchievementRow → Bool
of_achievement u a r = (r.user_id == u) && (r.achievement_id == a)

unfoldable pub find_achievement :
    PlayerId → AchievementId → List AchievementRow → Option AchievementRow
unfolding of_achievement
find_achievement u a [] = none
find_achievement u a (r ∷ rows) =
    let rest = find_achievement u a rows in if of_achievement u a r then some r else rest

unfoldable pub update_achievement :
    (AchievementRow → AchievementRow)
    → PlayerId
    → AchievementId
    → List AchievementRow
    → List AchievementRow
unfolding of_achievement
update_achievement f u a [] = []
update_achievement f u a (r ∷ rows) =
    let rest = update_achievement f u a rows in
    if of_achievement u a r then f r ∷ rest else r ∷ rest

unfoldable pub find_tier : AchievementId → ℤ → List AchievementTier → Option AchievementTier
find_tier a tier [] = none
find_tier a tier (r ∷ rows) =
    let rest = find_tier a tier rows in
    if (r.achievement_id == a) && same_ℤ r.tier tier then some r else rest

unfoldable pub find_item : ℕ → ItemId → List ShopItem → Option ShopItem
find_item shop i [] = none
find_item shop i (r ∷ rows) =
    let rest = find_item shop i rows in
    if (r.shop_id == shop) && ((r.item_id == i) && r.enabled) then some r else rest
