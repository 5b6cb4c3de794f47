-- ===== src/Player/Events.antt =====
-- What the progress of quests and achievements in src/player/repository.rs keeps of the tables:
-- whatever does not depend on it and is kept by the rewards of the tiers.
use fourinarow_server.Base.{
  ◌+ℤ◌, ltb_ℤ, ℤ, Bool-cases, Option-cases, ◌≡◌, inl, inr, Bool, true, false, Option, none, some,
  List, [], ◌∷◌, pos,
}
use fourinarow_server.Player.{
  ItemId, QuestId, AchievementId, PlayerId, Day, Instant, Key, GameEvent, game_played, game_won,
  level_completed, item_purchased, invite_created,
}
use fourinarow_server.Player.Tables.{
  Tables, Quest, QuestType, story, daily, QuestRow, AchievementTier, AchievementRow,
}
use fourinarow_server.Player.Transaction.{pure, update, ◌>>◌}
use fourinarow_server.Player.Transaction.Rules.{
  Keeps, Ensures-pure, Ensures-query, Ensures-update, Ensures-bind, Ensures-if,
}
use fourinarow_server.Player.Quests.{
  Moment, reward_tuple, story_quest_accessible, insert_progress, advance, start_story, story_step,
  apply_story_quest, daily_step, apply_daily_quest, apply_quest, apply_quests,
}
use fourinarow_server.Player.Achievements.{
  tier_of, count_win, next_tier, tier_reward, reach_tier, tier_step, apply_achievement, apply_each,
  apply_achievements, achievements_of, apply_quest_event,
}

-- A reward is of a positive number of items.
abbrev pub IsPositive : Option (ItemId × ℤ) → Type 0
IsPositive none = Unit
IsPositive (some (i, n)) = ltb_ℤ (pos 0) n ≡ true

pub reward_tuple-IsPositive : (i : Option ItemId) (n : ℤ) → IsPositive (reward_tuple i n)
unfolding reward_tuple
reward_tuple-IsPositive none n = tt
reward_tuple-IsPositive (some i) n = elim (Bool-cases (ltb_ℤ (pos 0) n)) [
  | inl more ↦ rw more more
  | inr nothing ↦ rw nothing tt
]

module _ {R : Type 0} {P : Tables → Type 0} where
  -- Quests only write their progress.
  module _
      (progress : (rows : List QuestRow) (t : Tables)
        → P t
        → P (record t { quest_progress = rows })) where
    advance-Keeps :
        (u : PlayerId) (now : Instant) (q : Quest) (day : Option Day) (n : ℤ)
        → Keeps {R = R} P (advance u now q day n)
    unfolding advance
    advance-Keeps u now q day n =
        Ensures-bind (Ensures-update {Q = λ _. P} _ (λ t p. progress _ t p))
          (λ _. Ensures-pure _ (λ t p. p))

    accessible-Keeps : (u : PlayerId) (id : QuestId) → Keeps {R = R} P (story_quest_accessible u id)
    unfolding story_quest_accessible
    accessible-Keeps u id = Ensures-bind (Ensures-query {Q = λ _. P} _ (λ t p. p)) (λ is_first.
        Ensures-if is_first _ _ (λ _. Ensures-pure _ (λ t p. p)) (λ _. Ensures-query _ (λ t p. p)))

    insert-Keeps :
        (r : QuestRow) (done : Bool) → Keeps {R = R} P (update (insert_progress r) >> pure done)
    insert-Keeps r done =
        Ensures-bind (Ensures-update {Q = λ _. P} _ (λ t p. progress _ t p))
          (λ _. Ensures-pure done (λ t p. p))

    start-Keeps :
        (u : PlayerId) (now : Instant) (q : Quest) (accessible : Bool)
        → Keeps {R = R} P (start_story u now q accessible)
    unfolding start_story
    start-Keeps u now q false = Ensures-pure _ (λ t p. p)
    start-Keeps u now q true = insert-Keeps _ _

    story_row-Keeps :
        (u : PlayerId) (now : Instant) (q : Quest) (row : Option QuestRow)
        → Keeps {R = R} P (story_step u now q row)
    unfolding story_step
    story_row-Keeps u now q none = Ensures-bind (accessible-Keeps u q.id) (start-Keeps u now q)
    story_row-Keeps u now q (some r) = elim (Option-cases r.completed_at) [
      | inl e ↦ rw (story_step, e) (advance-Keeps u now q none r.current_value)
      | inr (at, e) ↦ rw (story_step, e) (Ensures-pure _ (λ t p. p))
    ]

    daily_row-Keeps :
        (u : PlayerId) (m : Moment) (q : Quest) (row : Option QuestRow)
        → Keeps {R = R} P (daily_step u m q row)
    unfolding daily_step
    daily_row-Keeps u m q none = insert-Keeps _ _
    daily_row-Keeps u m q (some r) = elim (Option-cases r.completed_at) [
      | inl e ↦ rw (daily_step, e) (advance-Keeps u m.now q (some m.today) r.current_value)
      | inr (at, e) ↦ rw (daily_step, e) (Ensures-pure _ (λ t p. p))
    ]

    apply_quest-Keeps :
        (kind : QuestType) (u : PlayerId) (m : Moment) (q : Quest)
        → Keeps {R = R} P (apply_quest kind u m q)
    unfolding apply_story_quest apply_daily_quest
    apply_quest-Keeps story u m q =
        Ensures-bind (Ensures-query {Q = λ _. P} _ (λ t p. p)) (story_row-Keeps u m.now q)
    apply_quest-Keeps daily u m q =
        Ensures-bind (Ensures-query {Q = λ _. P} _ (λ t p. p)) (daily_row-Keeps u m q)

    apply_quests-Keeps :
        (kind : QuestType) (u : PlayerId) (m : Moment) (quests : List Quest)
        → Keeps {R = R} P (apply_quests kind u m quests)
    unfolding apply_quests
    apply_quests-Keeps kind u m [] = Ensures-pure _ (λ t p. p)
    apply_quests-Keeps kind u m (q ∷ quests) = Ensures-bind (apply_quest-Keeps kind u m q) (λ done.
        Ensures-bind (apply_quests-Keeps kind u m quests) (λ rest. Ensures-pure _ (λ t p. p)))

  -- Achievements write their progress and give rewards.
  module _
      (progress : (rows : List AchievementRow) (t : Tables)
        → P t
        → P (record t { achievement_progress = rows }))
      (rewards : (u : PlayerId) (prefix : Key) (a : AchievementId) (tier : ℤ)
          (reward : Option (ItemId × ℤ))
        → IsPositive reward
        → Keeps {R = R} P (tier_reward u prefix a tier reward)) where
    count_win-Keeps :
        (u : PlayerId) (a : AchievementId) (tier n : ℤ) (row : Option AchievementRow) (t : Tables)
        → P t
        → P (count_win u a tier n row t)
    unfolding count_win
    count_win-Keeps u a tier n none t p = progress _ t p
    count_win-Keeps u a tier n (some r) t p = progress _ t p

    reach_tier-Keeps :
        (u : PlayerId) (prefix : Key) (a : AchievementId) (tier : ℤ) (r : AchievementTier)
        (reached : Bool)
        → Keeps {R = R} P (reach_tier u prefix a tier r reached)
    unfolding reach_tier next_tier
    reach_tier-Keeps u prefix a tier r false = Ensures-pure _ (λ t p. p)
    reach_tier-Keeps u prefix a tier r true =
        Ensures-bind (Ensures-update {Q = λ _. P} _ (λ t p. progress _ t p)) (λ _.
          Ensures-bind
            (rewards u prefix a tier _ (reward_tuple-IsPositive r.reward_item_id r.reward_quantity))
            (λ _. Ensures-pure _ (λ t p. p)))

    tier_step-Keeps :
        (u : PlayerId) (prefix : Key) (a : AchievementId) (row : Option AchievementRow)
        (tier : Option AchievementTier)
        → Keeps {R = R} P (tier_step u prefix a row tier)
    unfolding tier_step
    tier_step-Keeps u prefix a row none = Ensures-pure _ (λ t p. p)
    tier_step-Keeps u prefix a row (some r) =
        let (tier, n) = tier_of row in
        Ensures-bind (Ensures-update {Q = λ _. P} _ (count_win-Keeps u a tier (n +ℤ pos 1) row))
          (λ _. reach_tier-Keeps u prefix a tier r _)

    apply_each-Keeps :
        (u : PlayerId) (prefix : Key) (ids : List AchievementId)
        → Keeps {R = R} P (apply_each u prefix ids)
    unfolding apply_each apply_achievement
    apply_each-Keeps u prefix [] = Ensures-pure _ (λ t p. p)
    apply_each-Keeps u prefix (a ∷ ids) =
        Ensures-bind
          (Ensures-bind (Ensures-query {Q = λ _. P} _ (λ t p. p)) (λ row.
            Ensures-bind (Ensures-query {Q = λ _. P} _ (λ t p. p))
              (tier_step-Keeps u prefix a row)))
          (λ first. Ensures-bind (apply_each-Keeps u prefix ids) (λ _. Ensures-pure _ (λ t p. p)))

    achievements-Keeps :
        (u : PlayerId) (prefix : Key) (event : GameEvent)
        → Keeps {R = R} P (achievements_of u prefix event)
    unfolding achievements_of apply_achievements
    achievements-Keeps u prefix game_won =
        Ensures-bind (Ensures-query {Q = λ _. P} _ (λ t p. p)) (apply_each-Keeps u prefix)
    achievements-Keeps u prefix game_played = Ensures-pure _ (λ t p. p)
    achievements-Keeps u prefix level_completed = Ensures-pure _ (λ t p. p)
    achievements-Keeps u prefix item_purchased = Ensures-pure _ (λ t p. p)
    achievements-Keeps u prefix invite_created = Ensures-pure _ (λ t p. p)

    pub apply_quest_event-Keeps :
        ((rows : List QuestRow) (t : Tables) → P t → P (record t { quest_progress = rows }))
        → (u : PlayerId) (m : Moment) (event : GameEvent) (prefix : Key)
        → Keeps {R = R} P (apply_quest_event u m event prefix)
    unfolding apply_quest_event
    apply_quest_event-Keeps quests u m event prefix =
        Ensures-bind (Ensures-query {Q = λ _. P} _ (λ t p. p)) (λ stories.
          Ensures-bind (apply_quests-Keeps quests story u m stories) (λ completed.
            Ensures-bind (Ensures-query {Q = λ _. P} _ (λ t p. p)) (λ dailies.
              Ensures-bind (apply_quests-Keeps quests daily u m dailies) (λ others.
                Ensures-bind (achievements-Keeps u prefix event)
                  (λ _. Ensures-pure _ (λ t p. p))))))
