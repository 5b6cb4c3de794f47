-- ===== src/Player/Cache/Rows.antt =====
-- Reading an aggregate from the tables and saving it, in src/player/repository.rs.
use fourinarow_server.Base.{
  ◌+ℤ◌, ltb_ℤ, ℤ, Dict, lookup, insert, ◌==◌, if◌then◌else◌, is_some, ℕ, ◌⊎◌, inl, inr, Bool, ◌&&◌,
  Option, none, some, List, [], ◌∷◌, pos,
}
use fourinarow_server.Player.{
  PlayerId, DirtyBucket, profile, game_info, inventory, quests, achievements, stats, PlayerStats,
  default_stats, PlayerQuestProgress, PlayerAchievementProgress, PlayerAggregate,
}
use fourinarow_server.Player.Tables.{Tables, UserRow, QuestRow, AchievementRow, inner}
use fourinarow_server.Player.Tables.Progress.{
  find_progress, update_progress, find_achievement, update_achievement,
}

pub data LoadError : Type 0 where
  not_found db : LoadError

-- Items of which there are some.
unfoldable pub held_items : Dict ℤ → Dict ℤ
held_items [] = []
held_items ((i, qty) ∷ items) =
    let rest = held_items items in if ltb_ℤ (pos 0) qty then (i, qty) ∷ rest else rest

quests_of : PlayerId → List QuestRow → List PlayerQuestProgress
quests_of u [] = []
quests_of u (r ∷ rows) =
    let rest = quests_of u rows in
    if r.user_id == u
    then record {
      quest_id = r.quest_id;
      current_value = r.current_value;
      completed_at = r.completed_at;
      rewarded = r.rewarded;
      quest_date = r.quest_date;
    }
      ∷ rest
    else rest

achievements_of : PlayerId → List AchievementRow → List PlayerAchievementProgress
achievements_of u [] = []
achievements_of u (r ∷ rows) =
    let rest = achievements_of u rows in
    if r.user_id == u
    then record {
      achievement_id = r.achievement_id;
      current_tier = r.current_tier;
      current_value = r.current_value;
    }
      ∷ rest
    else rest

-- What is read of a player whose row and statistics are these.
unfoldable pub aggregate_of : PlayerId → UserRow → PlayerStats → Tables → PlayerAggregate
unfolding held_items quests_of achievements_of inner
aggregate_of u row s t = record {
  profile = record { id = u; username = row.username; email = row.email };
  skill_rating = row.skill_rating;
  inventory = held_items (inner (lookup u t.user_inventory));
  quests = quests_of u t.quest_progress;
  achievements = achievements_of u t.achievement_progress;
  stats = s;
  mode_progress = inner (lookup u t.mode_progress);
}

-- `load_or_create_stats` and the last query. The statements are numbered in their order.
unfoldable pub load_stats :
    (ℕ → Bool)
    → PlayerId
    → UserRow
    → Option PlayerStats
    → Tables
    → (LoadError ⊎ PlayerAggregate) × Tables
unfolding aggregate_of
load_stats works u row (some s) t = (if works 6 then inr (aggregate_of u row s t) else inl db, t)
load_stats works u row none t =
    if works 5
    then (let t' = record t { player_stats = insert u default_stats t.player_stats } in
        (if works 6 then inr (aggregate_of u row default_stats t') else inl db, t'))
    else (inl db, t)

unfoldable pub load_row :
    (ℕ → Bool) → PlayerId → Option UserRow → Tables → (LoadError ⊎ PlayerAggregate) × Tables
unfolding load_stats
load_row works u none t = (inl not_found, t)
load_row works u (some row) t =
    if is_some row.deleted_at
    then (inl not_found, t)
    else if works 1 && (works 2 && (works 3 && works 4))
    then load_stats works u row (lookup u t.player_stats) t
    else (inl db, t)

unfoldable pub load_aggregate :
    (ℕ → Bool) → PlayerId → Tables → (LoadError ⊎ PlayerAggregate) × Tables
unfolding load_row
load_aggregate works u t = if works 0 then load_row works u (lookup u t.users) t else (inl db, t)

unfoldable pub update_user : (UserRow → UserRow) → PlayerId → Tables → Tables
update_user f u t = elim (lookup u t.users) [
  | none ↦ t
  | some row ↦ record t { users = insert u (f row) t.users }
]

-- Each positive quantity is put into the emptied inventory.
unfoldable pub put_items : Dict ℤ → Dict ℤ → Dict ℤ
put_items [] items = items
put_items ((i, qty) ∷ more) items =
    put_items more (if ltb_ℤ (pos 0) qty then insert i qty items else items)

put_quest : PlayerId → PlayerQuestProgress → List QuestRow → List QuestRow
unfolding find_progress update_progress
put_quest u q rows = elim (find_progress u q.quest_id q.quest_date rows) [
  | none ↦
      record {
        user_id = u;
        quest_id = q.quest_id;
        current_value = q.current_value;
        completed_at = q.completed_at;
        rewarded = q.rewarded;
        quest_date = q.quest_date;
      }
      ∷ rows
  | some r ↦
      update_progress
        (λ r. record r {
          current_value = q.current_value;
          completed_at = q.completed_at;
          rewarded = q.rewarded;
        })
        u q.quest_id q.quest_date rows
]

put_quests : PlayerId → List PlayerQuestProgress → List QuestRow → List QuestRow
unfolding put_quest
put_quests u [] rows = rows
put_quests u (q ∷ more) rows = put_quests u more (put_quest u q rows)

put_achievement : PlayerId → PlayerAchievementProgress → List AchievementRow → List AchievementRow
unfolding find_achievement update_achievement
put_achievement u a rows = elim (find_achievement u a.achievement_id rows) [
  | none ↦
      record {
        user_id = u;
        achievement_id = a.achievement_id;
        current_tier = a.current_tier;
        current_value = a.current_value;
      }
      ∷ rows
  | some r ↦
      update_achievement
        (λ r. record r { current_tier = a.current_tier; current_value = a.current_value }) u
        a.achievement_id rows
]

put_achievements :
    PlayerId → List PlayerAchievementProgress → List AchievementRow → List AchievementRow
unfolding put_achievement
put_achievements u [] rows = rows
put_achievements u (a ∷ more) rows = put_achievements u more (put_achievement u a rows)

saved_version : Option PlayerStats → ℤ
saved_version none = pos 1
saved_version (some s) = s.version +ℤ pos 1

-- `save_bucket`, of which the statements or the transaction succeed.
unfoldable pub save_bucket : PlayerAggregate → DirtyBucket → Tables → Tables
unfolding update_user put_items put_quests put_achievements saved_version
save_bucket a profile t =
    update_user (λ row. record row { username = a.profile.username; email = a.profile.email })
      a.profile.id t
save_bucket a game_info t =
    update_user (λ row. record row { skill_rating = a.skill_rating }) a.profile.id t
save_bucket a inventory t = record t {
  user_inventory = insert a.profile.id (put_items a.inventory []) t.user_inventory;
}
save_bucket a stats t = record t {
  player_stats =
      insert a.profile.id
        (record a.stats { version = saved_version (lookup a.profile.id t.player_stats) })
        t.player_stats;
}
save_bucket a quests t = record t {
  quest_progress = put_quests a.profile.id a.quests t.quest_progress;
}
save_bucket a achievements t = record t {
  achievement_progress = put_achievements a.profile.id a.achievements t.achievement_progress;
}
