-- ===== src/Player/Games.antt =====
-- The transactions of src/player/repository.rs at the end of a game and of a level.
use fourinarow_server.Base.{
  ◌+ℤ◌, ◌-ℤ◌, same_ℤ, ℤ, Dict, lookup, insert, if◌then◌else◌, is_some, ℕ, suc, ◌⊎◌, inl, inr, Bool,
  true, false, not, Option, none, some, List, [], ◌∷◌, ◌++◌, pos,
}
use fourinarow_server.Player.{PlayerId, game_played, game_won, level_completed, Key, code_ℤ}
use fourinarow_server.Player.Tables.{Tables, UserRow, lookup2, insert2, insert_idempotency}
use fourinarow_server.Player.Transaction.{
  Tx, pure, statement, query, update, ◌>>=◌, ◌>>◌, require, or_return, or_rollback,
}
use fourinarow_server.Player.Quests.{Moment}
use fourinarow_server.Player.Achievements.{Rewards, Unlocked, apply_quest_event}
use fourinarow_server.Player.Milestones.{Milestone, check_progressive_achievements}
use fourinarow_server.Player.Operations.{Completed}

abbrev pub settlement_literal : ℕ
settlement_literal = 7

abbrev pub level_literal : ℕ
level_literal = 8

pub data SettlementError : Type 0 where
  missing_winner missing_loser cache_flush cache_reload db : SettlementError

pub record SettlementOutcome : Type 0 where
  pub winner_rewards : Rewards
  pub loser_rewards : Rewards
  pub winner_achievements : Unlocked
  pub winner_completed_quests : Completed
  pub loser_completed_quests : Completed

-- The outcome of a game that is settled already.
abbrev pub nothing_settled : SettlementOutcome
nothing_settled = record {
  winner_rewards = [];
  loser_rewards = [];
  winner_achievements = [];
  winner_completed_quests = [];
  loser_completed_quests = [];
}

-- Whether the user has a row that is not deleted.
unfoldable pub exists : Option UserRow → Bool
exists none = false
exists (some row) = not (is_some row.deleted_at)

-- `UPDATE users SET skill_rating`.
unfoldable pub rate : (ℤ → ℤ) → PlayerId → Dict UserRow → Dict UserRow
rate f u users = elim (lookup u users) [
  | none ↦ users
  | some row ↦ insert u (record row { skill_rating = f row.skill_rating }) users
]

abbrev pub rate_user : (ℤ → ℤ) → PlayerId → Tables → Tables
rate_user f u t = record t { users = rate f u t.users }

-- A settlement with a new key.
unfoldable pub settle_new :
    PlayerId → PlayerId → ℤ → Moment → Tx (SettlementError ⊎ SettlementOutcome) SettlementOutcome
unfolding require exists rate apply_quest_event
settle_new winner loser delta m = do
  winner_exists ← query (λ t. exists (lookup winner t.users))
  require winner_exists (inl missing_winner)
  loser_exists ← query (λ t. exists (lookup loser t.users))
  require loser_exists (inl missing_loser)
  update (rate_user (λ r. r +ℤ delta) winner)
  update (rate_user (λ r. r -ℤ delta) loser)
  update (λ t. record t { games = (winner, loser) ∷ t.games })
  (wr1, wa1, cq1) ← apply_quest_event winner m game_won (settlement_literal ∷ [])
  (wr2, wa2, cq2) ← apply_quest_event winner m game_played (settlement_literal ∷ [])
  (loser_rewards, la, loser_cq) ← apply_quest_event loser m game_played (settlement_literal ∷ [])
  pure (record {
    winner_rewards = wr1 ++ wr2;
    loser_rewards = loser_rewards;
    winner_achievements = wa1 ++ wa2;
    winner_completed_quests = cq1 ++ cq2;
    loser_completed_quests = loser_cq;
  })

unfoldable pub settle_tx :
    ℕ
    → PlayerId
    → PlayerId
    → ℤ
    → Moment
    → Tx (SettlementError ⊎ SettlementOutcome) SettlementOutcome
unfolding insert_idempotency require settle_new
settle_tx id winner loser delta m = do
  inserted ← statement (insert_idempotency winner (settlement_literal ∷ id ∷ []))
  require inserted (inr nothing_settled)
  settle_new winner loser delta m

-- `ensure_mode_progress`: what the statement for one mode does.
unfoldable pub ensure_mode : PlayerId → ℕ → Tables → Tables
unfolding lookup2 insert2
ensure_mode u mode t = elim (lookup2 u mode t.mode_progress) [
  | none ↦ record t { mode_progress = insert2 u mode (pos 0) t.mode_progress }
  | some level ↦ t
]

-- Up to the first statement that the database does not do, if there is one.
unfoldable pub ensure_mode_progress : (ℕ → Bool) → PlayerId → List ℕ → Tables → Bool × Tables
unfolding ensure_mode
ensure_mode_progress works u [] t = (true, t)
ensure_mode_progress works u (mode ∷ modes) t =
    let rest = ensure_mode_progress (λ n. works (suc n)) u modes (ensure_mode u mode t) in
    if works 0 then rest else (false, t)

-- `running` stands for a call that has not come back with the fuel that it was given.
pub data CompleteLevelError : Type 0 where
  mode_not_unlocked not_next_level invalid_stars mode_missing db running : CompleteLevelError

pub record CompleteLevelOutcome : Type 0 where
  pub new_level : ℤ
  pub rewards : Rewards
  pub achievements : Unlocked
  pub milestones : List Milestone
  pub completed_quests : Completed

-- The outcome of a level that is completed already.
abbrev pub completed_before : ℤ → CompleteLevelOutcome
completed_before level = record {
  new_level = level;
  rewards = [];
  achievements = [];
  milestones = [];
  completed_quests = [];
}

abbrev pub level_key : PlayerId → ℕ → ℤ → Key
level_key u mode level = level_literal ∷ u ∷ mode ∷ code_ℤ level

unfoldable pub complete_level_tx :
    ℕ
    → PlayerId
    → ℕ
    → ℤ
    → Moment
    → Tx (CompleteLevelError ⊎ CompleteLevelOutcome) CompleteLevelOutcome
unfolding insert_idempotency require or_return or_rollback lookup2 insert2 apply_quest_event
    check_progressive_achievements
complete_level_tx fuel u mode level m = do
  inserted ← statement (insert_idempotency u (level_key u mode level))
  require inserted (inr (completed_before level))
  row ← query (λ t. lookup2 u mode t.mode_progress)
  current ← or_rollback row (inl mode_missing)
  require (same_ℤ level (current +ℤ pos 1)) (inl not_next_level)
  update (λ t. record t { mode_progress = insert2 u mode level t.mode_progress })
  (rewards, achievements, completed) ←
      apply_quest_event u m level_completed (level_literal ∷ mode ∷ code_ℤ level)
  found ← check_progressive_achievements fuel u mode level
  milestones ← or_return found (inl running)
  pure (record {
    new_level = level;
    rewards = rewards;
    achievements = achievements;
    milestones = milestones;
    completed_quests = completed;
  })
