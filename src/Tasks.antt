-- ===== src/Tasks.antt =====
-- src/api/minigame_tasks.rs: the catalogue of the minigame's tasks, with what it asks and rewards in
-- each round. Amounts and counts are natural numbers, ids texts; titles and descriptions are left out.
pub mod Store
pub mod Service
pub mod Signin
use fourinarow_server.Base.{
  length, get_elem?, leb, if◌then◌else◌, ℕ, ◌+◌, ◌-◌, ◌*◌, ◌^◌, String, Bool, true, false, Option,
  none, some, List, [], ◌∷◌,
}

abbrev pub TaskId : Type 0
TaskId = String

-- A day of `NaiveDate`, counted from the first of January 1970, the sentinel of tasks that are not
-- daily.
abbrev pub Day : Type 0
Day = ℕ

abbrev pub epoch : Day
epoch = 0

abbrev pub i64_max : ℕ
i64_max = 2 ^ 63 - 1

pub data RewardKind : Type 0 where
  gold_kind energy_kind : RewardKind

pub record Reward : Type 0 where
  pub kind : RewardKind
  pub amount : ℕ

abbrev gold : ℕ → Reward
gold amount = record { kind = gold_kind; amount = amount }

abbrev energy : ℕ → Reward
energy amount = record { kind = energy_kind; amount = amount }

pub data Metric : Type 0 where
  levels_cleared total_stars total_score rank daily_plays daily_clears : Metric
  signin_total signed_today signin_streak : Metric

-- `MinigameAggregate` of src/database/minigame_tasks.rs.
pub record MinigameAggregate : Type 0 where
  pub levels_cleared : ℕ
  pub total_stars : ℕ
  pub total_score : ℕ

pub record Ctx : Type 0 where
  pub agg : MinigameAggregate
  pub plays : ℕ
  pub clears : ℕ
  pub signin_total : ℕ
  pub signed_today : Bool
  pub signin_streak : ℕ
  pub rank : Option ℕ

-- `Ctx::value` and `Ctx::display`.
unfoldable pub value : Ctx → Metric → ℕ
value c levels_cleared = c.agg.levels_cleared
value c total_stars = c.agg.total_stars
value c total_score = c.agg.total_score
value c rank = elim c.rank [ none ↦ i64_max | some r ↦ r ]
value c daily_plays = c.plays
value c daily_clears = c.clears
value c signin_total = c.signin_total
value c signed_today = if c.signed_today then 1 else 0
value c signin_streak = c.signin_streak

unfoldable pub display : Ctx → Metric → ℕ
unfolding value
display c rank = elim c.rank [ none ↦ 0 | some r ↦ r ]
display c m = value c m

pub record SimpleDef : Type 0 where
  pub id : TaskId
  pub metric : Metric
  pub target : ℕ
  pub rewards : List Reward
  pub daily : Bool

abbrev simple : Bool → TaskId → Metric → ℕ → List Reward → SimpleDef
simple daily id metric target rewards = record {
  id = id;
  metric = metric;
  target = target;
  rewards = rewards;
  daily = daily;
}

unfoldable pub main_defs : List SimpleDef
main_defs =
    simple false "story_clear_1" levels_cleared 1 (gold 200 ∷ [])
    ∷ simple false "story_clear_5" levels_cleared 5 (gold 500 ∷ [])
    ∷ simple false "story_clear_10" levels_cleared 10 (gold 1000 ∷ energy 5 ∷ [])
    ∷ simple false "story_stars_15" total_stars 15 (gold 1500 ∷ [])
    ∷ simple false "story_clear_33" levels_cleared 33 (gold 3000 ∷ energy 10 ∷ [])
    ∷ simple false "story_clear_100" levels_cleared 100 (gold 10000 ∷ energy 20 ∷ [])
    ∷ simple false "story_signin_1" signin_total 1 (gold 300 ∷ energy 3 ∷ [])
    ∷ []

unfoldable pub daily_defs : List SimpleDef
daily_defs =
    simple true "daily_play_1" daily_plays 1 (gold 100 ∷ [])
    ∷ simple true "daily_clear_3" daily_clears 3 (gold 300 ∷ energy 2 ∷ [])
    ∷ simple true "daily_play_5" daily_plays 5 (energy 5 ∷ [])
    ∷ simple true "daily_signin" signed_today 1 (gold 200 ∷ energy 2 ∷ [])
    ∷ []

pub data Direction : Type 0 where
  asc desc : Direction

pub record Tier : Type 0 where
  pub threshold : ℕ
  pub rewards : List Reward

-- The fields of `Uniform` are `init`, `gap`, `cap`, `reward_kind` and `coef`.
pub data AchKind : Type 0 where
  uniform : ℕ → ℕ → Option ℕ → RewardKind → ℕ → AchKind
  tiers : List Tier → AchKind

pub record AchDef : Type 0 where
  pub id : TaskId
  pub metric : Metric
  pub direction : Direction
  pub kind : AchKind

unfoldable pub cap : AchKind → Option ℕ
cap (uniform init gap c kind coef) = c
cap (tiers ts) = some (length ts)

tier_threshold : Option Tier → ℕ
tier_threshold none = i64_max
tier_threshold (some t) = t.threshold

tier_rewards : Option Tier → List Reward
tier_rewards none = []
tier_rewards (some t) = t.rewards

unfoldable pub threshold : AchKind → ℕ → ℕ
unfolding tier_threshold
threshold (uniform init gap c kind coef) step = (init + step) * gap
threshold (tiers ts) step = tier_threshold (get_elem? ts step)

unfoldable pub rewards : AchKind → ℕ → List Reward
unfolding tier_rewards
rewards (uniform init gap c kind coef) step =
    record { kind = kind; amount = (step + 1) * coef } ∷ []
rewards (tiers ts) step = tier_rewards (get_elem? ts step)

unfoldable pub satisfied : AchDef → ℕ → ℕ → Bool
unfolding threshold
satisfied d v step = elim d.direction [
  | asc ↦ leb (threshold d.kind step) v
  | desc ↦ leb v (threshold d.kind step)
]

unfoldable pub ach_defs : List AchDef
ach_defs =
    record {
      id = "rank_board";
      metric = rank;
      direction = desc;
      kind = tiers (
          record { threshold = 100; rewards = gold 1000 ∷ [] }
          ∷ record { threshold = 50; rewards = gold 2000 ∷ energy 5 ∷ [] }
          ∷ record { threshold = 10; rewards = gold 5000 ∷ energy 10 ∷ [] }
          ∷ record { threshold = 1; rewards = gold 10000 ∷ energy 20 ∷ [] }
          ∷ []);
    }
    ∷ record {
      id = "score_master";
      metric = total_score;
      direction = asc;
      kind = uniform 1 50000 none gold_kind 500;
    }
    ∷ record {
      id = "perfectionist";
      metric = total_stars;
      direction = asc;
      kind = uniform 1 10 (some 30) gold_kind 300;
    }
    ∷ record {
      id = "signin_streak";
      metric = signin_streak;
      direction = asc;
      kind = uniform 1 1 none energy_kind 1;
    }
    ∷ []
