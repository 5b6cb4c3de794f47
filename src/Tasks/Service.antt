-- ===== src/Tasks/Service.antt =====
-- The requests of src/api/minigame_tasks.rs about one user's tasks in one game.
pub mod Shown
pub mod Once
pub mod Rounds
use fourinarow_server.Base.{
  ltb, leb, if◌then◌else◌, ℕ, ◌+◌, Bool, true, false, Option, none, some, List, [], ◌∷◌, ◌++◌, map,
}
use fourinarow_server.Tasks.{
  TaskId, Day, epoch, Reward, MinigameAggregate, Ctx, value, display, SimpleDef, main_defs,
  daily_defs, AchDef, cap, threshold, rewards, satisfied, ach_defs,
}
use fourinarow_server.Tasks.Store.{
  Store, same_text, is_claimed, record_claim, get_step, advance_step, signin_stat,
}

pub data Status : Type 0 where
  in_progress completed claimed done_all : Status

-- The JSON of a task, less its texts; `round` is `none` for a simple task.
pub record TaskView : Type 0 where
  pub task_id : TaskId
  pub target : ℕ
  pub current : ℕ
  pub status : Status
  pub rewards : List Reward
  pub round : Option ℕ
  pub max_round : Option ℕ

-- `load_ctx`, of what the other tables say: the aggregate, today's plays and clears, and the rank.
unfoldable pub load_ctx : MinigameAggregate → ℕ × ℕ → Option ℕ → Day → Store → Ctx
unfolding signin_stat
load_ctx agg (plays, clears) rank today s =
    let (total, signed, streak) = signin_stat today s.signin in
    record {
      agg = agg;
      plays = plays;
      clears = clears;
      signin_total = total;
      signed_today = signed;
      signin_streak = streak;
      rank = rank;
    }

unfoldable pub day_of : SimpleDef → Day → Day
day_of d today = if d.daily then today else epoch

unfoldable pub build_simple : SimpleDef → Ctx → Day → Store → TaskView
unfolding day_of value display
build_simple d c today s = record {
  task_id = d.id;
  target = d.target;
  current = display c d.metric;
  status =
      if is_claimed d.id (day_of d today) s
      then claimed
      else if leb d.target (value c d.metric)
      then completed
      else in_progress;
  rewards = d.rewards;
  round = none;
  max_round = none;
}

-- All rounds of an achievement with a cap are done.
unfoldable pub is_done : Option ℕ → ℕ → Bool
is_done none step = false
is_done (some c) step = leb c step

abbrev last_round : Option ℕ → ℕ
last_round none = 0
last_round (some c) = c

unfoldable pub build_ach : AchDef → Ctx → ℕ → TaskView
unfolding is_done satisfied threshold rewards cap value display
build_ach d c step =
    if is_done (cap d.kind) step
    then record {
      task_id = d.id;
      target = 0;
      current = 0;
      status = done_all;
      rewards = [];
      round = some (last_round (cap d.kind));
      max_round = cap d.kind;
    }
    else record {
      task_id = d.id;
      target = threshold d.kind step;
      current = display c d.metric;
      status = if satisfied d (value c d.metric) step then completed else in_progress;
      rewards = rewards d.kind step;
      round = some (step + 1);
      max_round = cap d.kind;
    }

-- `get_tasks`: main tasks, achievements and daily tasks.
unfoldable pub get_tasks : Ctx → Day → Store → List TaskView × (List TaskView × List TaskView)
unfolding build_simple build_ach main_defs daily_defs ach_defs
get_tasks c today s = (
  map (λ d. build_simple d c today s) main_defs,
  (
    map (λ d. build_ach d c (get_step d.id s)) ach_defs,
    map (λ d. build_simple d c today s) daily_defs,
  ),
)

-- What a claim is answered: the rewards and the next round, or why there are none.
pub data Answer : Type 0 where
  paid : List Reward → Option TaskView → Answer
  not_completed already_claimed all_rounds_completed not_found : Answer

-- The answer to a claim whose row was written or not.
pub answer_claim : List Reward → Option TaskView → Store × Bool → Store × Answer
answer_claim rs next (s, true) = (s, paid rs next)
answer_claim rs next (s, false) = (s, already_claimed)

unfoldable pub claim_simple : Bool → SimpleDef → Ctx → Day → Store → Store × Answer
unfolding answer_claim record_claim value day_of
claim_simple works d c today s =
    if ltb (value c d.metric) d.target
    then (s, not_completed)
    else answer_claim d.rewards none (record_claim works d.id (day_of d today) s)

unfoldable pub claim_ach : Bool → AchDef → Ctx → ℕ → Store → Store × Answer
unfolding answer_claim advance_step is_done satisfied rewards build_ach cap value
claim_ach works d c step s =
    if is_done (cap d.kind) step
    then (s, all_rounds_completed)
    else if satisfied d (value c d.metric) step
    then answer_claim (rewards d.kind step)
        (if is_done (cap d.kind) (step + 1) then none else some (build_ach d c (step + 1)))
        (advance_step works d.id step s)
    else (s, not_completed)

unfoldable pub find_simple : TaskId → List SimpleDef → Option SimpleDef
find_simple id [] = none
find_simple id (d ∷ ds) = if same_text id d.id then some d else find_simple id ds

unfoldable pub find_ach : TaskId → List AchDef → Option AchDef
find_ach id [] = none
find_ach id (d ∷ ds) = if same_text id d.id then some d else find_ach id ds

claim_found : Bool → Option SimpleDef → Option AchDef → Ctx → Day → Store → Store × Answer
unfolding claim_simple claim_ach
claim_found works (some d) o c today s = claim_simple works d c today s
claim_found works none (some d) c today s = claim_ach works d c (get_step d.id s) s
claim_found works none none c today s = (s, not_found)

-- `claim_task`, once the game's key and the session are found valid.
unfoldable pub claim_task : Bool → TaskId → Ctx → Day → Store → Store × Answer
unfolding claim_found find_simple find_ach main_defs daily_defs ach_defs
claim_task works id c today s =
    claim_found works (find_simple id (main_defs ++ daily_defs)) (find_ach id ach_defs) c today s
