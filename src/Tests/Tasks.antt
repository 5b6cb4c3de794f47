-- ===== src/Tests/Tasks.antt =====
-- Tasks of src/api/minigame_tasks.rs.
use fourinarow_server.Base.{
  ◌+◌, ◌<◌, ◌≡◌, refl, ◌↔◌, Bool, true, false, Option, none, some, List, [], ◌∷◌, ◌++◌, arith,
}
use fourinarow_server.Tasks.{
  Day, Ctx, SimpleDef, AchDef, AchKind, Metric, Direction, RewardKind, main_defs, daily_defs,
  ach_defs, value,
}
use fourinarow_server.Tasks.Store.{
  Store, SigninStat, get_step, advance_step, is_claimed, record_claim, report_signin,
}
use fourinarow_server.Tasks.Service.{
  TaskView, build_simple, build_ach, claim_simple, claim_ach, claim_task, paid, find_simple,
  find_ach, completed, day_of,
}
use fourinarow_server.Tasks.Service.Shown.{claim_simple-completed, claim_ach-completed}
use fourinarow_server.Tasks.Service.Once.{Event, claim, sign_in, run, IsPaid, run-IsPaid_once}
use fourinarow_server.Tasks.Service.Rounds.{run-next_round, advance_step-once}
use fourinarow_server.Tasks.Signin.{report_all, written, day_count, IsStreak, report_all-IsStreak}

abbrev ctx : Ctx
ctx = record {
  agg = record { levels_cleared = 6; total_stars = 12; total_score = 120000 };
  plays = 2;
  clears = 1;
  signin_total = 0;
  signed_today = false;
  signin_streak = 0;
  rank = none;
}

abbrev store : Store
store = record { claims = []; progress = []; signin = none }

abbrev clear_5 : SimpleDef
clear_5 = record {
  id = "story_clear_5";
  metric = Metric.levels_cleared;
  target = 5;
  rewards = record { kind = RewardKind.gold_kind; amount = 500 } ∷ [];
  daily = false;
}

abbrev score_master : AchDef
score_master = record {
  id = "score_master";
  metric = Metric.total_score;
  direction = Direction.asc;
  kind = AchKind.uniform 1 50000 none RewardKind.gold_kind 500;
}

claim_simple-completed_example : ((build_simple clear_5 ctx 20000 store).status ≡ completed) ↔ (
    (claim_simple true clear_5 ctx 20000 store).1
    ≡ paid (build_simple clear_5 ctx 20000 store).rewards none)
claim_simple-completed_example = claim_simple-completed clear_5 ctx 20000 store

claim_ach-completed_example :
    let shown = build_ach score_master ctx (get_step "score_master" store) in
    (shown.status ≡ completed) ↔ (
      (next : Option TaskView) × ((claim_ach true score_master ctx
          (get_step "score_master" store)
          store).1
        ≡ paid shown.rewards next))
claim_ach-completed_example = claim_ach-completed score_master ctx store

clear_5-found : find_simple "story_clear_5" (main_defs ++ daily_defs) ≡ some clear_5
unfolding find_simple main_defs daily_defs
clear_5-found = refl

clear_5-IsPaid : IsPaid (claim_task true "story_clear_5" ctx 20000 store).1
unfolding claim_task claim_simple record_claim is_claimed value
clear_5-IsPaid = tt

-- Another claim fails in the database, and the player signs in, though the query for it is not answered.
abbrev events : List Event
events = claim false "story_clear_1" ctx 20000 ∷ sign_in false true 20001 ∷ []

run-IsPaid_once_example :
    ¬ IsPaid
      (claim_task true "story_clear_5" ctx 20001
        (run (claim_task true "story_clear_5" ctx 20000 store).0 events)).1
unfolding day_of
run-IsPaid_once_example =
    run-IsPaid_once "story_clear_5" clear_5 true true ctx ctx 20000 20001 store events clear_5-found
      clear_5-IsPaid refl

score_master-not_simple : find_simple "score_master" (main_defs ++ daily_defs) ≡ none
unfolding find_simple main_defs daily_defs
score_master-not_simple = refl

score_master-found : find_ach "score_master" ach_defs ≡ some score_master
unfolding find_ach ach_defs
score_master-found = refl

score_master-IsPaid : IsPaid (claim_task true "score_master" ctx 20000 store).1
unfolding claim_task get_step
score_master-IsPaid = tt

first-advance : (advance_step true "score_master" (get_step "score_master" store) store).1 ≡ true
unfolding advance_step
first-advance = refl

run-next_round_example :
    let s' = (claim_task true "score_master" ctx 20000 store).0 in
    (get_step "score_master" s' ≡ get_step "score_master" store + 1)
    × (get_step "score_master" store < get_step "score_master" (run s' events))
run-next_round_example =
    run-next_round "score_master" score_master true ctx 20000 store events score_master-not_simple
      score_master-found score_master-IsPaid

advance_step-once_example :
    (advance_step true "score_master"
      (get_step "score_master" store)
      (advance_step true "score_master" (get_step "score_master" store) store).0).1
    ≡ false
advance_step-once_example = advance_step-once true true "score_master" store first-advance

-- Two days in a row, twice on the second, after a gap; a report in the gap was not written down.
abbrev reports : List (Day × Bool)
reports = (11, true) ∷ (11, true) ∷ (10, true) ∷ (9, false) ∷ (7, true) ∷ []

reports-written : written reports ≡ 11 ∷ 11 ∷ 10 ∷ 7 ∷ []
unfolding written
reports-written = refl

report_all-IsStreak_example :
    (r : SigninStat) × ((report_all reports store).signin ≡ some r)
    × (r.last_date ≡ some 11)
    × (r.total ≡ day_count (11 ∷ 11 ∷ 10 ∷ 7 ∷ []))
    × IsStreak (11 ∷ 11 ∷ 10 ∷ 7 ∷ []) 11 r.streak
report_all-IsStreak_example =
    report_all-IsStreak store reports 11 (11 ∷ 10 ∷ 7 ∷ []) refl reports-written (omega arith)

-- The query of a second report on the day is not answered: the day is counted again, and the streak of
-- two days is gone.
counted_again :
    (report_signin false true 11 (report_all ((11, true) ∷ (10, true) ∷ []) store)).signin
    ≡ some (record { total = 3; last_date = some 11; streak = 1 })
unfolding report_signin report_all
counted_again = refl
