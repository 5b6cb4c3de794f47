-- ===== src/Tasks/Store.antt =====
-- src/database/minigame_tasks.rs: the rows of one user and one game, and what its statements do with
-- them. An insertion that meets a row of the same key updates it or does nothing, as the statement
-- says; a statement that the database fails is an argument where the code looks at it.
use text.Mathlib.Text as Text
use fourinarow_server.Base.{
  leb, ◌==◌, if◌then◌else◌, ℕ, suc, ◌+◌, Bool, true, false, ◌&&◌, ◌||◌, Option, none, some, List,
  [], ◌∷◌,
}
use fourinarow_server.Tasks.{TaskId, Day}

-- Equality of texts.
abbrev pub same_text : TaskId → TaskId → Bool
same_text a b = Text.◌==◌ a b

-- `minigame_signin_stat`.
pub record SigninStat : Type 0 where
  pub total : ℕ
  pub last_date : Option Day
  pub streak : ℕ

-- The rows of `minigame_task_claim`, of `minigame_task_achievement_progress` and of
-- `minigame_signin_stat`.
pub record Store : Type 0 where
  pub claims : List (TaskId × Day)
  pub progress : List (TaskId × ℕ)
  pub signin : Option SigninStat

unfoldable pub has_claim : TaskId → Day → List (TaskId × Day) → Bool
has_claim id day [] = false
has_claim id day ((i, d) ∷ rows) = same_text i id && d == day || has_claim id day rows

unfoldable pub is_claimed : TaskId → Day → Store → Bool
unfolding has_claim
is_claimed id day s = has_claim id day s.claims

-- `record_claim`, in a database that works or not.
unfoldable pub record_claim : Bool → TaskId → Day → Store → Store × Bool
unfolding is_claimed
record_claim works id day s =
    if works
    then if is_claimed id day s
      then (s, false)
      else (record s { claims = (id, day) ∷ s.claims }, true)
    else (s, false)

unfoldable pub row : TaskId → List (TaskId × ℕ) → Option ℕ
row id [] = none
row id ((i, step) ∷ rows) = if same_text i id then some step else row id rows

unfoldable pub get_step : TaskId → Store → ℕ
unfolding row
get_step id s = elim (row id s.progress) [ none ↦ 0 | some step ↦ step ]

-- `advance_step`: a new row has step 1, and an old one is advanced if it is at the expected step.
unfoldable pub advance_row : TaskId → ℕ → Option ℕ → Store → Store × Bool
advance_row id expected none s = (record s { progress = (id, 1) ∷ s.progress }, true)
advance_row id expected (some step) s =
    if step == expected
    then (record s { progress = (id, step + 1) ∷ s.progress }, true)
    else (s, false)

unfoldable pub advance_step : Bool → TaskId → ℕ → Store → Store × Bool
unfolding advance_row row
advance_step works id expected s =
    if works then advance_row id expected (row id s.progress) s else (s, false)

-- `signin`: the total, whether today is signed, and the streak.
unfoldable pub signed_on : Day → Option Day → Bool
signed_on today none = false
signed_on today (some last) = last == today

unfoldable pub signin_stat : Day → Option SigninStat → ℕ × Bool × ℕ
unfolding signed_on
signin_stat today none = (0, false, 0)
signin_stat today (some r) = (r.total, signed_on today r.last_date, r.streak)

-- `last` is the day before `today`.
unfoldable pub is_yesterday : Day → Day → Bool
is_yesterday last today = suc last == today

-- The new streak, and what is added to the total.
unfoldable pub new_streak : Day → Option SigninStat → ℕ × ℕ
unfolding is_yesterday
new_streak today none = (1, 1)
new_streak today (some r) = elim r.last_date [
  | none ↦ (1, 1)
  | some last ↦
      if last == today
      then (if leb 1 r.streak then r.streak else 1, 0)
      else if is_yesterday last today
      then (r.streak + 1, 1)
      else (1, 1)
]

unfoldable pub upsert_signin : Day → ℕ × ℕ → Option SigninStat → SigninStat
upsert_signin today (streak, bump) none = record {
  total = bump;
  last_date = some today;
  streak = streak;
}
upsert_signin today (streak, bump) (some r) = record {
  total = r.total + bump;
  last_date = some today;
  streak = streak;
}

-- `report_signin`, where the database answers the query or not, and does the insertion or not: without
-- an answer the report goes on as if there were no row.
unfoldable pub report_signin : Bool → Bool → Day → Store → Store
unfolding new_streak upsert_signin
report_signin reads writes today s =
    let prev = if reads then s.signin else none in
    if writes
    then record s { signin = some (upsert_signin today (new_streak today prev) s.signin) }
    else s
