-- ===== src/Tasks/Service/Once.antt =====
-- A reward of src/api/minigame_tasks.rs is paid once, whatever requests come between.
use text.Mathlib.TextEquality.{eq_iff}
use fourinarow_server.Base.{
  ltb, ◌==◌, Bool-cases, Option-cases, ℕ, ◌≡◌, refl, inl, inr, Bool, true, false, Option, none,
  some, List, [], ◌∷◌, ◌++◌, arith,
}
use fourinarow_server.Tasks.{
  TaskId, Day, Reward, Ctx, value, SimpleDef, main_defs, daily_defs, AchDef, cap, ach_defs,
  satisfied,
}
use fourinarow_server.Tasks.Store.{
  Store, same_text, has_claim, record_claim, get_step, row, advance_step, advance_row,
  report_signin,
}
use fourinarow_server.Tasks.Service.{
  Answer, paid, TaskView, day_of, is_done, claim_simple, claim_ach, claim_found, claim_task,
  answer_claim, find_simple, find_ach,
}

-- A request of the player that changes the rows; for a claim the database does the statement that
-- changes them or not, and for a sign-in it answers the query or not, and does the insertion or not.
pub data Event : Type 0 where
  claim : Bool → TaskId → Ctx → Day → Event
  sign_in : Bool → Bool → Day → Event

unfoldable pub step : Store → Event → Store
step s (claim works id c today) = (claim_task works id c today s).0
step s (sign_in reads writes today) = report_signin reads writes today s

unfoldable pub run : Store → List Event → Store
unfolding step
run s [] = s
run s (e ∷ es) = run (step s e) es

-- The claim is paid.
abbrev pub IsPaid : Answer → Type 0
IsPaid (paid rs next) = Unit
IsPaid _ = ⊥

pub answer_claim-claims :
    (rs : List Reward) (next : Option TaskView) (r : Store × Bool)
    → (answer_claim rs next r).0 ≡ r.0
unfolding answer_claim
answer_claim-claims rs next (s, true) = refl
answer_claim-claims rs next (s, false) = refl

record_claim-has_claim :
    (works : Bool) (id i : TaskId) (day d : Day) (s : Store)
    → has_claim i d s.claims ≡ true
    → has_claim i d (record_claim works id day s).0.claims ≡ true
unfolding record_claim has_claim
record_claim-has_claim works id i day d s h = ground arith

advance_step-claims :
    (works : Bool) (id : TaskId) (expected : ℕ) (s : Store)
    → (advance_step works id expected s).0.claims ≡ s.claims
unfolding advance_step
advance_step-claims works id expected s = elim (Option-cases (row id s.progress)) [
  | inl e ↦ rw e (unfold advance_row in ground arith)
  | inr (n, e) ↦ rw e (unfold advance_row in ground arith)
]

claim_simple-has_claim :
    (works : Bool) (d : SimpleDef) (c : Ctx) (today : Day) (i : TaskId) (day : Day) (s : Store)
    → has_claim i day s.claims ≡ true
    → has_claim i day (claim_simple works d c today s).0.claims ≡ true
unfolding claim_simple
claim_simple-has_claim works d c today i day s h =
    elim (Bool-cases (ltb (value c d.metric) d.target)) [
      | inl short ↦ rw short h
      | inr reached ↦
          rw
            (
              reached,
              answer_claim-claims d.rewards none (record_claim works d.id (day_of d today) s),
            )
            (record_claim-has_claim works d.id i (day_of d today) day s h)
    ]

claim_ach-claims :
    (works : Bool) (d : AchDef) (c : Ctx) (n : ℕ) (s : Store)
    → (claim_ach works d c n s).0.claims ≡ s.claims
unfolding claim_ach
claim_ach-claims works d c n s = elim (Bool-cases (is_done (cap d.kind) n)) [
  | inl done ↦ rw done refl
  | inr more ↦ elim (Bool-cases (satisfied d (value c d.metric) n)) [
    | inl good ↦ rw (more, good, answer_claim-claims) (advance_step-claims works d.id n s)
    | inr bad ↦ rw (more, bad) refl
  ]
]

claim_found-has_claim :
    (works : Bool) (o : Option SimpleDef) (p : Option AchDef) (c : Ctx) (today : Day) (i : TaskId)
    (day : Day) (s : Store)
    → has_claim i day s.claims ≡ true
    → has_claim i day (claim_found works o p c today s).0.claims ≡ true
unfolding claim_found
claim_found-has_claim works (some d) p c today i day s h =
    claim_simple-has_claim works d c today i day s h
claim_found-has_claim works none (some d) c today i day s h =
    rw (claim_ach-claims works d c (get_step d.id s) s) h
claim_found-has_claim works none none c today i day s h = h

report_signin-claims :
    (reads writes : Bool) (today : Day) (s : Store)
    → (report_signin reads writes today s).claims ≡ s.claims
unfolding report_signin
report_signin-claims reads true today s = refl
report_signin-claims reads false today s = refl

run-has_claim :
    (s : Store) (es : List Event) (i : TaskId) (day : Day)
    → has_claim i day s.claims ≡ true
    → has_claim i day (run s es).claims ≡ true
unfolding run step claim_task
run-has_claim s [] i day h = h
run-has_claim s (claim works id c today ∷ es) i day h =
    run-has_claim (step s (claim works id c today)) es i day (
      claim_found-has_claim works (find_simple id (main_defs ++ daily_defs)) (find_ach id ach_defs)
        c today i day s h)
run-has_claim s (sign_in reads writes today ∷ es) i day h =
    run-has_claim (step s (sign_in reads writes today)) es i day
      (rw (report_signin-claims reads writes today s) h)

pub same_text_refl : (id : TaskId) → same_text id id ≡ true
same_text_refl id = (eq_iff id id).1 refl

record_claim-recorded :
    (works : Bool) (id : TaskId) (day : Day) (s : Store)
    → (record_claim works id day s).1 ≡ true
    → has_claim id day (record_claim works id day s).0.claims ≡ true
unfolding record_claim has_claim
record_claim-recorded works id day s h =
    let same = same_text_refl id in let today : (day == day) ≡ true = ground arith in ground arith

pub answer_claim-paid :
    (rs : List Reward) (next : Option TaskView) (r : Store × Bool)
    → IsPaid (answer_claim rs next r).1
    → r.1 ≡ true
unfolding answer_claim
answer_claim-paid rs next (s, true) h = refl
answer_claim-paid rs next (s, false) h = absurd h

claim_simple-recorded :
    (works : Bool) (d : SimpleDef) (c : Ctx) (today : Day) (s : Store)
    → IsPaid (claim_simple works d c today s).1
    → has_claim d.id (day_of d today) (claim_simple works d c today s).0.claims ≡ true
unfolding claim_simple
claim_simple-recorded works d c today s h = elim (Bool-cases (ltb (value c d.metric) d.target)) [
  | inl short ↦ absurd (let bad : ⊥ = rw short at h in bad)
  | inr reached ↦
      let written = record_claim works d.id (day_of d today) s in
      rw (reached, answer_claim-claims d.rewards none written)
        (record_claim-recorded works d.id (day_of d today) s
          (answer_claim-paid d.rewards none written (rw reached at h)))
]

claimed-unpaid :
    (works : Bool) (d : SimpleDef) (c : Ctx) (today : Day) (s : Store)
    → has_claim d.id (day_of d today) s.claims ≡ true
    → ¬ IsPaid (claim_simple works d c today s).1
unfolding claim_simple record_claim
claimed-unpaid works d c today s old h = elim (Bool-cases (ltb (value c d.metric) d.target)) [
  | inl short ↦ (let bad : ⊥ = rw short at h in bad)
  | inr reached ↦
      let won =
        answer_claim-paid d.rewards none (record_claim works d.id (day_of d today) s)
          (rw reached at h) in
      absurd (ground arith)
]

-- Once a claim of a main or daily task has been paid, no claim of it is paid again, whatever requests
-- come between: ever, if it is a main task, and on the same day, if it is a daily one.
pub run-IsPaid_once :
    (id : TaskId) (d : SimpleDef) (works works' : Bool) (c c' : Ctx) (today today' : Day)
    (s : Store) (es : List Event)
    → find_simple id (main_defs ++ daily_defs) ≡ some d
    → IsPaid (claim_task works id c today s).1
    → day_of d today ≡ day_of d today'
    → ¬ IsPaid (claim_task works' id c' today' (run (claim_task works id c today s).0 es)).1
unfolding claim_task claim_found
run-IsPaid_once id d works works' c c' today today' s es found first same_day =
    let first' : IsPaid (claim_simple works d c today s).1 = rw found at first in
    let kept =
      run-has_claim (claim_simple works d c today s).0 es d.id (day_of d today)
        (claim_simple-recorded works d c today s first') in
    rw found (
      claimed-unpaid works' d c' today' (run (claim_simple works d c today s).0 es)
        (rw (← same_day) kept))
