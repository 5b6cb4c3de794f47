-- ===== src/Tasks/Service/Shown.antt =====
-- What a player is shown of a task by src/api/minigame_tasks.rs, and what a claim of it is answered.
use fourinarow_server.Base.{
  ◌==◌, Bool-cases, Option-cases, ◌≡◌, refl, ◌↔◌, inl, inr, Bool, true, false, Option, none, List,
  arith,
}
use fourinarow_server.Tasks.{
  TaskId, Day, Reward, Ctx, value, SimpleDef, AchDef, cap, rewards, satisfied,
}
use fourinarow_server.Tasks.Store.{
  Store, is_claimed, record_claim, get_step, row, advance_step, advance_row,
}
use fourinarow_server.Tasks.Service.{
  completed, paid, day_of, build_simple, is_done, build_ach, TaskView, claim_simple, claim_ach,
  answer_claim,
}

-- A main or daily task is shown as completed exactly if a claim of it, in a database that works, is
-- paid with the rewards that are shown.
pub claim_simple-completed :
    (d : SimpleDef) (c : Ctx) (today : Day) (s : Store)
    → ((build_simple d c today s).status ≡ completed)
      ↔ ((claim_simple true d c today s).1 ≡ paid (build_simple d c today s).rewards none)
unfolding build_simple claim_simple record_claim answer_claim
claim_simple-completed d c today s = elim (Bool-cases (is_claimed d.id (day_of d today) s)) [
  | inl old ↦ rw (old, build_simple, record_claim) (ground arith)
  | inr new ↦ rw (new, build_simple, record_claim) (ground arith)
]

answer_claim-won :
    (rs : List Reward) (next : Option TaskView) (r : Store × Bool)
    → r.1 ≡ true
    → (answer_claim rs next r).1 ≡ paid rs next
unfolding answer_claim
answer_claim-won rs next (s, true) e = refl
answer_claim-won rs next (s, false) e = absurd (ground arith)

step_current : (id : TaskId) (s : Store) → (advance_step true id (get_step id s) s).1 ≡ true
unfolding advance_step get_step advance_row
step_current id s = elim (Option-cases (row id s.progress)) [
  | inl e ↦ rw (e, get_step) refl
  | inr (step, e) ↦ let same : (step == step) ≡ true = ground arith in rw (e, get_step, same) refl
]

-- The round of an achievement is shown as completed exactly if a claim of it, in a database that
-- works, is paid with the rewards that are shown.
pub claim_ach-completed :
    (d : AchDef) (c : Ctx) (s : Store)
    → let shown = build_ach d c (get_step d.id s) in
      (shown.status ≡ completed) ↔ (
        (next : Option TaskView) × ((claim_ach true d c (get_step d.id s) s).1
          ≡ paid shown.rewards next))
unfolding build_ach claim_ach
claim_ach-completed d c s =
    let n = get_step d.id s in
    elim (Bool-cases (is_done (cap d.kind) n)) [
      | inl done ↦ rw done (λ h. absurd (ground arith), λ p. absurd (let e = p.1 in ground arith))
      | inr more ↦ elim (Bool-cases (satisfied d (value c d.metric) n)) [
        | inl good ↦
            rw (more, good)
              (
                λ h. (
                  _,
                  answer_claim-won (rewards d.kind n) _ (advance_step true d.id n s)
                      (step_current d.id s),
                ),
                λ p. refl,
              )
        | inr bad ↦
            rw (more, bad) (λ h. absurd (ground arith), λ p. absurd (let e = p.1 in ground arith))
      ]
    ]
