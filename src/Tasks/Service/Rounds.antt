-- ===== src/Tasks/Service/Rounds.antt =====
-- The rounds of an achievement of src/api/minigame_tasks.rs.
use text.Mathlib.TextEquality.{eq_iff}
use fourinarow_server.Base.{
  ltb, ◌==◌, Bool-cases, ℕ, ◌+◌, ◌≤◌, ◌<◌, ◌≡◌, refl, sym, ap, inl, inr, Bool, true, false, Option,
  none, some, List, [], ◌∷◌, ◌++◌, arith,
}
use fourinarow_server.Tasks.{
  TaskId, Day, Ctx, value, SimpleDef, main_defs, daily_defs, AchDef, cap, ach_defs, satisfied,
}
use fourinarow_server.Tasks.Store.{
  Store, same_text, record_claim, get_step, row, advance_step, advance_row, report_signin,
}
use fourinarow_server.Tasks.Service.{
  day_of, is_done, claim_simple, claim_ach, claim_found, claim_task, find_simple, find_ach,
}
use fourinarow_server.Tasks.Service.Once.{
  Event, claim, sign_in, step, run, IsPaid, answer_claim-claims, answer_claim-paid, same_text_refl,
}

abbrev step_in : Option ℕ → ℕ
step_in none = 0
step_in (some n) = n

get_step-row : (id : TaskId) (s : Store) → get_step id s ≡ step_in (row id s.progress)
unfolding get_step
get_step-row id s = ground arith

same_row : (a b : TaskId) (s : Store) → same_text a b ≡ true → row b s.progress ≡ row a s.progress
same_row a b s h = ap (λ i. row i s.progress) (sym ((eq_iff a b).0 h))

advance_row-grows :
    (id i : TaskId) (n : ℕ) (o : Option ℕ) (s : Store)
    → row id s.progress ≡ o
    → step_in (row i s.progress) ≤ step_in (row i (advance_row id n o s).0.progress)
unfolding advance_row row
advance_row-grows id i n none s e = elim (Bool-cases (same_text id i)) [
  | inl same ↦ rw (same, same_row id i s same, e) (omega arith)
  | inr other ↦ rw other (omega arith)
]
advance_row-grows id i n (some m) s e = elim (Bool-cases (m == n)) [
  | inl now ↦ elim (Bool-cases (same_text id i)) [
    | inl same ↦ rw (now, same, same_row id i s same, e) (omega arith)
    | inr other ↦ rw (now, other) (omega arith)
  ]
  | inr late ↦ rw late (omega arith)
]

advance_step-grows :
    (works : Bool) (id i : TaskId) (n : ℕ) (s : Store)
    → get_step i s ≤ get_step i (advance_step works id n s).0
unfolding advance_step
advance_step-grows works id i n s =
    let grows = advance_row-grows id i n (row id s.progress) s refl in
    rw (get_step-row i s, get_step-row i (advance_step works id n s).0)
      (elim (Bool-cases works) [ inl on ↦ rw on grows | inr off ↦ rw off (omega arith) ])

record_claim-progress :
    (works : Bool) (id : TaskId) (day : Day) (s : Store)
    → (record_claim works id day s).0.progress ≡ s.progress
unfolding record_claim
record_claim-progress works id day s = ground arith

claim_simple-progress :
    (works : Bool) (d : SimpleDef) (c : Ctx) (today : Day) (s : Store)
    → (claim_simple works d c today s).0.progress ≡ s.progress
unfolding claim_simple
claim_simple-progress works d c today s = elim (Bool-cases (ltb (value c d.metric) d.target)) [
  | inl short ↦ rw short refl
  | inr reached ↦
      rw (reached, answer_claim-claims d.rewards none (record_claim works d.id (day_of d today) s))
        (record_claim-progress works d.id (day_of d today) s)
]

claim_ach-grows :
    (works : Bool) (d : AchDef) (c : Ctx) (i : TaskId) (n : ℕ) (s : Store)
    → get_step i s ≤ get_step i (claim_ach works d c n s).0
unfolding claim_ach
claim_ach-grows works d c i n s = elim (Bool-cases (is_done (cap d.kind) n)) [
  | inl done ↦ rw done (omega arith)
  | inr more ↦ elim (Bool-cases (satisfied d (value c d.metric) n)) [
    | inl good ↦ rw (more, good, answer_claim-claims) (advance_step-grows works d.id i n s)
    | inr bad ↦ rw (more, bad) (omega arith)
  ]
]

claim_found-grows :
    (works : Bool) (o : Option SimpleDef) (p : Option AchDef) (c : Ctx) (today : Day) (i : TaskId)
    (s : Store)
    → get_step i s ≤ get_step i (claim_found works o p c today s).0
unfolding claim_found
claim_found-grows works (some d) p c today i s =
    rw
      (
        get_step-row i s,
        get_step-row i (claim_simple works d c today s).0,
        claim_simple-progress works d c today s,
      )
      (omega arith)
claim_found-grows works none (some d) c today i s = claim_ach-grows works d c i (get_step d.id s) s
claim_found-grows works none none c today i s = omega arith

step-grows : (s : Store) (e : Event) (i : TaskId) → get_step i s ≤ get_step i (step s e)
unfolding step claim_task
step-grows s (claim works id c today) i =
    claim_found-grows works (find_simple id (main_defs ++ daily_defs)) (find_ach id ach_defs) c
      today i s
step-grows s (sign_in reads true today) i = unfold report_signin get_step in omega arith
step-grows s (sign_in reads false today) i = unfold report_signin get_step in omega arith

run-grows : (es : List Event) (s : Store) (i : TaskId) → get_step i s ≤ get_step i (run s es)
unfolding run
run-grows [] s i = omega arith
run-grows (e ∷ es) s i = omega (arith, step-grows s e i, run-grows es (step s e) i)

advance_row-won :
    (id : TaskId) (o : Option ℕ) (s : Store)
    → row id s.progress ≡ o
    → (advance_row id (step_in o) o s).1 ≡ true
    → step_in (row id (advance_row id (step_in o) o s).0.progress) ≡ step_in o + 1
unfolding advance_row row
advance_row-won id none s e h = rw (same_text_refl id) refl
advance_row-won id (some m) s e h =
    let now : (m == m) ≡ true = ground arith in rw (now, same_text_refl id) refl

advance_step-won :
    (works : Bool) (id : TaskId) (s : Store)
    → (advance_step works id (get_step id s) s).1 ≡ true
    → get_step id (advance_step works id (get_step id s) s).0 ≡ get_step id s + 1
unfolding advance_step
advance_step-won works id s h = elim (Bool-cases works) [
  | inr off ↦ absurd (let bad : false ≡ true = rw off at h in ground arith)
  | inl on ↦
      let o = row id s.progress in
      let h' : (advance_row id (step_in o) o s).1 ≡ true = rw (on, get_step-row id s) at h in
      rw (on, get_step-row id (advance_row id (get_step id s) o s).0, get_step-row id s)
        (advance_row-won id o s refl h')
]

claim_ach-won :
    (works : Bool) (d : AchDef) (c : Ctx) (s : Store)
    → IsPaid (claim_ach works d c (get_step d.id s) s).1
    → get_step d.id (claim_ach works d c (get_step d.id s) s).0 ≡ get_step d.id s + 1
unfolding claim_ach
claim_ach-won works d c s h =
    let n = get_step d.id s in
    elim (Bool-cases (is_done (cap d.kind) n)) [
      | inl done ↦ absurd (let bad : ⊥ = rw done at h in bad)
      | inr more ↦ elim (Bool-cases (satisfied d (value c d.metric) n)) [
        | inr bad ↦ absurd (let none_paid : ⊥ = rw (more, bad) at h in none_paid)
        | inl good ↦
            rw (more, good, answer_claim-claims)
              (advance_step-won works d.id s
                (answer_claim-paid _ _ (advance_step works d.id n s) (rw (more, good) at h)))
      ]
    ]

-- A paid claim of an achievement moves it to the round after the present one, and whatever claims
-- and sign-ins come afterwards, the achievement stays beyond the round that was paid.
pub run-next_round :
    (id : TaskId) (d : AchDef) (works : Bool) (c : Ctx) (today : Day) (s : Store) (es : List Event)
    → find_simple id (main_defs ++ daily_defs) ≡ none
    → find_ach id ach_defs ≡ some d
    → IsPaid (claim_task works id c today s).1
    → let s' = (claim_task works id c today s).0 in
      (get_step d.id s' ≡ get_step d.id s + 1) × (get_step d.id s < get_step d.id (run s' es))
unfolding claim_task claim_found
run-next_round id d works c today s es not_simple found h =
    let paid_now : IsPaid (claim_ach works d c (get_step d.id s) s).1 =
      rw (not_simple, found) at h in
    let next = claim_ach-won works d c s paid_now in
    rw (not_simple, found)
      (next, omega (arith, next, run-grows es (claim_ach works d c (get_step d.id s) s).0 d.id))

advanced_row :
    (id : TaskId) (o : Option ℕ) (s : Store)
    → row id (advance_row id (step_in o) o s).0.progress ≡ some (step_in o + 1)
unfolding advance_row row
advanced_row id none s = rw (same_text_refl id) refl
advanced_row id (some m) s =
    let now : (m == m) ≡ true = ground arith in rw (now, same_text_refl id) refl

stale_row :
    (id : TaskId) (n : ℕ) (o : Option ℕ) (s : Store)
    → o ≡ some (n + 1)
    → (advance_row id n o s).1 ≡ false
unfolding advance_row
stale_row id n o s e = let late : (n + 1 == n) ≡ false = ground arith in rw (e, late) refl

-- Of two claims of an achievement that have read the same round, and of which the database does the
-- update of the first, the update of the second is refused, since it meets a row that has moved on.
pub advance_step-once :
    (works works' : Bool) (id : TaskId) (s : Store)
    → (advance_step works id (get_step id s) s).1 ≡ true
    → (advance_step works' id (get_step id s) (advance_step works id (get_step id s) s).0).1 ≡ false
unfolding advance_step
advance_step-once works works' id s h = elim (Bool-cases works) [
  | inr off ↦ absurd (let bad : false ≡ true = rw off at h in ground arith)
  | inl on ↦ elim (Bool-cases works') [
    | inr off ↦ rw off refl
    | inl on' ↦
        let o = row id s.progress in
        rw (on, on', get_step-row id s) (stale_row id (step_in o) _ _ (advanced_row id o s))
  ]
]
