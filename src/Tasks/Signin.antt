-- ===== src/Tasks/Signin.antt =====
-- The sign-ins of src/database/minigame_tasks.rs against the days on which a player signed in.
use fourinarow_server.Base.{
  All, Any, leb, ◌==◌, if◌then◌else◌, Bool-cases, ℕ, suc, ◌+◌, ◌≤◌, ◌<◌, ◌≡◌, refl, ap, ◌∙◌, ◌↔◌,
  inl, inr, Bool, true, false, ◌||◌, Option, none, some, List, [], ◌∷◌, arith, ℕ_discrete,
}
use fourinarow_server.Tasks.{Day}
use fourinarow_server.Tasks.Store.{
  Store, SigninStat, new_streak, is_yesterday, upsert_signin, report_signin,
}

-- The row after reports on some days, the latest first.
unfoldable pub reported : List Day → Option SigninStat
unfolding new_streak upsert_signin
reported [] = none
reported (d ∷ ds) = some (upsert_signin d (new_streak d (reported ds)) (reported ds))

-- No report is on an earlier day than one before it.
abbrev pub InOrder : List Day → Type 0
InOrder [] = Unit
InOrder (d ∷ ds) = All (λ e. e ≤ d) ds × InOrder ds

abbrev pub On : Day → List Day → Type 0
On d ds = Any (λ e. e ≡ d) ds

unfoldable pub is_on : Day → List Day → Bool
is_on d [] = false
is_on d (e ∷ es) = e == d || is_on d es

-- The number of different days.
unfoldable pub day_count : List Day → ℕ
unfolding is_on
day_count [] = 0
day_count (d ∷ ds) = if is_on d ds then day_count ds else suc (day_count ds)

-- The streak covers the days on which there was a report without a gap, up to the last.
pub record IsStreak (ds : List Day) (last streak : ℕ) : Type 0 where
  pub positive : 0 < streak
  pub covered : (d : Day) → d ≤ last → last < d + streak → On d ds
  pub stops : (d : Day) → d + streak ≡ last → ¬ On d ds

record Fits (ds : List Day) (last : Day) (r : SigninStat) : Type 0 where
  dated : r.last_date ≡ some last
  counted : r.total ≡ day_count ds
  streaked : IsStreak ds last r.streak

is_on-On : (d : Day) (ds : List Day) → (is_on d ds ≡ true) ↔ On d ds
unfolding is_on
is_on-On d [] = (λ h. absurd (ground arith), λ h. absurd h)
is_on-On d (e ∷ ds) = let rest = is_on-On d ds in (λ h. ground arith, λ h. ground arith)

after-All : (d : Day) (ds : List Day) (e : Day) → All (λ x. x ≤ d) ds → On e ds → e ≤ d
after-All d [] e a h = absurd h
after-All d (x ∷ ds) e a (inl h) = omega (arith, a.0)
after-All d (x ∷ ds) e a (inr h) = after-All d ds e a.1 h

count_again : (d : Day) (ds : List Day) → On d ds → day_count (d ∷ ds) ≡ day_count ds
unfolding day_count
count_again d ds h = rw ((is_on-On d ds).1 h) refl

count_new : (d : Day) (ds : List Day) → ¬ On d ds → day_count (d ∷ ds) ≡ suc (day_count ds)
unfolding day_count
count_new d ds h = elim (Bool-cases (is_on d ds)) [
  | inl on ↦ absurd (h ((is_on-On d ds).0 on))
  | inr off ↦ rw off refl
]

again-IsStreak : (d : Day) (ds : List Day) (n : ℕ) → IsStreak ds d n → IsStreak (d ∷ ds) d n
again-IsStreak d ds n v = record {
  positive = v.positive;
  covered = λ e h l. inr (v.covered e h l);
  stops = λ e h on. elim on [
    | inl this ↦ absurd (let p = v.positive in omega arith)
    | inr older ↦ v.stops e h older
  ];
}

next-IsStreak :
    (last d : Day) (ds : List Day) (n : ℕ)
    → suc last ≡ d
    → IsStreak ds last n
    → IsStreak (d ∷ ds) d (n + 1)
next-IsStreak last d ds n e v = record {
  positive = omega arith;
  covered = λ x h l. elim (ℕ_discrete d x) [
    | yes this ↦ inl this
    | no earlier ↦ inr (v.covered x (omega arith) (omega arith))
  ];
  stops = λ x h on. elim on [
    | inl this ↦ absurd (omega arith)
    | inr older ↦ v.stops x (omega arith) older
  ];
}

first-IsStreak :
    (d : Day) (ds : List Day) → ((x : Day) → On x ds → suc x < d) → IsStreak (d ∷ ds) d 1
first-IsStreak d ds gap = record {
  positive = omega arith;
  covered = λ x h l. inl (omega arith);
  stops = λ x h on. elim on [
    | inl this ↦ absurd (omega arith)
    | inr older ↦ absurd (let g = gap x older in omega arith)
  ];
}

-- The three ways in which a report goes on from the last one.
streak_again :
    (last d : Day) (r : SigninStat)
    → r.last_date ≡ some last
    → (last == d) ≡ true
    → 0 < r.streak
    → new_streak d (some r) ≡ (r.streak, 0)
unfolding new_streak
streak_again last d r e same p =
    let some_days : leb 1 r.streak ≡ true = ground arith in rw (e, new_streak, same, some_days) refl

streak_next :
    (last d : Day) (r : SigninStat)
    → r.last_date ≡ some last
    → (last == d) ≡ false
    → (suc last == d) ≡ true
    → new_streak d (some r) ≡ (r.streak + 1, 1)
unfolding new_streak is_yesterday
streak_next last d r e later next = rw (e, new_streak, later, next) refl

streak_first :
    (last d : Day) (r : SigninStat)
    → r.last_date ≡ some last
    → (last == d) ≡ false
    → (suc last == d) ≡ false
    → new_streak d (some r) ≡ (1, 1)
unfolding new_streak is_yesterday
streak_first last d r e later gap = rw (e, new_streak, later, gap) refl

next-Fits :
    (last d : Day) (ds : List Day) (r : SigninStat)
    → Fits ds last r
    → On last ds
    → ((x : Day) → On x ds → x ≤ last)
    → last ≤ d
    → Fits (d ∷ ds) d (upsert_signin d (new_streak d (some r)) (some r))
unfolding upsert_signin
next-Fits last d ds r f there latest order = elim (Bool-cases (last == d)) [
  | inl same ↦
      let here : last ≡ d = ground arith in
      let there' : On d ds = rw here at there in
      let streaked : IsStreak ds d r.streak = rw here at f.streaked in
      rw (streak_again last d r f.dated same f.streaked.positive) (record {
        dated = refl;
        counted = rw (count_again d ds there', f.counted) (omega arith);
        streaked = again-IsStreak d ds r.streak streaked;
      })
  | inr later ↦
      let before : (x : Day) → On x ds → x < d = λ x on. (let old = latest x on in ground arith) in
      let counted : r.total + 1 ≡ day_count (d ∷ ds) =
        rw (count_new d ds (λ on. (let bad = before d on in omega arith)), f.counted)
          (omega arith) in
      elim (Bool-cases (suc last == d)) [
        | inl next ↦
            let adjacent : suc last ≡ d = ground arith in
            rw (streak_next last d r f.dated later next) (record {
              dated = refl;
              counted = counted;
              streaked = next-IsStreak last d ds r.streak adjacent f.streaked;
            })
        | inr gap ↦ rw (streak_first last d r f.dated later gap) (record {
          dated = refl;
          counted = counted;
          streaked = first-IsStreak d ds (λ x on. (let old = latest x on in ground arith));
        })
      ]
]

reported-Fits :
    (d : Day) (ds : List Day)
    → InOrder (d ∷ ds)
    → (r : SigninStat) × (reported (d ∷ ds) ≡ some r) × Fits (d ∷ ds) d r
unfolding reported
reported-Fits d [] o = (
  upsert_signin d (new_streak d none) none,
  refl,
  unfold new_streak upsert_signin in
      record {
        dated = refl;
        counted = unfold day_count is_on in refl;
        streaked = first-IsStreak d [] (λ x on. absurd on);
      },
)
reported-Fits d (e ∷ ds) o =
    let (r, same, f) = reported-Fits e ds o.1 in
    (
      upsert_signin d (new_streak d (some r)) (some r),
      ap (λ o. some (upsert_signin d (new_streak d o) o)) same,
      next-Fits e d (e ∷ ds) r f (inl refl)
          (λ x on. elim on [ inl this ↦ omega arith | inr older ↦ after-All e ds x o.1.0 older ])
          o.0.0,
    )

-- The rows after reports, the latest first: on which day, and whether the database does the insertion.
-- It answers all queries.
unfoldable pub report_all : List (Day × Bool) → Store → Store
report_all [] s = s
report_all ((d, writes) ∷ reports) s = report_signin true writes d (report_all reports s)

-- The days of the reports that the database wrote down.
unfoldable pub written : List (Day × Bool) → List Day
written [] = []
written ((d, writes) ∷ reports) = let rest = written reports in if writes then d ∷ rest else rest

report_all-reported :
    (reports : List (Day × Bool)) (s : Store)
    → s.signin ≡ none
    → (report_all reports s).signin ≡ reported (written reports)
unfolding report_all reported report_signin written
report_all-reported [] s e = e
report_all-reported ((d, true) ∷ reports) s e =
    ap (λ o. some (upsert_signin d (new_streak d o) o)) (report_all-reported reports s e)
report_all-reported ((d, false) ∷ reports) s e = report_all-reported reports s e

-- Let the database answer each query of the reports of a player who had no row, do some of their insertions
-- and fail at others, and let the days of those that it does be in order, with `d` the last. Then the
-- row has that day, its total is the number of different days among them, and its streak is at least
-- one and covers the days up to the last without a gap as far back as each is among them.
pub report_all-IsStreak :
    (s : Store) (reports : List (Day × Bool)) (d : Day) (ds : List Day)
    → s.signin ≡ none
    → written reports ≡ d ∷ ds
    → InOrder (d ∷ ds)
    → (r : SigninStat) × ((report_all reports s).signin ≡ some r)
      × (r.last_date ≡ some d)
      × (r.total ≡ day_count (d ∷ ds))
      × IsStreak (d ∷ ds) d r.streak
report_all-IsStreak s reports d ds e days o =
    let (r, same, f) = reported-Fits d ds o in
    (r, report_all-reported reports s e ∙ ap reported days ∙ same, f.dated, f.counted, f.streaked)
