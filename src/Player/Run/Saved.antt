-- ===== src/Player/Run/Saved.antt =====
-- What the saving of the buckets of src/player/repository.rs does to one entry of the cache.
pub mod Entry
use fourinarow_server.Base.{
  Dict, lookup, lookup-insert, ◌==◌, if◌then◌else◌, Bool-cases, Option-cases, is_some, ◌≡◌, refl,
  ◌∙◌, inl, inr, Bool, true, false, ◌&&◌, ◌||◌, Option, none, some, List, [], ◌∷◌, arith,
}
use mathlib.Core.Path.{subst}
use fourinarow_server.Player.{
  PlayerId, DirtyBucket, profile, game_info, inventory, quests, achievements, stats,
}
use fourinarow_server.Player.Cache.{
  same_bucket, DirtyBucketState, PlayerCacheEntry, select_buckets, all_buckets, dirty_buckets,
  clear_bucket,
}
use fourinarow_server.Player.Repository.{
  PlayerRepository, Environment, with_entry, unchanged, saved, attempted, not_saved, flush_bucket,
  flush_each, flush_entry, flush_player_buckets, flush_dirty, flush_player,
}
use fourinarow_server.Player.Run.{alone}

contains : DirtyBucket → List DirtyBucket → Bool
contains c [] = false
contains c (b ∷ buckets) = same_bucket b c || contains c buckets

abbrev Once : List DirtyBucket → Type 0
Once [] = Unit
Once (b ∷ buckets) = (contains b buckets ≡ false) × Once buckets

same_bucket_eq : (b c : DirtyBucket) → same_bucket b c ≡ true → b ≡ c
unfolding same_bucket
same_bucket_eq profile profile e = refl
same_bucket_eq game_info game_info e = refl
same_bucket_eq inventory inventory e = refl
same_bucket_eq quests quests e = refl
same_bucket_eq achievements achievements e = refl
same_bucket_eq stats stats e = refl
same_bucket_eq _ _ e = cc

contains-select_buckets :
    (c : DirtyBucket) (test : DirtyBucket → Bool) (buckets : List DirtyBucket)
    → contains c (select_buckets test buckets) ≡ (contains c buckets && test c)
unfolding contains select_buckets
contains-select_buckets c test [] = refl
contains-select_buckets c test (b ∷ buckets) =
    let rest : contains c (select_buckets test buckets) ≡ (contains c buckets && test c) =
      contains-select_buckets c test buckets in
    elim (Bool-cases (same_bucket b c)) [
      | inr other ↦ elim (Bool-cases (test b)) [
        | inl chosen ↦ rw (chosen, other) rest
        | inr left ↦ rw (left, other) rest
      ]
      | inl same ↦
          let here : b ≡ c = same_bucket_eq b c same in
          elim (Bool-cases (test b)) [
            | inl chosen ↦
                let that : test c ≡ true = (rw here at chosen) in rw (chosen, same, that) refl
            | inr left ↦
                let that : test c ≡ false = (rw here at left) in
                rw (left, same, that) (rest ∙ (ground (arith, that)))
          ]
    ]

select_buckets-Once :
    (test : DirtyBucket → Bool) (buckets : List DirtyBucket)
    → Once buckets
    → Once (select_buckets test buckets)
unfolding select_buckets
select_buckets-Once test [] h = tt
select_buckets-Once test (b ∷ buckets) h = elim (Bool-cases (test b)) [
  | inl chosen ↦
      rw chosen (
        contains-select_buckets b test buckets ∙ rw (h.0) refl,
        select_buckets-Once test buckets h.1,
      )
  | inr left ↦ rw left (select_buckets-Once test buckets h.1)
]

-- What the saving of one bucket does to the entry.
step : Environment → PlayerCacheEntry → DirtyBucket → PlayerCacheEntry → PlayerCacheEntry
step env old b e = if env.saves b then saved old b e else not_saved b e

steps : Environment → PlayerCacheEntry → List DirtyBucket → PlayerCacheEntry → PlayerCacheEntry
steps env old [] e = e
steps env old (b ∷ buckets) e = steps env old buckets (step env old b e)

step-aggregate :
    (env : Environment) (old : PlayerCacheEntry) (b : DirtyBucket) (e : PlayerCacheEntry)
    → (step env old b e).aggregate ≡ e.aggregate
unfolding step saved not_saved clear_bucket
step-aggregate env old b e = elim (Bool-cases (env.saves b)) [
  | inr fails ↦ rw fails refl
  | inl works ↦ elim (Bool-cases (unchanged (e.dirty b) (old.dirty b))) [
    | inl same ↦ rw (works, same) refl
    | inr other ↦ rw (works, other) refl
  ]
]

step-other :
    (env : Environment) (old : PlayerCacheEntry) (b c : DirtyBucket) (e : PlayerCacheEntry)
    → same_bucket b c ≡ false
    → (step env old b e).dirty c ≡ e.dirty c
unfolding step saved not_saved clear_bucket
step-other env old b c e apart = elim (Bool-cases (env.saves b)) [
  | inr fails ↦ rw (fails, apart) refl
  | inl works ↦ elim (Bool-cases (unchanged (e.dirty b) (old.dirty b))) [
    | inl same ↦ rw (works, same, apart) refl
    | inr other ↦ rw (works, other) refl
  ]
]

-- A bucket after its saving: it is clean, or one attempt more was made.
abbrev pub after_saving :
    Environment → DirtyBucket → Option DirtyBucketState → Option DirtyBucketState
after_saving env b s = if env.saves b then none else attempted s

same_bucket_refl : (b : DirtyBucket) → same_bucket b b ≡ true
unfolding same_bucket
same_bucket_refl profile = refl
same_bucket_refl game_info = refl
same_bucket_refl inventory = refl
same_bucket_refl quests = refl
same_bucket_refl achievements = refl
same_bucket_refl stats = refl

saved-dirty :
    (old e : PlayerCacheEntry) (b : DirtyBucket) (s : Option DirtyBucketState)
    → old.dirty b ≡ s
    → e.dirty b ≡ s
    → (saved old b e).dirty b ≡ none
unfolding saved clear_bucket unchanged
saved-dirty old e b none o h = rw h h
saved-dirty old e b (some s) o h =
    let same : (s.changed_at == s.changed_at) ≡ true = ground arith in
    rw (h, o, same, same_bucket_refl b) refl

step-dirty :
    (env : Environment) (old : PlayerCacheEntry) (b : DirtyBucket) (e : PlayerCacheEntry)
    → e.dirty b ≡ old.dirty b
    → (step env old b e).dirty b ≡ after_saving env b (old.dirty b)
unfolding step not_saved
step-dirty env old b e h = elim (Bool-cases (env.saves b)) [
  | inl works ↦ rw works (saved-dirty old e b (old.dirty b) refl h)
  | inr fails ↦ rw (fails, same_bucket_refl b, h) refl
]

steps-aggregate :
    (env : Environment) (old : PlayerCacheEntry) (buckets : List DirtyBucket) (e : PlayerCacheEntry)
    → (steps env old buckets e).aggregate ≡ e.aggregate
unfolding steps
steps-aggregate env old [] e = refl
steps-aggregate env old (b ∷ buckets) e =
    steps-aggregate env old buckets (step env old b e) ∙ step-aggregate env old b e

steps-other :
    (env : Environment) (old : PlayerCacheEntry) (c : DirtyBucket) (buckets : List DirtyBucket)
    (e : PlayerCacheEntry)
    → contains c buckets ≡ false
    → (steps env old buckets e).dirty c ≡ e.dirty c
unfolding steps contains
steps-other env old c [] e h = refl
steps-other env old c (b ∷ buckets) e h =
    let apart : same_bucket b c ≡ false = ground (arith, h) in
    let rest : contains c buckets ≡ false = ground (arith, h) in
    steps-other env old c buckets (step env old b e) rest ∙ step-other env old b c e apart

steps-dirty :
    (env : Environment) (old : PlayerCacheEntry) (c : DirtyBucket) (buckets : List DirtyBucket)
    (e : PlayerCacheEntry)
    → Once buckets
    → contains c buckets ≡ true
    → e.dirty c ≡ old.dirty c
    → (steps env old buckets e).dirty c ≡ after_saving env c (old.dirty c)
unfolding steps contains
steps-dirty env old c [] e once h same = cc
steps-dirty env old c (b ∷ buckets) e once h same = elim (Bool-cases (same_bucket b c)) [
  | inl this ↦
      let here : b ≡ c = same_bucket_eq b c this in
      let no_more : contains c buckets ≡ false = (rw here at once.0) in
      steps-other env old c buckets (step env old b e) no_more
      ∙ rw here (step-dirty env old c e same)
  | inr apart ↦
      let rest : contains c buckets ≡ true = (rw apart at h) in
      steps-dirty env old c buckets (step env old b e) once.1 rest
        (step-other env old b c e apart ∙ same)
]
