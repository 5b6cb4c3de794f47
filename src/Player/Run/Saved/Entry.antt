-- ===== src/Player/Run/Saved/Entry.antt =====
-- What a flush of src/player/repository.rs leaves of the entries of the cache.
use fourinarow_server.Base.{
  Dict, lookup, lookup-insert, ◌==◌, if◌then◌else◌, Bool-cases, Option-cases, is_some, ◌≡◌, refl,
  ◌∙◌, inl, inr, true, false, none, some, List, [], ◌∷◌, arith,
}
use fourinarow_server.Player.{
  PlayerId, DirtyBucket, profile, game_info, inventory, quests, achievements, stats,
}
use fourinarow_server.Player.Cache.{same_bucket, PlayerCacheEntry, all_buckets, dirty_buckets}
use fourinarow_server.Player.Repository.{
  PlayerRepository, Environment, with_entry, saved, attempted, not_saved, flush_bucket, flush_each,
  flush_entry, flush_player_buckets, flush_dirty, flush_player,
}
use fourinarow_server.Player.Run.{alone}
use fourinarow_server.Player.Run.Saved.{
  Once, after_saving, contains, contains-select_buckets, select_buckets-Once, step, steps,
  steps-aggregate, steps-dirty, steps-other,
}

-- The entry in the cache.
with_entry-lookup :
    (u v : PlayerId) (f : PlayerCacheEntry → PlayerCacheEntry) (cache : Dict PlayerCacheEntry)
    (e : PlayerCacheEntry)
    → lookup u cache ≡ some e
    → lookup v (with_entry u f cache) ≡ (if u == v then some (f e) else lookup v cache)
unfolding with_entry
with_entry-lookup u v f cache e found = rw (with_entry, found, lookup-insert v u) refl

flush_bucket-lookup :
    (env : Environment) (u v : PlayerId) (old : PlayerCacheEntry) (b : DirtyBucket)
    (r : PlayerRepository) (e : PlayerCacheEntry)
    → lookup u r.cache ≡ some e
    → lookup v (flush_bucket (alone env) u old b r).cache
      ≡ (if u == v then some (step env old b e) else lookup v r.cache)
unfolding flush_bucket step
flush_bucket-lookup env u v old b r e found = elim (Bool-cases (env.saves b)) [
  | inl works ↦ rw works (with_entry-lookup u v (saved old b) r.cache e found)
  | inr fails ↦ rw fails (with_entry-lookup u v (not_saved b) r.cache e found)
]

flush_each-lookup :
    (env : Environment) (u : PlayerId) (old : PlayerCacheEntry) (buckets : List DirtyBucket)
    (r : PlayerRepository) (e : PlayerCacheEntry)
    → lookup u r.cache ≡ some e
    → (lookup u (flush_each (alone env) u old buckets r).1.cache ≡ some (steps env old buckets e))
      × ((v : PlayerId)
          → (u == v) ≡ false
          → lookup v (flush_each (alone env) u old buckets r).1.cache ≡ lookup v r.cache)
unfolding flush_each steps
flush_each-lookup env u old [] r e found = (found, λ v other. refl)
flush_each-lookup env u old (b ∷ buckets) r e found =
    let same : (u == u) ≡ true = ground arith in
    let now : lookup u (flush_bucket (alone env) u old b r).cache ≡ some (step env old b e) =
      flush_bucket-lookup env u u old b r e found ∙ rw same refl in
    let (own, others) =
      flush_each-lookup env u old buckets (flush_bucket (alone env) u old b r) (step env old b e)
        now in
    (own, λ v other. others v other ∙ (flush_bucket-lookup env u v old b r e found ∙ rw other refl))

buckets-each :
    (env : Environment) (u : PlayerId) (buckets : List DirtyBucket) (r : PlayerRepository)
    (e : PlayerCacheEntry)
    → lookup u r.cache ≡ some e
    → flush_player_buckets env u buckets r ≡ flush_each env u e buckets r
unfolding flush_player_buckets flush_each
buckets-each env u [] r e found = refl
buckets-each env u (b ∷ buckets) r e found = rw (flush_entry, found) refl

flush_player-each :
    (env : Environment) (u : PlayerId) (r : PlayerRepository) (e : PlayerCacheEntry)
    → lookup u r.cache ≡ some e
    → flush_player env u r ≡ flush_each env u e (dirty_buckets e) r
unfolding flush_player flush_dirty
flush_player-each env u r e found =
    rw (flush_dirty, found) (buckets-each env u (dirty_buckets e) r e found)

all_contained : (c : DirtyBucket) → contains c all_buckets ≡ true
unfolding contains same_bucket
all_contained profile = refl
all_contained game_info = refl
all_contained inventory = refl
all_contained quests = refl
all_contained achievements = refl
all_contained stats = refl

contains-dirty_buckets :
    (c : DirtyBucket) (e : PlayerCacheEntry) → contains c (dirty_buckets e) ≡ is_some (e.dirty c)
unfolding dirty_buckets
contains-dirty_buckets c e =
    contains-select_buckets c (λ b. is_some (e.dirty b)) all_buckets ∙ rw (all_contained c) refl

dirty_buckets-Once : (e : PlayerCacheEntry) → Once (dirty_buckets e)
unfolding dirty_buckets contains same_bucket
dirty_buckets-Once e =
    select_buckets-Once (λ b. is_some (e.dirty b)) all_buckets
      (refl, (refl, (refl, (refl, (refl, (refl, tt))))))

all_saved :
    (env : Environment) (e : PlayerCacheEntry) (b : DirtyBucket)
    → (steps env e (dirty_buckets e) e).dirty b ≡ after_saving env b (e.dirty b)
unfolding attempted
all_saved env e b = elim (Option-cases (e.dirty b)) [
  | inl clean ↦
      let out : contains b (dirty_buckets e) ≡ false = contains-dirty_buckets b e ∙ rw clean refl in
      let idle : after_saving env b none ≡ none = elim (Bool-cases (env.saves b)) [
        | inl works ↦ rw works refl
        | inr fails ↦ rw fails refl
      ] in
      steps-other env e b (dirty_buckets e) e out ∙ rw (clean, idle) refl
  | inr (s, dirty) ↦
      let in_list : contains b (dirty_buckets e) ≡ true =
        contains-dirty_buckets b e ∙ rw dirty refl in
      steps-dirty env e b (dirty_buckets e) e (dirty_buckets-Once e) in_list refl
]

-- Let a player be in the cache, and let nothing else change the cache while it is flushed. Then the
-- player's data in the cache stay as they are, each bucket that the database saves is clean, each that it
-- does not save is as dirty as before with one attempt more, and the entries of other players stay as they are.
pub flush_player-entry :
    (env : Environment) (u : PlayerId) (r : PlayerRepository) (e : PlayerCacheEntry)
    → lookup u r.cache ≡ some e
    → ((e' : PlayerCacheEntry) × (lookup u (flush_player (alone env) u r).1.cache ≡ some e')
        × (e'.aggregate ≡ e.aggregate)
        × ((b : DirtyBucket) → e'.dirty b ≡ after_saving env b (e.dirty b)))
      × ((v : PlayerId)
          → (u == v) ≡ false
          → lookup v (flush_player (alone env) u r).1.cache ≡ lookup v r.cache)
flush_player-entry env u r e found =
    let (own, others) = flush_each-lookup env u e (dirty_buckets e) r e found in
    rw (flush_player-each (alone env) u r e found) (
      (
        steps env e (dirty_buckets e) e,
        own,
        steps-aggregate env e (dirty_buckets e) e,
        all_saved env e,
      ),
      others,
    )
