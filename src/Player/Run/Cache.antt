-- ===== src/Player/Run/Cache.antt =====
-- Where only statistics are dirty in the cache of src/player/repository.rs: what a flush and a load do
-- to the tables then.
use fourinarow_server.Base.{
  Each, lookup-All, remove-All, insert-All, All, Dict, lookup, remove, insert, Bool-cases,
  Option-cases, is_some, ◌≡◌, refl, inl, inr, Bool, true, false, none, some, List, [], ◌∷◌,
}
use fourinarow_server.Player.{PlayerId, Instant, DirtyBucket, stats}
use fourinarow_server.Player.Cache.{same_bucket, PlayerCacheEntry, select_buckets}
use fourinarow_server.Player.Repository.{with_entry, is_due}

-- Nothing but the statistics is to be saved.
abbrev pub OnlyStats : PlayerCacheEntry → Type 0
OnlyStats e = (b : DirtyBucket) → same_bucket b stats ≡ false → e.dirty b ≡ none

abbrev pub OnlyStatsDirty : Dict PlayerCacheEntry → Type 0
OnlyStatsDirty = Each OnlyStats

abbrev pub IsStats : DirtyBucket → Type 0
IsStats b = same_bucket b stats ≡ true

pub select_buckets-All :
    (Q : DirtyBucket → Type 0) (test : DirtyBucket → Bool) (buckets : List DirtyBucket)
    → ((b : DirtyBucket) → test b ≡ true → Q b)
    → All Q (select_buckets test buckets)
unfolding select_buckets
select_buckets-All Q test [] h = tt
select_buckets-All Q test (b ∷ buckets) h = elim (Bool-cases (test b)) [
  | inl yes_b ↦ rw yes_b (h b yes_b, select_buckets-All Q test buckets h)
  | inr other ↦ rw other (select_buckets-All Q test buckets h)
]

pub dirty-IsStats :
    (e : PlayerCacheEntry) (b : DirtyBucket) → OnlyStats e → is_some (e.dirty b) ≡ true → IsStats b
dirty-IsStats e b only dirty = elim (Bool-cases (same_bucket b stats)) [
  | inl same ↦ same
  | inr other ↦ let clean_b : is_some (e.dirty b) ≡ false = rw (only b other) refl in cc
]

pub due-IsStats :
    (now : Instant) (e : PlayerCacheEntry) (b : DirtyBucket)
    → OnlyStats e
    → is_due now (e.dirty b) ≡ true
    → IsStats b
unfolding is_due
due-IsStats now e b only due = elim (Bool-cases (same_bucket b stats)) [
  | inl same ↦ same
  | inr other ↦ let idle : is_due now (e.dirty b) ≡ false = rw (only b other) refl in cc
]

pub lookup-OnlyStats :
    (u : PlayerId) (cache : Dict PlayerCacheEntry)
    → OnlyStatsDirty cache
    → (e : PlayerCacheEntry) → lookup u cache ≡ some e
    → OnlyStats e
lookup-OnlyStats = lookup-All OnlyStats

pub remove-OnlyStats :
    (u : PlayerId) (cache : Dict PlayerCacheEntry)
    → OnlyStatsDirty cache
    → OnlyStatsDirty (remove u cache)
remove-OnlyStats = remove-All OnlyStats

pub insert-OnlyStats :
    (u : PlayerId) (e : PlayerCacheEntry) (cache : Dict PlayerCacheEntry)
    → OnlyStatsDirty cache
    → OnlyStats e
    → OnlyStatsDirty (insert u e cache)
insert-OnlyStats = insert-All OnlyStats

pub with_entry-OnlyStats :
    (u : PlayerId) (f : PlayerCacheEntry → PlayerCacheEntry) (cache : Dict PlayerCacheEntry)
    → ((e : PlayerCacheEntry) → OnlyStats e → OnlyStats (f e))
    → OnlyStatsDirty cache
    → OnlyStatsDirty (with_entry u f cache)
unfolding with_entry
with_entry-OnlyStats u f cache k h = elim (Option-cases (lookup u cache)) [
  | inl e ↦ rw (with_entry, e) h
  | inr (entry, e) ↦
      rw (with_entry, e)
        (insert-OnlyStats u (f entry) cache h (k entry (lookup-OnlyStats u cache h entry e)))
]
