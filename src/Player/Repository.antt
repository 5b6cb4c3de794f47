-- ===== src/Player/Repository.antt =====
-- `PlayerRepository` of src/player/repository.rs: the cache in front of the tables, and when its
-- entries are loaded, changed, saved and dropped.
pub mod Loads
use fourinarow_server.Base.{
  ◌+ℤ◌, ℤ, Dict, lookup, remove, insert, leb, ◌==◌, if◌then◌else◌, ℕ, ◌+◌, ◌*◌, ◌⊎◌, inl, inr, Bool,
  true, false, ◌&&◌, ◌||◌, Option, none, some, List, [], ◌∷◌, map,
}
use fourinarow_server.Player.{PlayerId, Instant, Text, DirtyBucket, stats, PlayerAggregate}
use fourinarow_server.Player.Tables.{Tables}
use fourinarow_server.Player.Cache.{
  DirtyBucketState, PlayerCacheEntry, clean, mark_dirty, select_buckets, all_buckets, dirty_buckets,
  clear_bucket, same_bucket,
}
use fourinarow_server.Player.Cache.Rows.{LoadError, not_found, db, load_aggregate, save_bucket}

pub record PlayerRepository : Type 0 where
  pub tables : Tables
  pub cache : Dict PlayerCacheEntry
  pub flush_immediately : Bool

-- What happens around a function: the time, which statements of a load the database does, which
-- buckets it saves, and what other tasks do to the cache while a bucket is saved.
pub record Environment : Type 0 where
  pub now : Instant
  pub reads : ℕ → Bool
  pub saves : DirtyBucket → Bool
  pub meanwhile : DirtyBucket → Dict PlayerCacheEntry → Dict PlayerCacheEntry

-- The entry of a player is changed, if it is there.
unfoldable pub with_entry :
    PlayerId → (PlayerCacheEntry → PlayerCacheEntry) → Dict PlayerCacheEntry → Dict PlayerCacheEntry
with_entry u f cache = elim (lookup u cache) [ none ↦ cache | some e ↦ insert u (f e) cache ]

-- Whether the bucket is dirty since the same instant as in the copy.
unfoldable pub unchanged : Option DirtyBucketState → Option DirtyBucketState → Bool
unchanged none _ = false
unchanged (some s) none = false
unchanged (some s) (some old) = s.changed_at == old.changed_at

unfoldable pub saved : PlayerCacheEntry → DirtyBucket → PlayerCacheEntry → PlayerCacheEntry
unfolding unchanged clear_bucket
saved old b e = if unchanged (e.dirty b) (old.dirty b) then clear_bucket b e else e

unfoldable pub attempted : Option DirtyBucketState → Option DirtyBucketState
attempted none = none
attempted (some s) = some (record s { attempts = s.attempts + 1 })

unfoldable pub not_saved : DirtyBucket → PlayerCacheEntry → PlayerCacheEntry
unfolding attempted
not_saved b e = record e {
  dirty = λ c. (if same_bucket b c then attempted (e.dirty c) else e.dirty c);
}

-- The saving of one bucket of the copy `old` of the entry, and what follows.
unfoldable pub flush_bucket :
    Environment → PlayerId → PlayerCacheEntry → DirtyBucket → PlayerRepository → PlayerRepository
unfolding with_entry saved not_saved save_bucket
flush_bucket env u old b r =
    let cache = env.meanwhile b r.cache in
    if env.saves b
    then record r {
      tables = save_bucket old.aggregate b r.tables;
      cache = with_entry u (saved old b) cache;
    }
    else record r { cache = with_entry u (not_saved b) cache }

unfoldable pub flush_each :
    Environment
    → PlayerId
    → PlayerCacheEntry
    → List DirtyBucket
    → PlayerRepository
    → Bool × PlayerRepository
unfolding flush_bucket
flush_each env u old [] r = (true, r)
flush_each env u old (b ∷ buckets) r =
    let (fine, r') = flush_each env u old buckets (flush_bucket env u old b r) in
    (env.saves b && fine, r')

unfoldable pub flush_entry :
    Environment
    → PlayerId
    → List DirtyBucket
    → Option PlayerCacheEntry
    → PlayerRepository
    → Bool × PlayerRepository
unfolding flush_each
flush_entry env u buckets none r = (true, r)
flush_entry env u buckets (some e) r = flush_each env u e buckets r

-- `flush_player_buckets`, and whether it is without an error.
unfoldable pub flush_player_buckets :
    Environment → PlayerId → List DirtyBucket → PlayerRepository → Bool × PlayerRepository
unfolding flush_entry
flush_player_buckets env u [] r = (true, r)
flush_player_buckets env u (b ∷ buckets) r = flush_entry env u (b ∷ buckets) (lookup u r.cache) r

unfoldable pub flush_dirty :
    Environment → PlayerId → Option PlayerCacheEntry → PlayerRepository → Bool × PlayerRepository
unfolding flush_player_buckets dirty_buckets
flush_dirty env u none r = (true, r)
flush_dirty env u (some e) r = flush_player_buckets env u (dirty_buckets e) r

unfoldable pub flush_player : Environment → PlayerId → PlayerRepository → Bool × PlayerRepository
unfolding flush_dirty
flush_player env u r = flush_dirty env u (lookup u r.cache) r

-- The players of a list one after another, and those with an error.
unfoldable pub flush_ids :
    Environment → List PlayerId → PlayerRepository → List PlayerId × PlayerRepository
unfolding flush_player
flush_ids env [] r = ([], r)
flush_ids env (u ∷ ids) r =
    let (fine, r') = flush_player env u r in
    let (failures, r'') = flush_ids env ids r' in (if fine then failures else u ∷ failures, r'')

-- `flush_all`: the failures that it returns.
unfoldable pub flush_all : Environment → PlayerRepository → List PlayerId × PlayerRepository
unfolding flush_ids
flush_all env r = flush_ids env (map (λ ((u, e) : ℕ × PlayerCacheEntry). u) r.cache) r

abbrev flush_cooldown_secs : ℕ
flush_cooldown_secs = 5

abbrev force_flush_secs : ℕ
force_flush_secs = 10 * 60

-- Instants are seconds.
unfoldable pub is_due : Instant → Option DirtyBucketState → Bool
is_due now none = false
is_due now (some s) =
    leb (s.changed_at + flush_cooldown_secs) now || leb (s.last_flush_at + force_flush_secs) now

unfoldable pub due_buckets : Instant → PlayerCacheEntry → List DirtyBucket
unfolding is_due select_buckets
due_buckets now e = select_buckets (λ b. is_due now (e.dirty b)) all_buckets

-- Players with nothing due are left out.
unfoldable pub put_due :
    PlayerId
    → List DirtyBucket
    → List (PlayerId × List DirtyBucket)
    → List (PlayerId × List DirtyBucket)
put_due u [] rest = rest
put_due u (b ∷ buckets) rest = (u, b ∷ buckets) ∷ rest

unfoldable pub due_players : Instant → Dict PlayerCacheEntry → List (PlayerId × List DirtyBucket)
unfolding due_buckets put_due
due_players now [] = []
due_players now ((u, e) ∷ entries) = put_due u (due_buckets now e) (due_players now entries)

unfoldable pub flush_due :
    Environment → List (PlayerId × List DirtyBucket) → PlayerRepository → PlayerRepository
unfolding flush_player_buckets
flush_due env [] r = r
flush_due env ((u, buckets) ∷ due) r = flush_due env due (flush_player_buckets env u buckets r).1

unfoldable pub tick_flush : Environment → PlayerRepository → PlayerRepository
unfolding due_players flush_due
tick_flush env r = flush_due env (due_players env.now r.cache) r
