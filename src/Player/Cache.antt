-- ===== src/Player/Cache.antt =====
-- The cache of src/player/repository.rs and its entries, src/player/aggregate.rs: reading and saving
-- an aggregate, and which parts of it are to be saved.
pub mod Rows
use fourinarow_server.Base.{
  ◌+ℤ◌, ltb_ℤ, ℤ, Dict, lookup, insert, ◌==◌, if◌then◌else◌, is_some, ℕ, ◌⊎◌, inl, inr, Bool, true,
  false, ◌&&◌, Option, none, some, List, [], ◌∷◌, pos,
}
use fourinarow_server.Player.{
  PlayerId, Instant, Text, DirtyBucket, profile, game_info, inventory, quests, achievements, stats,
  PlayerStats, default_stats, PlayerQuestProgress, PlayerAchievementProgress, PlayerAggregate,
}
use fourinarow_server.Player.Tables.{Tables, UserRow, QuestRow, AchievementRow, inner}
use fourinarow_server.Player.Tables.Progress.{
  find_progress, update_progress, find_achievement, update_achievement,
}

unfoldable pub same_bucket : DirtyBucket → DirtyBucket → Bool
same_bucket profile profile = true
same_bucket game_info game_info = true
same_bucket inventory inventory = true
same_bucket quests quests = true
same_bucket achievements achievements = true
same_bucket stats stats = true
same_bucket _ _ = false

pub record DirtyBucketState : Type 0 where
  pub changed_at : Instant
  pub last_flush_at : Instant
  pub attempts : ℕ
  pub reason : Option Text

-- Without `cached_at`, which nothing reads.
pub record PlayerCacheEntry : Type 0 where
  pub aggregate : PlayerAggregate
  pub dirty : DirtyBucket → Option DirtyBucketState

-- `PlayerCacheEntry::clean`.
abbrev pub clean : PlayerAggregate → PlayerCacheEntry
clean a = record { aggregate = a; dirty = λ b. none }

abbrev pub set_bucket :
    DirtyBucket
    → Option DirtyBucketState
    → (DirtyBucket → Option DirtyBucketState)
    → DirtyBucket
    → Option DirtyBucketState
set_bucket b s dirty c = if same_bucket b c then s else dirty c

unfoldable pub marked : Instant → Option Text → Option DirtyBucketState → DirtyBucketState
marked now reason none = record {
  changed_at = now;
  last_flush_at = now;
  attempts = 0;
  reason = reason;
}
marked now reason (some s) = record s { changed_at = now; reason = reason }

unfoldable pub mark_dirty :
    Instant → List DirtyBucket → Option Text → PlayerCacheEntry → PlayerCacheEntry
unfolding marked same_bucket
mark_dirty now [] reason e = e
mark_dirty now (b ∷ buckets) reason e =
    mark_dirty now buckets reason
      (record e { dirty = set_bucket b (some (marked now reason (e.dirty b))) e.dirty })

abbrev pub all_buckets : List DirtyBucket
all_buckets = profile ∷ game_info ∷ inventory ∷ quests ∷ achievements ∷ stats ∷ []

unfoldable pub select_buckets : (DirtyBucket → Bool) → List DirtyBucket → List DirtyBucket
select_buckets test [] = []
select_buckets test (b ∷ buckets) =
    let rest = select_buckets test buckets in if test b then b ∷ rest else rest

unfoldable pub dirty_buckets : PlayerCacheEntry → List DirtyBucket
unfolding select_buckets
dirty_buckets e = select_buckets (λ b. is_some (e.dirty b)) all_buckets

-- `clear_bucket`, and `mark_bucket_flushed`.
unfoldable pub clear_bucket : DirtyBucket → PlayerCacheEntry → PlayerCacheEntry
unfolding same_bucket
clear_bucket b e = record e { dirty = set_bucket b none e.dirty }
