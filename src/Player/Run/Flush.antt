-- ===== src/Player/Run/Flush.antt =====
-- Flushes of src/player/repository.rs where only statistics are dirty: what they keep of the tables and
-- of the cache.
pub mod Loads
use fourinarow_server.Base.{
  ℤ, All, Dict, lookup, insert, Bool-cases, Option-cases, is_some, ℕ, ◌≡◌, refl, ◌⊎◌, inl, inr,
  Bool, true, false, ◌&&◌, Option, none, some, List, [], ◌∷◌, map,
}
use fourinarow_server.Player.{
  PlayerId, Text, DirtyBucket, profile, game_info, inventory, quests, achievements, stats,
  PlayerStats, PlayerAggregate,
}
use fourinarow_server.Player.Tables.{Tables, UserRow}
use fourinarow_server.Player.Cache.{
  same_bucket, PlayerCacheEntry, clean, mark_dirty, all_buckets, dirty_buckets, clear_bucket,
}
use fourinarow_server.Player.Cache.Rows.{
  LoadError, load_aggregate, load_row, load_stats, save_bucket,
}
use fourinarow_server.Player.Repository.{
  PlayerRepository, Environment, unchanged, saved, attempted, not_saved, flush_bucket, flush_each,
  flush_entry, flush_player_buckets, flush_dirty, flush_player, flush_ids, flush_all, is_due,
  due_buckets, due_players, put_due, flush_due, tick_flush,
}
use fourinarow_server.Player.Repository.Loads.{
  keep_loaded, reload_player, read_entry, get_readonly, drop_failed, reload_player_after_sync_write,
  flush_at_once, change_entry, change_loaded, with_player_mut, add_games, bump_loaded, bump_stats,
}
use fourinarow_server.Player.Run.{alone}
use fourinarow_server.Player.Run.Cache.{
  OnlyStats, OnlyStatsDirty, IsStats, select_buckets-All, dirty-IsStats, due-IsStats,
  insert-OnlyStats, lookup-OnlyStats, remove-OnlyStats, with_entry-OnlyStats,
}

-- The tables have `P`, and of the cache only statistics are to be saved.
pub record Holds (P : Tables → Type 0) (r : PlayerRepository) : Type 0 where
  pub tables : P r.tables
  pub only : OnlyStatsDirty r.cache

saved-OnlyStats :
    (old : PlayerCacheEntry) (b : DirtyBucket) (e : PlayerCacheEntry)
    → OnlyStats e
    → OnlyStats (saved old b e)
unfolding saved clear_bucket
saved-OnlyStats old b e only = elim (Bool-cases (unchanged (e.dirty b) (old.dirty b))) [
  | inr changed ↦ rw changed only
  | inl same ↦ rw same (λ c other. elim (Bool-cases (same_bucket b c)) [
    | inl this ↦ rw this refl
    | inr not_this ↦ rw not_this (only c other)
  ])
]

not_saved-OnlyStats :
    (b : DirtyBucket) (e : PlayerCacheEntry) → OnlyStats e → OnlyStats (not_saved b e)
unfolding not_saved
not_saved-OnlyStats b e only c other = elim (Bool-cases (same_bucket b c)) [
  | inl this ↦ rw (this, attempted, only c other) refl
  | inr not_this ↦ rw not_this (only c other)
]

pub mark_dirty-OnlyStats :
    (now : ℕ) (reason : Option Text) (e : PlayerCacheEntry)
    → OnlyStats e
    → OnlyStats (mark_dirty now (stats ∷ []) reason e)
unfolding mark_dirty same_bucket
mark_dirty-OnlyStats now reason e only profile other = only profile other
mark_dirty-OnlyStats now reason e only game_info other = only game_info other
mark_dirty-OnlyStats now reason e only inventory other = only inventory other
mark_dirty-OnlyStats now reason e only quests other = only quests other
mark_dirty-OnlyStats now reason e only achievements other = only achievements other
mark_dirty-OnlyStats now reason e only stats other = let never : true ≡ false = other in cc

module _ {P : Tables → Type 0}
    (statistics : (rows : Dict PlayerStats) (t : Tables)
      → P t
      → P (record t { player_stats = rows })) where
  save_stats-P :
      (a : PlayerAggregate) (b : DirtyBucket) (t : Tables) → IsStats b → P t → P (save_bucket a b t)
  unfolding save_bucket same_bucket
  save_stats-P a profile t s p = let never : false ≡ true = s in cc
  save_stats-P a game_info t s p = let never : false ≡ true = s in cc
  save_stats-P a inventory t s p = let never : false ≡ true = s in cc
  save_stats-P a quests t s p = let never : false ≡ true = s in cc
  save_stats-P a achievements t s p = let never : false ≡ true = s in cc
  save_stats-P a stats t s p = statistics _ t p

  flush_bucket-Holds :
      (env : Environment) (u : PlayerId) (old : PlayerCacheEntry) (b : DirtyBucket)
      (r : PlayerRepository)
      → IsStats b
      → Holds P r
      → Holds P (flush_bucket (alone env) u old b r)
  unfolding flush_bucket
  flush_bucket-Holds env u old b r s h = elim (Bool-cases (env.saves b)) [
    | inl works ↦ rw works (record {
      tables = save_stats-P old.aggregate b r.tables s h.tables;
      only = with_entry-OnlyStats u (saved old b) r.cache (saved-OnlyStats old b) h.only;
    })
    | inr fails ↦ rw fails (record {
      tables = h.tables;
      only = with_entry-OnlyStats u (not_saved b) r.cache (not_saved-OnlyStats b) h.only;
    })
  ]

  flush_each-Holds :
      (env : Environment) (u : PlayerId) (old : PlayerCacheEntry) (buckets : List DirtyBucket)
      (r : PlayerRepository)
      → All IsStats buckets
      → Holds P r
      → Holds P (flush_each (alone env) u old buckets r).1
  unfolding flush_each
  flush_each-Holds env u old [] r s h = h
  flush_each-Holds env u old (b ∷ buckets) r s h =
      flush_each-Holds env u old buckets (flush_bucket (alone env) u old b r) s.1
        (flush_bucket-Holds env u old b r s.0 h)

  pub flush_player_buckets-Holds :
      (env : Environment) (u : PlayerId) (buckets : List DirtyBucket) (r : PlayerRepository)
      → All IsStats buckets
      → Holds P r
      → Holds P (flush_player_buckets (alone env) u buckets r).1
  unfolding flush_player_buckets
  flush_player_buckets-Holds env u [] r s h = h
  flush_player_buckets-Holds env u (b ∷ buckets) r s h = elim (Option-cases (lookup u r.cache)) [
    | inl e ↦ rw (flush_entry, e) h
    | inr (entry, e) ↦ rw (flush_entry, e) (flush_each-Holds env u entry (b ∷ buckets) r s h)
  ]

  pub dirty-Stats : (e : PlayerCacheEntry) → OnlyStats e → All IsStats (dirty_buckets e)
  unfolding dirty_buckets
  dirty-Stats e only =
      select_buckets-All IsStats (λ b. is_some (e.dirty b)) all_buckets
        (λ b. dirty-IsStats e b only)

  pub flush_player-Holds :
      (env : Environment) (u : PlayerId) (r : PlayerRepository)
      → Holds P r
      → Holds P (flush_player (alone env) u r).1
  unfolding flush_player
  flush_player-Holds env u r h = elim (Option-cases (lookup u r.cache)) [
    | inl e ↦ rw (flush_dirty, e) h
    | inr (entry, e) ↦
        rw (flush_dirty, e)
          (flush_player_buckets-Holds env u (dirty_buckets entry) r
            (dirty-Stats entry (lookup-OnlyStats u r.cache h.only entry e)) h)
  ]

  flush_ids-Holds :
      (env : Environment) (ids : List PlayerId) (r : PlayerRepository)
      → Holds P r
      → Holds P (flush_ids (alone env) ids r).1
  unfolding flush_ids
  flush_ids-Holds env [] r h = h
  flush_ids-Holds env (u ∷ ids) r h =
      flush_ids-Holds env ids (flush_player (alone env) u r).1 (flush_player-Holds env u r h)

  pub flush_all-Holds :
      (env : Environment) (r : PlayerRepository) → Holds P r → Holds P (flush_all (alone env) r).1
  unfolding flush_all
  flush_all-Holds env r h =
      flush_ids-Holds env (map (λ ((u, e) : ℕ × PlayerCacheEntry). u) r.cache) r h

  flush_due-Holds :
      (env : Environment) (due : List (PlayerId × List DirtyBucket)) (r : PlayerRepository)
      → All (λ ((u, buckets) : ℕ × List DirtyBucket). All IsStats buckets) due
      → Holds P r
      → Holds P (flush_due (alone env) due r)
  unfolding flush_due
  flush_due-Holds env [] r s h = h
  flush_due-Holds env ((u, buckets) ∷ due) r s h =
      flush_due-Holds env due (flush_player_buckets (alone env) u buckets r).1 s.1
        (flush_player_buckets-Holds env u buckets r s.0 h)

  put_due-Stats :
      (u : PlayerId) (buckets : List DirtyBucket) (rest : List (PlayerId × List DirtyBucket))
      → All IsStats buckets
      → All (λ ((u, buckets) : ℕ × List DirtyBucket). All IsStats buckets) rest
      → All (λ ((u, buckets) : ℕ × List DirtyBucket). All IsStats buckets) (put_due u buckets rest)
  unfolding put_due
  put_due-Stats u [] rest s h = h
  put_due-Stats u (b ∷ buckets) rest s h = (s, h)

  due_players-Stats :
      (now : ℕ) (entries : Dict PlayerCacheEntry)
      → OnlyStatsDirty entries
      → All (λ ((u, buckets) : ℕ × List DirtyBucket). All IsStats buckets) (due_players now entries)
  unfolding due_players due_buckets
  due_players-Stats now [] only = tt
  due_players-Stats now ((u, e) ∷ entries) only =
      put_due-Stats u (due_buckets now e) (due_players now entries)
        (select_buckets-All IsStats (λ b. is_due now (e.dirty b)) all_buckets
          (λ b. due-IsStats now e b only.0))
        (due_players-Stats now entries only.1)

  pub tick_flush-Holds :
      (env : Environment) (r : PlayerRepository) → Holds P r → Holds P (tick_flush (alone env) r)
  unfolding tick_flush
  tick_flush-Holds env r h =
      flush_due-Holds env (due_players env.now r.cache) r (due_players-Stats env.now r.cache h.only)
        h
