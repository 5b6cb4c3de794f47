-- ===== src/Player/Repository/Loads.antt =====
-- Loads and changes of src/player/repository.rs, whose entries go into the cache.
use fourinarow_server.Base.{
  ◌+ℤ◌, ℤ, lookup, remove, insert, if◌then◌else◌, ◌⊎◌, inl, inr, Bool, true, false, Option, none,
  some, List, [], ◌∷◌,
}
use fourinarow_server.Player.{PlayerId, Text, DirtyBucket, stats, PlayerAggregate}
use fourinarow_server.Player.Tables.{Tables}
use fourinarow_server.Player.Cache.{PlayerCacheEntry, clean, mark_dirty, dirty_buckets}
use fourinarow_server.Player.Cache.Rows.{LoadError, not_found, db, load_aggregate}
use fourinarow_server.Player.Repository.{Environment, PlayerRepository, flush_player_buckets}

-- The answer of a load, which is put into the cache with nothing dirty.
unfoldable pub keep_loaded :
    PlayerId
    → (LoadError ⊎ PlayerAggregate) × Tables
    → PlayerRepository
    → (LoadError ⊎ PlayerAggregate) × PlayerRepository
keep_loaded u (inl e, t) r = (inl e, record r { tables = t })
keep_loaded u (inr a, t) r = (inr a, record r { tables = t; cache = insert u (clean a) r.cache })

unfoldable pub reload_player :
    Environment → PlayerId → PlayerRepository → (LoadError ⊎ PlayerAggregate) × PlayerRepository
unfolding keep_loaded load_aggregate
reload_player env u r = keep_loaded u (load_aggregate env.reads u r.tables) r

unfoldable pub read_entry :
    Environment
    → PlayerId
    → Option PlayerCacheEntry
    → PlayerRepository
    → (LoadError ⊎ PlayerAggregate) × PlayerRepository
unfolding reload_player
read_entry env u (some e) r = (inr e.aggregate, r)
read_entry env u none r = reload_player env u r

unfoldable pub get_readonly :
    Environment → PlayerId → PlayerRepository → (LoadError ⊎ PlayerAggregate) × PlayerRepository
unfolding read_entry
get_readonly env u r = read_entry env u (lookup u r.cache) r

unfoldable pub drop_failed :
    PlayerId → (LoadError ⊎ PlayerAggregate) × PlayerRepository → PlayerRepository
drop_failed u (inl e, r) = record r { cache = remove u r.cache }
drop_failed u (inr a, r) = r

unfoldable pub reload_player_after_sync_write :
    Environment → PlayerId → PlayerRepository → PlayerRepository
unfolding reload_player drop_failed
reload_player_after_sync_write env u r = drop_failed u (reload_player env u r)

unfoldable pub flush_at_once :
    Environment
    → PlayerId
    → PlayerCacheEntry
    → Bool
    → PlayerRepository
    → (LoadError ⊎ Unit {0}) × PlayerRepository
unfolding dirty_buckets flush_player_buckets
flush_at_once env u e false r = (inr tt, r)
flush_at_once env u e true r =
    let (fine, flushed) = flush_player_buckets env u (dirty_buckets e) r in
    (if fine then inr tt else inl db, flushed)

unfoldable pub change_entry :
    Environment
    → PlayerId
    → List DirtyBucket
    → Text
    → (PlayerAggregate → PlayerAggregate)
    → Option PlayerCacheEntry
    → PlayerRepository
    → (LoadError ⊎ Unit {0}) × PlayerRepository
unfolding mark_dirty flush_at_once
change_entry env u buckets reason f none r = (inl not_found, r)
change_entry env u buckets reason f (some e) r =
    let e' = mark_dirty env.now buckets (some reason) (record e { aggregate = f e.aggregate }) in
    flush_at_once env u e' r.flush_immediately (record r { cache = insert u e' r.cache })

unfoldable pub change_loaded :
    Environment
    → PlayerId
    → List DirtyBucket
    → Text
    → (PlayerAggregate → PlayerAggregate)
    → (LoadError ⊎ PlayerAggregate) × PlayerRepository
    → (LoadError ⊎ Unit {0}) × PlayerRepository
unfolding change_entry
change_loaded env u buckets reason f (inl e, r) = (inl e, r)
change_loaded env u buckets reason f (inr a, r) =
    change_entry env u buckets reason f (lookup u r.cache) r

unfoldable pub with_player_mut :
    Environment
    → PlayerId
    → List DirtyBucket
    → Text
    → (PlayerAggregate → PlayerAggregate)
    → PlayerRepository
    → (LoadError ⊎ Unit {0}) × PlayerRepository
unfolding change_loaded get_readonly
with_player_mut env u buckets reason f r =
    change_loaded env u buckets reason f (get_readonly env u r)

-- The statistics after further games.
abbrev pub add_games : ℤ → ℤ → ℤ → PlayerAggregate → PlayerAggregate
add_games played won lost a = record a {
  stats = record a.stats {
    games_played = a.stats.games_played +ℤ played;
    games_won = a.stats.games_won +ℤ won;
    games_lost = a.stats.games_lost +ℤ lost;
  };
}

unfoldable pub bump_loaded :
    Environment
    → PlayerId
    → ℤ
    → ℤ
    → ℤ
    → Text
    → (LoadError ⊎ PlayerAggregate) × PlayerRepository
    → (LoadError ⊎ Unit {0}) × PlayerRepository
unfolding with_player_mut
bump_loaded env u played won lost reason (inl e, r) = (inl e, r)
bump_loaded env u played won lost reason (inr a, r) =
    with_player_mut env u (stats ∷ []) reason (add_games played won lost) r

unfoldable pub bump_stats :
    Environment
    → PlayerId
    → ℤ
    → ℤ
    → ℤ
    → Text
    → PlayerRepository
    → (LoadError ⊎ Unit {0}) × PlayerRepository
unfolding bump_loaded reload_player
bump_stats env u played won lost reason r =
    bump_loaded env u played won lost reason (reload_player env u r)
