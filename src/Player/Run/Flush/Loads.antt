-- ===== src/Player/Run/Flush/Loads.antt =====
-- Loads and changes of src/player/repository.rs where only statistics are dirty.
use fourinarow_server.Base.{
  ℤ, Dict, lookup, insert, Bool-cases, Option-cases, is_some, ℕ, ◌≡◌, refl, ◌⊎◌, inl, inr, Bool,
  true, false, ◌&&◌, Option, none, some, [], ◌∷◌,
}
use fourinarow_server.Player.{PlayerId, Text, stats, PlayerStats, PlayerAggregate}
use fourinarow_server.Player.Tables.{Tables, UserRow}
use fourinarow_server.Player.Cache.{PlayerCacheEntry, clean, mark_dirty, dirty_buckets}
use fourinarow_server.Player.Cache.Rows.{LoadError, load_aggregate, load_row, load_stats}
use fourinarow_server.Player.Repository.{PlayerRepository, Environment}
use fourinarow_server.Player.Repository.Loads.{
  keep_loaded, reload_player, read_entry, get_readonly, drop_failed, reload_player_after_sync_write,
  flush_at_once, change_entry, change_loaded, with_player_mut, add_games, bump_loaded, bump_stats,
}
use fourinarow_server.Player.Run.{alone}
use fourinarow_server.Player.Run.Cache.{
  OnlyStats, insert-OnlyStats, lookup-OnlyStats, remove-OnlyStats,
}
use fourinarow_server.Player.Run.Flush.{
  Holds, mark_dirty-OnlyStats, flush_player_buckets-Holds, dirty-Stats,
}

module _ {P : Tables → Type 0}
    (statistics : (rows : Dict PlayerStats) (t : Tables)
      → P t
      → P (record t { player_stats = rows })) where
  keep_loaded-Holds :
      (u : PlayerId) (loaded : (LoadError ⊎ PlayerAggregate) × Tables) (r : PlayerRepository)
      → P loaded.1
      → Holds P r
      → Holds P (keep_loaded u loaded r).1
  unfolding keep_loaded
  keep_loaded-Holds u (inl e, t) r p h = record { tables = p; only = h.only }
  keep_loaded-Holds u (inr a, t) r p h = record {
    tables = p;
    only = insert-OnlyStats u (clean a) r.cache h.only (λ b other. refl);
  }

  load_stats-P :
      (works : ℕ → Bool) (u : PlayerId) (row : UserRow) (s : Option PlayerStats) (t : Tables)
      → P t
      → P (load_stats works u row s t).1
  unfolding load_stats
  load_stats-P works u row (some s) t p = p
  load_stats-P works u row none t p = elim (Bool-cases (works 5)) [
    | inl does ↦ rw does (statistics _ t p)
    | inr fails ↦ rw fails p
  ]

  load_row-P :
      (works : ℕ → Bool) (u : PlayerId) (row : Option UserRow) (t : Tables)
      → P t
      → P (load_row works u row t).1
  unfolding load_row
  load_row-P works u none t p = p
  load_row-P works u (some row) t p = elim (Bool-cases (is_some row.deleted_at)) [
    | inl gone ↦ rw gone p
    | inr there ↦ elim (Bool-cases (works 1 && (works 2 && (works 3 && works 4)))) [
      | inl does ↦ rw (there, does) (load_stats-P works u row (lookup u t.player_stats) t p)
      | inr fails ↦ rw (there, fails) p
    ]
  ]

  load_aggregate-P :
      (works : ℕ → Bool) (u : PlayerId) (t : Tables) → P t → P (load_aggregate works u t).1
  unfolding load_aggregate
  load_aggregate-P works u t p = elim (Bool-cases (works 0)) [
    | inl does ↦ rw does (load_row-P works u (lookup u t.users) t p)
    | inr fails ↦ rw fails p
  ]

  reload_player-Holds :
      (env : Environment) (u : PlayerId) (r : PlayerRepository)
      → Holds P r
      → Holds P (reload_player env u r).1
  unfolding reload_player
  reload_player-Holds env u r h =
      keep_loaded-Holds u (load_aggregate env.reads u r.tables) r
        (load_aggregate-P env.reads u r.tables h.tables) h

  pub get_readonly-Holds :
      (env : Environment) (u : PlayerId) (r : PlayerRepository)
      → Holds P r
      → Holds P (get_readonly env u r).1
  unfolding get_readonly
  get_readonly-Holds env u r h = elim (Option-cases (lookup u r.cache)) [
    | inl e ↦ rw (read_entry, e) (reload_player-Holds env u r h)
    | inr (entry, e) ↦ rw (read_entry, e) h
  ]

  drop_failed-Holds :
      (u : PlayerId) (x : (LoadError ⊎ PlayerAggregate) × PlayerRepository)
      → Holds P x.1
      → Holds P (drop_failed u x)
  unfolding drop_failed
  drop_failed-Holds u (inl e, r) h = record {
    tables = h.tables;
    only = remove-OnlyStats u r.cache h.only;
  }
  drop_failed-Holds u (inr a, r) h = h

  pub reload_after-Holds :
      (env : Environment) (u : PlayerId) (r : PlayerRepository)
      → Holds P r
      → Holds P (reload_player_after_sync_write env u r)
  unfolding reload_player_after_sync_write
  reload_after-Holds env u r h =
      drop_failed-Holds u (reload_player env u r) (reload_player-Holds env u r h)

  flush_at_once-Holds :
      (env : Environment) (u : PlayerId) (e : PlayerCacheEntry) (at_once : Bool)
      (r : PlayerRepository)
      → OnlyStats e
      → Holds P r
      → Holds P (flush_at_once (alone env) u e at_once r).1
  unfolding flush_at_once
  flush_at_once-Holds env u e false r only h = h
  flush_at_once-Holds env u e true r only h =
      flush_player_buckets-Holds statistics env u (dirty_buckets e) r
        (dirty-Stats statistics e only) h

  change_entry-Holds :
      (env : Environment) (u : PlayerId) (reason : Text) (f : PlayerAggregate → PlayerAggregate)
      (entry : Option PlayerCacheEntry) (r : PlayerRepository)
      → ((e : PlayerCacheEntry) → entry ≡ some e → OnlyStats e)
      → Holds P r
      → Holds P (change_entry (alone env) u (stats ∷ []) reason f entry r).1
  unfolding change_entry
  change_entry-Holds env u reason f none r only h = h
  change_entry-Holds env u reason f (some e) r only h =
      let e' : PlayerCacheEntry =
        mark_dirty env.now (stats ∷ []) (some reason) (record e { aggregate = f e.aggregate }) in
      let only' : OnlyStats e' =
        mark_dirty-OnlyStats env.now (some reason) (record e { aggregate = f e.aggregate })
          (only e refl) in
      let changed : PlayerRepository = record r { cache = insert u e' r.cache } in
      flush_at_once-Holds env u e' r.flush_immediately changed only'
        (record { tables = h.tables; only = insert-OnlyStats u e' r.cache h.only only' })

  change_loaded-Holds :
      (env : Environment) (u : PlayerId) (reason : Text) (f : PlayerAggregate → PlayerAggregate)
      (x : (LoadError ⊎ PlayerAggregate) × PlayerRepository)
      → Holds P x.1
      → Holds P (change_loaded (alone env) u (stats ∷ []) reason f x).1
  unfolding change_loaded
  change_loaded-Holds env u reason f (inl e, r) h = h
  change_loaded-Holds env u reason f (inr a, r) h =
      change_entry-Holds env u reason f (lookup u r.cache) r (lookup-OnlyStats u r.cache h.only) h

  bump_loaded-Holds :
      (env : Environment) (u : PlayerId) (played won lost : ℤ) (reason : Text)
      (x : (LoadError ⊎ PlayerAggregate) × PlayerRepository)
      → Holds P x.1
      → Holds P (bump_loaded (alone env) u played won lost reason x).1
  unfolding bump_loaded with_player_mut
  bump_loaded-Holds env u played won lost reason (inl e, r) h = h
  bump_loaded-Holds env u played won lost reason (inr a, r) h =
      change_loaded-Holds env u reason (add_games played won lost) (get_readonly (alone env) u r)
        (get_readonly-Holds (alone env) u r h)

  pub bump_stats-Holds :
      (env : Environment) (u : PlayerId) (played won lost : ℤ) (reason : Text)
      (r : PlayerRepository)
      → Holds P r
      → Holds P (bump_stats (alone env) u played won lost reason r).1
  unfolding bump_stats
  bump_stats-Holds env u played won lost reason r h =
      bump_loaded-Holds env u played won lost reason (reload_player (alone env) u r)
        (reload_player-Holds (alone env) u r h)
