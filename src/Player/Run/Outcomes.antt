-- ===== src/Player/Run/Outcomes.antt =====
-- The ends of the requests to src/player/repository.rs where the answer is an error: what they leave as
-- it was.
use fourinarow_server.Base.{
  Bool-cases, ◌≡◌, refl, sym, ◌⊎◌, inl, inr, Bool, true, false, Option, none, some, pos,
}
use mathlib.Core.Path.{subst}
use fourinarow_server.Player.{PlayerId, Text}
use fourinarow_server.Player.Tables.{Tables}
use fourinarow_server.Player.Transaction.{Tx, Finished, committed, returned, aborted, transaction}
use fourinarow_server.Player.Operations.{Completed}
use fourinarow_server.Player.Games.{
  SettlementError, SettlementOutcome, CompleteLevelError, CompleteLevelOutcome,
}
use fourinarow_server.Player.Repository.{PlayerRepository, Environment, flush_player}
use fourinarow_server.Player.Cache.Rows.{LoadError}
use fourinarow_server.Player.Repository.Loads.{bump_stats}
use fourinarow_server.Player.Service.{Surroundings, reloaded, flushed, item_added, event_applied}
use fourinarow_server.Player.Service.Results.{bump_loser, settled, level_completed}
use fourinarow_server.Player.Run.Flush.{Holds}

unfoldable pub is_error : {E A : Type 0} → E ⊎ A → Bool
is_error (inl e) = true
is_error (inr a) = false

unfoldable pub is_none : {A : Type 0} → Option A → Bool
is_none none = true
is_none (some a) = false

-- The error of a settlement that was not committed.
unfoldable pub is_unsettled : SettlementError ⊎ SettlementOutcome → Bool
is_unsettled (inl SettlementError.cache_reload) = false
is_unsettled (inl _) = true
is_unsettled (inr outcome) = false

module _ {E A : Type 0} where
  reloaded-error :
      (db : E) (after : Environment) (u : PlayerId) (r : PlayerRepository) (x : Finished (E ⊎ A) A)
      → is_error (reloaded db after u r x).0 ≡ true
      → (reloaded db after u r x).1 ≡ r
  unfolding reloaded is_error
  reloaded-error db after u r (committed a t) error = cc
  reloaded-error db after u r (returned x) error = refl
  reloaded-error db after u r aborted error = refl

  pub flushed-Holds :
      {P : Tables → Type 0} (cache_flush db : E) (s : Surroundings) (u : PlayerId)
      (body : Tx (E ⊎ A) A) (r : PlayerRepository)
      → Holds P (flush_player s.before u r).1
      → is_error (flushed cache_flush db s u body r).0 ≡ true
      → Holds P (flushed cache_flush db s u body r).1
  unfolding flushed
  flushed-Holds {P} cache_flush db s u body r h error =
      let r' : PlayerRepository = (flush_player s.before u r).1 in
      elim (Bool-cases (flush_player s.before u r).0) [
        | inl fine ↦ rw fine (
            subst (Holds P)
              (sym (
                reloaded-error db s.after u r' (transaction body s.works r'.tables)
                  (rw fine at error)))
              h)
        | inr unsaved ↦ rw unsaved h
      ]

pub item_added-error :
    (s : Surroundings) (u : PlayerId) (r : PlayerRepository) (x : Finished Bool Bool)
    → is_none (item_added s u r x).0 ≡ true
    → (item_added s u r x).1 ≡ r
unfolding item_added is_none
item_added-error s u r (committed b t) error = cc
item_added-error s u r (returned b) error = refl
item_added-error s u r aborted error = refl

pub event_applied-error :
    (u : PlayerId) (r : PlayerRepository) (x : Finished Completed Completed)
    → is_none (event_applied u r x).0 ≡ true
    → (event_applied u r x).1 ≡ r
unfolding event_applied is_none
event_applied-error u r (committed a t) error = cc
event_applied-error u r (returned a) error = refl
event_applied-error u r aborted error = refl

pub level_completed-error :
    (u : PlayerId) (r : PlayerRepository)
    (x : Finished (CompleteLevelError ⊎ CompleteLevelOutcome) CompleteLevelOutcome)
    → is_error (level_completed u r x).0 ≡ true
    → (level_completed u r x).1 ≡ r
unfolding level_completed is_error
level_completed-error u r (committed a t) error = cc
level_completed-error u r (returned x) error = refl
level_completed-error u r aborted error = refl

-- After the commit only the load of the cache can fail.
after_commit :
    (outcome : SettlementOutcome) (result : LoadError ⊎ Unit {0})
    → is_unsettled (elim result [ inl e ↦ inl SettlementError.cache_reload | inr _ ↦ inr outcome ])
      ≡ false
unfolding is_unsettled
after_commit outcome (inl e) = refl
after_commit outcome (inr _) = refl

bump_loser-settled :
    (s : Surroundings) (reason : Text) (loser : PlayerId) (outcome : SettlementOutcome)
    (x : (LoadError ⊎ Unit {0}) × PlayerRepository)
    → is_unsettled (bump_loser s reason loser outcome x).0 ≡ false
unfolding bump_loser is_unsettled
bump_loser-settled s reason loser outcome (inl e, r) = refl
bump_loser-settled s reason loser outcome (inr _, r) =
    after_commit outcome (bump_stats s.after loser (pos 1) (pos 0) (pos 1) reason r).0

pub settled-error :
    (s : Surroundings) (reason : Text) (winner loser : PlayerId) (r : PlayerRepository)
    (x : Finished (SettlementError ⊎ SettlementOutcome) SettlementOutcome)
    → is_unsettled (settled s reason winner loser r x).0 ≡ true
    → (settled s reason winner loser r x).1 ≡ r
unfolding settled
settled-error s reason winner loser r (committed outcome t) error =
    let done : is_unsettled (settled s reason winner loser r (committed outcome t)).0 ≡ false =
      bump_loser-settled s reason loser outcome _ in
    cc
settled-error s reason winner loser r (returned x) error = refl
settled-error s reason winner loser r aborted error = refl
