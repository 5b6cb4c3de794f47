-- ===== src/Player/Transaction.antt =====
-- A transaction of src/player/repository.rs on the tables. Each statement may fail, which ends the
-- function that runs it by `?`; a return before the commit rolls back what was done.
pub mod Rules
use fourinarow_server.Base.{if◌then◌else◌, ℕ, ◌+◌, Bool, true, false, Option, none, some}
use fourinarow_server.Player.Tables.{Tables}

-- The tables as the transaction sees them, which statements the database does, and how many were run.
pub record Session : Type 0 where
  pub tables : Tables
  pub works : ℕ → Bool
  pub count : ℕ

-- Going on with a value; a return of the function with a result of its own; a failed statement.
pub data Outcome (R A : Type 0) : Type 0 where
  going : A → Session → Outcome R A
  early : R → Outcome R A
  failed : Outcome R A

abbrev pub Tx : Type 0 → Type 0 → Type 0
Tx R A = Session → Outcome R A

module _ {R A : Type 0} where
  unfoldable pub pure : A → Tx R A
  pure a s = going a s

  -- `return` before the commit, with no statement of its own.
  unfoldable pub return_early : R → Tx R A
  return_early r s = early r

  unfoldable pub statement : (Tables → A × Tables) → Tx R A
  statement f s =
      if s.works s.count
      then (let (a, t) = f s.tables in going a (record s { tables = t; count = s.count + 1 }))
      else failed

  unfoldable pub query : (Tables → A) → Tx R A
  unfolding statement
  query f = statement (λ t. (f t, t))

-- The rest of a function after one of its parts.
abbrev pub continue : {R A B : Type 0} → Outcome R A → (A → Tx R B) → Outcome R B
continue (going a s) f = f a s
continue (early r) f = early r
continue failed f = failed

infixl 5 ◌>>=◌ ◌>>◌
unfoldable pub ◌>>=◌ : {R A B : Type 0} → Tx R A → (A → Tx R B) → Tx R B
◌>>=◌ m f s = continue (m s) f

abbrev pub ◌>>◌ : {R A B : Type 0} → Tx R A → Tx R B → Tx R B
m >> k = m >>= λ _. k

unfoldable pub update : {R : Type 0} → (Tables → Tables) → Tx R (Unit {0})
unfolding statement
update f = statement (λ t. (tt, f t))

-- `tx.rollback().await?` and a return.
unfoldable pub rollback : {R A : Type 0} → R → Tx R A
unfolding query return_early ◌>>=◌
rollback r = do query (λ t. tt); return_early r

-- `return` if the test fails, after `tx.rollback().await?`.
unfoldable pub require : {R : Type 0} → Bool → R → Tx R (Unit {0})
unfolding pure rollback
require true r = pure tt
require false r = rollback r

-- The same after `tx.rollback().await.ok()`, whose error is left aside.
unfoldable pub require_quietly : {R : Type 0} → Bool → R → Tx R (Unit {0})
unfolding pure return_early
require_quietly true r = pure tt
require_quietly false r = return_early r

unfoldable pub or_return : {R A : Type 0} → Option A → R → Tx R A
unfolding pure return_early
or_return none r = return_early r
or_return (some a) r = pure a

-- `tx.rollback().await?` and a return where there is no value.
unfoldable pub or_rollback : {R A : Type 0} → Option A → R → Tx R A
unfolding pure rollback
or_rollback none r = rollback r
or_rollback (some a) r = pure a

-- A transaction as its function sees it: it is committed, it is rolled back by a return, or the
-- database failed.
pub data Finished (R A : Type 0) : Type 0 where
  committed : A → Tables → Finished R A
  returned : R → Finished R A
  aborted : Finished R A

-- `begin`, the body and `commit`.
unfoldable pub with_commit : {R A : Type 0} → Tx R A → Tx R A
unfolding pure query ◌>>=◌
with_commit body = do query (λ t. tt); a ← body; query (λ t. tt); pure a

abbrev pub finished : {R A : Type 0} → Outcome R A → Finished R A
finished (going a s) = committed a s.tables
finished (early r) = returned r
finished failed = aborted

-- A function from its `begin` to its `commit`.
unfoldable pub transaction : {R A : Type 0} → Tx R A → (ℕ → Bool) → Tables → Finished R A
unfolding with_commit
transaction body works t =
    finished (with_commit body (record { tables = t; works = works; count = 0 }))
