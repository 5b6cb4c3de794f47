-- ===== src/Player/Transaction/Rules.antt =====
-- What a transaction makes true of the tables, one rule for each way to build one.
use fourinarow_server.Base.{
  if◌then◌else◌, Bool-cases, ℕ, ◌≡◌, refl, inl, inr, Bool, true, false, Option, none, some,
}
use fourinarow_server.Player.Tables.{Tables}
use fourinarow_server.Player.Transaction.{
  Session, Outcome, going, early, failed, Tx, pure, return_early, statement, query, update, ◌>>=◌,
  rollback, require, require_quietly, or_return, or_rollback, continue, Finished, committed,
  returned, aborted, with_commit, finished, transaction,
}

abbrev pub After : {R A : Type 0} → (A → Tables → Type 0) → Outcome R A → Type 0
After Q (going a s) = Q a s.tables
After Q (early r) = Unit
After Q failed = Unit

-- From tables with `P` the transaction goes on, if it does, with a value and tables with `Q`.
pub record Ensures {R A : Type 0} (P : Tables → Type 0) (m : Tx R A) (Q : A → Tables → Type 0)
    : Type 0 where
  pub at : (s : Session) → P s.tables → After Q (m s)

abbrev pub Keeps : {R A : Type 0} → (Tables → Type 0) → Tx R A → Type 0
Keeps P m = Ensures P m (λ _. P)

module _ {R A : Type 0} {P : Tables → Type 0} {Q : A → Tables → Type 0} where
  pub Ensures-pure : (a : A) → ((t : Tables) → P t → Q a t) → Ensures {R = R} P (pure a) Q
  unfolding pure
  Ensures-pure a h = record { at = λ s p. h s.tables p }

  pub Ensures-return_early : (r : R) → Ensures {R = R} P (return_early r) Q
  unfolding return_early
  Ensures-return_early r = record { at = λ s p. tt }

  pub Ensures-statement :
      (f : Tables → A × Tables)
      → ((t : Tables) → P t → Q (f t).0 (f t).1)
      → Ensures {R = R} P (statement f) Q
  unfolding statement
  Ensures-statement f h = record {
    at = λ s p. elim (Bool-cases (s.works s.count)) [
      | inl works ↦ rw works (h s.tables p)
      | inr fails ↦ rw fails tt
    ];
  }

  pub Ensures-query :
      (f : Tables → A) → ((t : Tables) → P t → Q (f t) t) → Ensures {R = R} P (query f) Q
  unfolding query
  Ensures-query f h = Ensures-statement (λ t. (f t, t)) h

continue-After :
    {R A B : Type 0} {Q : A → Tables → Type 0} {S : B → Tables → Type 0} (o : Outcome R A)
    (f : A → Tx R B)
    → After Q o
    → ((a : A) → Ensures (Q a) (f a) S)
    → After S (continue o f)
continue-After (going a s) f h k = (k a).at s h
continue-After (early r) f h k = tt
continue-After failed f h k = tt

pub Ensures-bind :
    {R A B : Type 0} {P : Tables → Type 0} {Q : A → Tables → Type 0} {S : B → Tables → Type 0}
    {m : Tx R A} {f : A → Tx R B}
    → Ensures P m Q
    → ((a : A) → Ensures (Q a) (f a) S)
    → Ensures P (m >>= f) S
unfolding ◌>>=◌
Ensures-bind {m} {f} h k = record { at = λ s p. continue-After (m s) f (h.at s p) k }

module _ {R A : Type 0} {P : Tables → Type 0} {Q : A → Tables → Type 0} where
  pub Ensures-rollback : (r : R) → Ensures {R = R} P (rollback r) Q
  unfolding rollback
  Ensures-rollback r =
      Ensures-bind (Ensures-query {Q = λ _. P} (λ t. tt) (λ t p. p)) (λ _. Ensures-return_early r)

  pub Ensures-or_return :
      (o : Option A) (r : R)
      → ((a : A) → o ≡ some a → (t : Tables) → P t → Q a t)
      → Ensures {R = R} P (or_return o r) Q
  unfolding or_return
  Ensures-or_return none r h = Ensures-return_early r
  Ensures-or_return (some a) r h = Ensures-pure a (h a refl)

  pub Ensures-or_rollback :
      (o : Option A) (r : R)
      → ((a : A) → o ≡ some a → (t : Tables) → P t → Q a t)
      → Ensures {R = R} P (or_rollback o r) Q
  unfolding or_rollback
  Ensures-or_rollback none r h = Ensures-rollback r
  Ensures-or_rollback (some a) r h = Ensures-pure a (h a refl)

module _ {R : Type 0} {P : Tables → Type 0} where
  pub Ensures-update :
      {Q : Unit {0} → Tables → Type 0} (f : Tables → Tables)
      → ((t : Tables) → P t → Q tt (f t))
      → Ensures {R = R} P (update f) Q
  unfolding update
  Ensures-update f h = Ensures-statement (λ t. (tt, f t)) h

  -- What follows may use that the test succeeded.
  pub Ensures-require :
      {Q : Unit {0} → Tables → Type 0} (b : Bool) (r : R)
      → (b ≡ true → (t : Tables) → P t → Q tt t)
      → Ensures P (require b r) Q
  unfolding require
  Ensures-require true r h = Ensures-pure tt (h refl)
  Ensures-require false r h = Ensures-rollback r

  pub Ensures-require_quietly :
      {Q : Unit {0} → Tables → Type 0} (b : Bool) (r : R)
      → (b ≡ true → (t : Tables) → P t → Q tt t)
      → Ensures P (require_quietly b r) Q
  unfolding require_quietly
  Ensures-require_quietly true r h = Ensures-pure tt (h refl)
  Ensures-require_quietly false r h = Ensures-return_early r

pub Ensures-from :
    {R A : Type 0} {P P' : Tables → Type 0} {Q : A → Tables → Type 0} {m : Tx R A}
    → ((t : Tables) → P' t → P t)
    → Ensures P m Q
    → Ensures P' m Q
Ensures-from weaker h = record { at = λ s p. h.at s (weaker s.tables p) }

-- A fact that the tables show may be used for what follows.
pub Ensures-fact :
    {R A : Type 0} {P : Tables → Type 0} {Q : A → Tables → Type 0} {m : Tx R A} {F : Type 0}
    → ((t : Tables) → P t → F)
    → (F → Ensures P m Q)
    → Ensures P m Q
Ensures-fact shows h = record { at = λ s p. (h (shows s.tables p)).at s p }

pub Ensures-if :
    {R A : Type 0} {P : Tables → Type 0} {Q : A → Tables → Type 0} (b : Bool) (m n : Tx R A)
    → (b ≡ true → Ensures P m Q)
    → (b ≡ false → Ensures P n Q)
    → Ensures P (if b then m else n) Q
Ensures-if true m n h k = h refl
Ensures-if false m n h k = k refl

-- What is committed.
abbrev pub Committed : {R A : Type 0} → (A → Tables → Type 0) → Finished R A → Type 0
Committed Q (committed a t) = Q a t
Committed Q (returned r) = Unit
Committed Q aborted = Unit

finished-Committed :
    {R A : Type 0} (Q : A → Tables → Type 0) (o : Outcome R A)
    → After Q o
    → Committed Q (finished o)
finished-Committed Q (going a s) h = h
finished-Committed Q (early r) h = tt
finished-Committed Q failed h = tt

with_commit-Ensures :
    {R A : Type 0} {P : Tables → Type 0} {Q : A → Tables → Type 0} {body : Tx R A}
    → Ensures P body Q
    → Ensures P (with_commit body) Q
unfolding with_commit
with_commit-Ensures {P} {Q} h = Ensures-bind (Ensures-query {Q = λ _. P} (λ t. tt) (λ t p. p)) (λ _.
    Ensures-bind h (λ a.
      Ensures-bind (Ensures-query {Q = λ _. Q a} (λ t. tt) (λ t q. q))
        (λ _. Ensures-pure a (λ t q. q))))

pub transaction-Committed :
    {R A : Type 0} {P : Tables → Type 0} {Q : A → Tables → Type 0} {body : Tx R A}
    (works : ℕ → Bool) (t : Tables)
    → Ensures P body Q
    → P t
    → Committed Q (transaction body works t)
unfolding transaction
transaction-Committed {Q} {body} works t h p =
    let start : Session = record { tables = t; works = works; count = 0 } in
    finished-Committed Q (with_commit body start) ((with_commit-Ensures h).at start p)
