-- ===== src/Player/Run/Settlement.antt =====
-- `settle_game` of src/player/repository.rs: a game is settled once, and what it does to the ratings.
use fourinarow_server.Base.{
  ℤ, same_list_refl, Bool-cases, ℕ, ◌≡◌, refl, ◌⊎◌, inl, inr, Bool, true, List, [], ◌∷◌, arith,
}
use mathlib.Core.Path.{subst}
use fourinarow_server.Player.{PlayerId, Key}
use fourinarow_server.Player.Tables.{Tables, has_key, insert_idempotency}
use fourinarow_server.Player.Transaction.{
  Tx, statement, query, ◌>>=◌, ◌>>◌, require, rollback, return_early, committed, returned, aborted,
  transaction, with_commit,
}
use fourinarow_server.Player.Transaction.Rules.{
  Ensures, Ensures-statement, Ensures-bind, Ensures-require, Committed, transaction-Committed,
}
use fourinarow_server.Player.Quests.{Moment}
use fourinarow_server.Player.Repository.{PlayerRepository}
use fourinarow_server.Player.Games.{
  SettlementOutcome, nothing_settled, settlement_literal, settle_new, settle_tx,
}
use fourinarow_server.Player.Service.{Surroundings}
use fourinarow_server.Player.Stable.{Stable}
use fourinarow_server.Player.Stable.Requests.{settle_new-Stable}
use fourinarow_server.Player.Run.{Request, run}
use fourinarow_server.Player.Run.Cache.{OnlyStatsDirty}
use fourinarow_server.Player.Run.Requests.Sequence.{run-Holds}
use fourinarow_server.Player.Run.Stable.{Kept-Stable}
use fourinarow_server.Player.Run.Bounds.{adding-apart, consuming-apart, using_code-apart}

abbrev pub Used : Key → Tables → Type 0
Used key t = has_key key t.idempotency ≡ true

later-Used :
    (key k : Key) (u : PlayerId) (t : Tables)
    → Used key t
    → Used key (record t { idempotency = (k, u) ∷ t.idempotency })
unfolding has_key
later-Used key k u t h = ground (arith, h)

insert-Used :
    (u : PlayerId) (key : Key) (t : Tables)
    → (insert_idempotency u key t).0 ≡ true
    → Used key (insert_idempotency u key t).1
unfolding insert_idempotency has_key
insert-Used u key t new = elim (Bool-cases (has_key key t.idempotency)) [
  | inl used ↦ rw used used
  | inr other ↦ rw (other, same_list_refl key) refl
]

-- With a used key the transaction ends at once, or the database fails.
Used-skips :
    {R A : Type 0} (u : PlayerId) (key : Key) (r : R) (rest : Tx R A) (works : ℕ → Bool)
    (t : Tables)
    → Used key t
    → (transaction (statement (insert_idempotency u key) >>= λ new. require new r >> rest) works t
        ≡ returned r)
      ⊎ (transaction (statement (insert_idempotency u key) >>= λ new. require new r >> rest) works t
          ≡ aborted)
unfolding transaction with_commit query statement ◌>>=◌ require rollback return_early
    insert_idempotency
Used-skips u key r rest works t used = elim (Bool-cases (works 0)) [
  | inr e ↦ inr (rw e refl)
  | inl e ↦ elim (Bool-cases (works 1)) [
    | inr e1 ↦ inr (rw (e, e1) refl)
    | inl e1 ↦ elim (Bool-cases (works 2)) [
      | inr e2 ↦ inr (rw (e, e1, used, e2) refl)
      | inl e2 ↦ inl (rw (e, e1, used, e2) refl)
    ]
  ]
]

Used-Stable : (key : Key) → Stable (Used key)
Used-Stable key = record {
  rewarding = record {
    adding = adding-apart (λ rows t p. p);
    asset_ledger = λ rows t p. p;
    new_key = later-Used key;
    quest_progress = λ rows t p. p;
    achievement_progress = λ rows t p. p;
  };
  users = λ rows t p. p;
  player_stats = λ rows t p. p;
  consuming = consuming-apart (λ rows t p. p);
  selling = λ shop i t p. p;
  invite_code_uses = λ rows t p. p;
  using_code = using_code-apart (λ rows t p. p);
  mode_progress = λ rows t p. p;
  progressive_steps = λ rows t p. p;
  inbox = λ rows t p. p;
  games = λ rows t p. p;
}

abbrev settlement_key : ℕ → Key
settlement_key id = settlement_literal ∷ id ∷ []

settle_tx-Used :
    (id : ℕ) (winner loser : PlayerId) (delta : ℤ) (m : Moment)
    → Ensures (λ _. Unit {0}) (settle_tx id winner loser delta m) (λ _. Used (settlement_key id))
unfolding settle_tx
settle_tx-Used id winner loser delta m =
    Ensures-bind
      (Ensures-statement {Q = λ new t. new ≡ true → Used (settlement_key id) t} _
        (λ t _. insert-Used winner (settlement_key id) t))
      (λ new.
        Ensures-bind (Ensures-require {Q = λ _. Used (settlement_key id)} new _ (λ e t h. h e))
          (λ _. settle_new-Stable (Used-Stable (settlement_key id)) winner loser delta m))

-- Let a game be settled by a transaction that is committed, let only statistics be unsaved in the
-- cache then, and let any requests follow. Then a settlement with the same id, of whatever players and
-- change of rating, is answered with nothing and rolled back, or the database fails.
pub settle-once :
    (id : ℕ) (winner loser : PlayerId) (delta : ℤ) (m : Moment) (works : ℕ → Bool) (before : Tables)
    (outcome : SettlementOutcome) (r : PlayerRepository) (requests : List (Surroundings × Request))
    (winner' loser' : PlayerId) (delta' : ℤ) (m' : Moment) (works' : ℕ → Bool)
    → transaction (settle_tx id winner loser delta m) works before ≡ committed outcome r.tables
    → OnlyStatsDirty r.cache
    → (transaction (settle_tx id winner' loser' delta' m') works' (run requests r).tables
        ≡ returned (inr nothing_settled))
      ⊎ (transaction (settle_tx id winner' loser' delta' m') works' (run requests r).tables
          ≡ aborted)
unfolding settle_tx
settle-once id winner loser delta m works before outcome r requests winner' loser' delta' m' works'
      done only =
    let committed_key =
      transaction-Committed works before (settle_tx-Used id winner loser delta m) tt in
    let used : Used (settlement_key id) r.tables =
      subst (Committed (λ _. Used (settlement_key id))) done committed_key in
    Used-skips winner' (settlement_key id) (inr nothing_settled)
      (settle_new winner' loser' delta' m') works' (run requests r).tables
      (run-Holds (Kept-Stable (Used-Stable (settlement_key id))) requests r
        (record { tables = used; only = only })).tables
