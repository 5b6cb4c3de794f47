-- ===== src/Player/Run/Ratings.antt =====
-- What `settle_game` of src/player/repository.rs does to the ratings and to the list of games.
use fourinarow_server.Base.{
  ◌+ℤ◌, ◌-ℤ◌, ℤ, int_laws, lookup, lookup-insert, ◌==◌, if◌then◌else◌, Bool-cases, Option-cases, ℕ,
  ◌≡◌, refl, ap, ◌∙◌, inl, inr, Bool, true, false, Option, none, some, List, [], ◌∷◌, arith, pos,
}
use mathlib.Core.Path.{subst}
use fourinarow_server.Player.{PlayerId, game_played, game_won}
use fourinarow_server.Player.Tables.{Tables, UserRow}
use fourinarow_server.Player.Transaction.{committed, transaction}
use fourinarow_server.Player.Transaction.Rules.{
  Ensures, Ensures-query, Ensures-update, Ensures-bind, Ensures-require, Ensures-pure, Committed,
  transaction-Committed,
}
use fourinarow_server.Player.Quests.{Moment}
use fourinarow_server.Player.Games.{
  SettlementOutcome, settlement_literal, exists, rate, rate_user, settle_new, settle_tx,
}
use fourinarow_server.Player.Stable.{Rewarding, key-Stable, event-Stable}
use fourinarow_server.Player.Run.Bounds.{adding-apart}

-- The rating of a user, 0 without a row.
abbrev pub rating_of : Option UserRow → ℤ
rating_of none = pos 0
rating_of (some row) = row.skill_rating

abbrev pub rating : PlayerId → Tables → ℤ
rating v t = rating_of (lookup v t.users)

abbrev pub change_for : PlayerId → PlayerId → ℤ → ℤ
change_for v u n = if u == v then n else pos 0

abbrev Present : PlayerId → Tables → Type 0
Present u t = exists (lookup u t.users) ≡ true

-- The ratings and the games.
record Scores (v : PlayerId) (x : ℤ) (played : List (PlayerId × PlayerId)) (t : Tables)
    : Type 0 where
  rated : rating v t ≡ x
  listed : t.games ≡ played

Scores-Rewarding :
    {v : PlayerId} {x : ℤ} {played : List (PlayerId × PlayerId)} → Rewarding (Scores v x played)
Scores-Rewarding = record {
  adding = adding-apart (λ rows t p. record { rated = p.rated; listed = p.listed });
  asset_ledger = λ rows t p. record { rated = p.rated; listed = p.listed };
  new_key = λ key u t p. record { rated = p.rated; listed = p.listed };
  quest_progress = λ rows t p. record { rated = p.rated; listed = p.listed };
  achievement_progress = λ rows t p. record { rated = p.rated; listed = p.listed };
}

rate-Scores :
    (f : ℤ → ℤ) (n : ℤ) (u v : PlayerId) (x : ℤ) (played : List (PlayerId × PlayerId)) (t : Tables)
    → ((r : ℤ) → f r ≡ r +ℤ n)
    → Present u t
    → Scores v x played t
    → Scores v (x +ℤ change_for v u n) played (rate_user f u t)
unfolding rate exists
rate-Scores f n u v x played t adds present p = elim (Option-cases (lookup u t.users)) [
  | inl e ↦ let absent : false ≡ true = (rw e at present) in cc
  | inr (row, e) ↦ elim (Bool-cases (u == v)) [
    | inl same ↦
        let here : u ≡ v = ground arith in
        let before : row.skill_rating ≡ x = (rw (← here, e) at p.rated) in
        record {
          rated = rw (rate, e, lookup-insert v u, same, adds row.skill_rating, before) refl;
          listed = p.listed;
        }
    | inr other ↦ record {
      rated = rw (rate, e, lookup-insert v u, other, p.rated) (omega int_laws);
      listed = p.listed;
    }
  ]
]

rate-Present : (f : ℤ → ℤ) (u v : PlayerId) (t : Tables) → Present v t → Present v (rate_user f u t)
unfolding rate exists
rate-Present f u v t present = elim (Option-cases (lookup u t.users)) [
  | inl e ↦ rw (rate, e) present
  | inr (row, e) ↦ elim (Bool-cases (u == v)) [
    | inl same ↦
        let here : u ≡ v = ground arith in
        rw (rate, e, lookup-insert v u, same) (rw (← here, e) at present)
    | inr other ↦ rw (rate, e, lookup-insert v u, other) present
  ]
]

minus : (n r : ℤ) → r -ℤ n ≡ r +ℤ (pos 0 -ℤ n)
minus n r = omega int_laws

settle_new-Scores :
    (winner loser v : PlayerId) (delta : ℤ) (m : Moment) (x : ℤ)
    (played : List (PlayerId × PlayerId))
    → Ensures (Scores v x played) (settle_new winner loser delta m) (λ _.
      Scores v
        ((x +ℤ change_for v winner delta) +ℤ change_for v loser (pos 0 -ℤ delta))
        ((winner, loser) ∷ played))
unfolding settle_new
settle_new-Scores winner loser v delta m x played =
    let y : ℤ = x +ℤ change_for v winner delta in
    let z : ℤ = y +ℤ change_for v loser (pos 0 -ℤ delta) in
    let after : Tables → Type 0 = Scores v z ((winner, loser) ∷ played) in
    Ensures-bind
      (Ensures-query {Q = λ found t. Scores v x played t × (exists (lookup winner t.users) ≡ found)}
        _ (λ t p. (p, refl)))
      (λ found.
        Ensures-bind
          (Ensures-require {Q = λ _ t. Scores v x played t × Present winner t} found _
            (λ e t (p, f). (p, f ∙ e)))
          (λ _.
            Ensures-bind
              (Ensures-query
                {Q = λ other t.
                  (Scores v x played t × Present winner t)
                  × (exists (lookup loser t.users) ≡ other)}
                _ (λ t p. (p, refl)))
              (λ other.
                Ensures-bind
                  (Ensures-require
                    {Q = λ _ t. (Scores v x played t × Present winner t) × Present loser t} other _
                    (λ e t (p, f). (p, f ∙ e)))
                  (λ _.
                    Ensures-bind
                      (Ensures-update {Q = λ _ t. Scores v y played t × Present loser t} _
                        (λ t (p, l). (
                          rate-Scores (λ r. r +ℤ delta) delta winner v x played t (λ r. refl) p.1
                              p.0,
                          rate-Present (λ r. r +ℤ delta) winner loser t l,
                        )))
                      (λ _.
                        Ensures-bind
                          (Ensures-update {Q = λ _. Scores v z played} _ (λ t (p, l).
                            rate-Scores (λ r. r -ℤ delta) (pos 0 -ℤ delta) loser v y played t
                              (minus delta) l p))
                          (λ _.
                            Ensures-bind
                              (Ensures-update {Q = λ _. after} _ (λ t p. record {
                                rated = p.rated;
                                listed = ap (λ rest. (winner, loser) ∷ rest) p.listed;
                              }))
                              (λ _.
                                Ensures-bind
                                  (event-Stable Scores-Rewarding winner m game_won
                                    (settlement_literal ∷ []))
                                  (λ _.
                                    Ensures-bind
                                      (event-Stable Scores-Rewarding winner m game_played
                                        (settlement_literal ∷ []))
                                      (λ _.
                                        Ensures-bind
                                          (event-Stable Scores-Rewarding loser m game_played
                                            (settlement_literal ∷ []))
                                          (λ _. Ensures-pure _ (λ t p. p)))))))))))

settle_tx-Scores :
    (id : ℕ) (winner loser v : PlayerId) (delta : ℤ) (m : Moment) (x : ℤ)
    (played : List (PlayerId × PlayerId))
    → Ensures (Scores v x played) (settle_tx id winner loser delta m) (λ _.
      Scores v
        ((x +ℤ change_for v winner delta) +ℤ change_for v loser (pos 0 -ℤ delta))
        ((winner, loser) ∷ played))
unfolding settle_tx
settle_tx-Scores id winner loser v delta m x played =
    Ensures-bind (key-Stable Scores-Rewarding winner (settlement_literal ∷ id ∷ [])) (λ new.
      Ensures-bind (Ensures-require {Q = λ _. Scores v x played} new _ (λ e t p. p))
        (λ _. settle_new-Scores winner loser v delta m x played))

committed-Scores :
    (id : ℕ) (winner loser v : PlayerId) (delta : ℤ) (m : Moment) (works : ℕ → Bool)
    (before after : Tables) (outcome : SettlementOutcome)
    → transaction (settle_tx id winner loser delta m) works before ≡ committed outcome after
    → Scores v
        ((rating v before +ℤ change_for v winner delta) +ℤ change_for v loser (pos 0 -ℤ delta))
        ((winner, loser) ∷ before.games)
        after
committed-Scores id winner loser v delta m works before after outcome done =
    let x : ℤ =
      (rating v before +ℤ change_for v winner delta) +ℤ change_for v loser (pos 0 -ℤ delta) in
    subst (Committed (λ _. Scores v x ((winner, loser) ∷ before.games))) done (
      transaction-Committed works before
        (settle_tx-Scores id winner loser v delta m (rating v before) before.games)
        (record { rated = refl; listed = refl }))

-- A settlement that is committed has put the game on the list, has added the change to the rating of
-- the winner and taken it from that of the loser, and leaves the rating of everybody else as it was. A
-- player against oneself keeps the rating.
pub settle-rating :
    (id : ℕ) (winner loser : PlayerId) (delta : ℤ) (m : Moment) (works : ℕ → Bool)
    (before after : Tables) (outcome : SettlementOutcome)
    → transaction (settle_tx id winner loser delta m) works before ≡ committed outcome after
    → (after.games ≡ (winner, loser) ∷ before.games)
      × ((v : PlayerId)
          → rating v after
            ≡ (rating v before +ℤ change_for v winner delta) +ℤ change_for v loser (pos 0 -ℤ delta))
settle-rating id winner loser delta m works before after outcome done = (
  (committed-Scores id winner loser winner delta m works before after outcome done).listed,
  λ v. (committed-Scores id winner loser v delta m works before after outcome done).rated,
)
