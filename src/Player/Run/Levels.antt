-- ===== src/Player/Run/Levels.antt =====
-- `complete_level` of src/player/repository.rs: the level that is reached.
use fourinarow_server.Base.{
  ◌+ℤ◌, same_ℤ, ℤ, int_laws, Dict, ◌==◌, if◌then◌else◌, ℕ, ◌≡◌, refl, sym, ap, ◌∙◌, Bool, true,
  ◌&&◌, Option, some, ◌∷◌, pos,
}
use mathlib.Core.Path.{subst}
use fourinarow_server.Player.{PlayerId, level_completed, code_ℤ}
use fourinarow_server.Player.Tables.{Tables, lookup2, insert2, lookup2-insert2}
use fourinarow_server.Player.Transaction.{committed, transaction}
use fourinarow_server.Player.Transaction.Rules.{
  Ensures, Ensures-query, Ensures-update, Ensures-bind, Ensures-require, Ensures-or_return,
  Ensures-or_rollback, Ensures-fact, Ensures-from, Ensures-pure, Committed, transaction-Committed,
}
use fourinarow_server.Player.Quests.{Moment}
use fourinarow_server.Player.Games.{CompleteLevelOutcome, level_literal, complete_level_tx}
use fourinarow_server.Player.Milestones.Keeps.{check_progressive_achievements-Keeps}
use fourinarow_server.Player.Stable.{Rewarding, key-Stable, event-Stable}
use fourinarow_server.Player.Run.Bounds.{adding-apart}

abbrev Modes : Dict (Dict ℤ) → Tables → Type 0
Modes rows t = t.mode_progress ≡ rows

Modes-Rewarding : {rows : Dict (Dict ℤ)} → Rewarding (Modes rows)
Modes-Rewarding = record {
  adding = adding-apart (λ rows t p. p);
  asset_ledger = λ rows t p. p;
  new_key = λ key u t p. p;
  quest_progress = λ rows t p. p;
  achievement_progress = λ rows t p. p;
}

-- The level after the one that was reached.
abbrev pub Next : ℤ → Option ℤ → Type 0
Next level o = (current : ℤ) × (o ≡ some current) × (level ≡ current +ℤ pos 1)

same_level : (a b : ℤ) → same_ℤ a b ≡ true → a ≡ b
same_level a b e = grind int_laws

complete_level_tx-Next :
    (fuel : ℕ) (u : PlayerId) (mode : ℕ) (level : ℤ) (m : Moment) (rows : Dict (Dict ℤ))
    → Ensures
        (Modes rows)
        (complete_level_tx fuel u mode level m)
        (λ _ t. Next level (lookup2 u mode rows) × Modes (insert2 u mode level rows) t)
unfolding complete_level_tx
complete_level_tx-Next fuel u mode level m rows =
    Ensures-bind (key-Stable Modes-Rewarding u _) (λ new.
      Ensures-bind (Ensures-require {Q = λ _. Modes rows} new _ (λ e t p. p)) (λ _.
        Ensures-bind
          (Ensures-query {Q = λ row t. Modes rows t × (lookup2 u mode rows ≡ row)} _
            (λ t p. (p, ap (lookup2 u mode) (sym p))))
          (λ row.
            Ensures-bind
              (Ensures-or_rollback
                {Q = λ current t. Modes rows t × (lookup2 u mode rows ≡ some current)} row _
                (λ current e t (p, f). (p, f ∙ e)))
              (λ current.
                Ensures-bind
                  (Ensures-require {Q = λ _ t. Modes rows t × Next level (lookup2 u mode rows)} _ _
                    (λ e t (p, f). (p, (current, f, same_level level (current +ℤ pos 1) e))))
                  (λ _.
                    Ensures-fact (λ t (p, next). next)
                      (λ next.
                        Ensures-from (λ t (p, _). p)
                          (Ensures-bind
                            (Ensures-update {Q = λ _. Modes (insert2 u mode level rows)} _
                              (λ t p. ap (insert2 u mode level) p))
                            (λ _.
                              Ensures-bind
                                (event-Stable Modes-Rewarding u m level_completed
                                  (level_literal ∷ mode ∷ code_ℤ level))
                                (λ _.
                                  Ensures-bind
                                    (check_progressive_achievements-Keeps (λ rows t p. p)
                                      (λ rows t p. p) fuel u mode level)
                                    (λ found.
                                      Ensures-bind
                                        (Ensures-or_return
                                          {Q = λ _. Modes (insert2 u mode level rows)} found _
                                          (λ a e t p. p))
                                        (λ _. Ensures-pure _ (λ t p. (next, p)))))))))))))

-- A completed level that is committed follows on the level that the player had reached in the mode, and
-- is then the level reached there; the levels of other players and modes are as they were.
pub complete_level-Next :
    (fuel : ℕ) (u : PlayerId) (mode : ℕ) (level : ℤ) (m : Moment) (works : ℕ → Bool)
    (before after : Tables) (outcome : CompleteLevelOutcome)
    → transaction (complete_level_tx fuel u mode level m) works before ≡ committed outcome after
    → Next level (lookup2 u mode before.mode_progress)
      × ((v : PlayerId) (other : ℕ)
          → lookup2 v other after.mode_progress ≡ (
              if (u == v) && (mode == other)
              then some level
              else lookup2 v other before.mode_progress))
complete_level-Next fuel u mode level m works before after outcome done =
    let reached =
      subst
        (Committed (λ _ t.
          Next level (lookup2 u mode before.mode_progress)
          × Modes (insert2 u mode level before.mode_progress) t))
        done
        (transaction-Committed works before
          (complete_level_tx-Next fuel u mode level m before.mode_progress) refl) in
    (
      reached.0,
      λ v other.
          ap (lookup2 v other) reached.1
          ∙ lookup2-insert2 u mode v other level before.mode_progress,
    )
