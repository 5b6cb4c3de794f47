-- ===== src/Player/Books/Rewards.antt =====
-- The books through invitations, claims, games and levels of src/player/repository.rs.
use fourinarow_server.Base.{ℤ, lookup, Bool-cases, Option-cases, ℕ, inl, inr, [], ◌∷◌, pos}
use fourinarow_server.Player.{
  QuestId, PlayerId, Key, GameEvent, game_played, game_won, level_completed, code_ℤ,
}
use fourinarow_server.Player.Tables.{Tables, QuestType}
use fourinarow_server.Player.Transaction.{update}
use fourinarow_server.Player.Transaction.Rules.{
  Keeps, Ensures-pure, Ensures-statement, Ensures-query, Ensures-update, Ensures-bind,
  Ensures-require, Ensures-require_quietly, Ensures-or_return, Ensures-or_rollback,
}
use fourinarow_server.Player.Quests.{Moment}
use fourinarow_server.Player.Milestones.Keeps.{check_progressive_achievements-Keeps}
use fourinarow_server.Player.Operations.{
  invite_literal, redeem_tx, has_use, insert_use, count_use, quest_key, claim_tx,
}
use fourinarow_server.Player.Games.{
  settlement_literal, level_literal, level_key, settle_new, settle_tx, rate_user, complete_level_tx,
}
use fourinarow_server.Player.Service.{event_tx}
use fourinarow_server.Player.Books.{Books, Fresh}
use fourinarow_server.Player.Books.Requests.{
  key-Books, after_key-Books, after_key_quietly-Books, grant_some-Books, event-Books,
}

module _ (w j : ℕ) (base : ℤ) where
  abbrev Even : Tables → Type 0
  Even = Books w j base (pos 0)

  abbrev Keyed : Key → Tables → Type 0
  Keyed key t = Books w j base (pos 0) t × Fresh key t

  insert_use-Keyed :
      (code : ℕ) (u : PlayerId) (key : Key) (t : Tables)
      → Keyed key t
      → Keyed key (insert_use code u t).1
  unfolding insert_use
  insert_use-Keyed code u key t (b, f) = elim (Bool-cases (has_use code u t.invite_code_uses)) [
    | inl used ↦ rw used (b, f)
    | inr new ↦ rw new (
      record { keyed = b.keyed; even = b.even; priced = b.priced },
      record { used = f.used; unposted = f.unposted },
    )
  ]

  count_use-Keyed : (code : ℕ) (key : Key) (t : Tables) → Keyed key t → Keyed key (count_use code t)
  unfolding count_use
  count_use-Keyed code key t (b, f) = elim (Option-cases (lookup code t.invite_codes)) [
    | inl e ↦ rw (count_use, e) (b, f)
    | inr (c, e) ↦
        rw (count_use, e)
          (
            record { keyed = b.keyed; even = b.even; priced = b.priced },
            record { used = f.used; unposted = f.unposted },
          )
  ]

  pub redeem_tx-Books :
      (code : ℕ) (u : PlayerId) (m : Moment) → Keeps (Books w j base (pos 0)) (redeem_tx code u m)
  unfolding redeem_tx
  redeem_tx-Books code u m =
      let key : Key = invite_literal ∷ code ∷ u ∷ [] in
      Ensures-bind (Ensures-query {Q = λ _. Even} _ (λ t b. b)) (λ row.
        Ensures-bind (Ensures-or_return {Q = λ _. Even} row _ (λ a e t b. b)) (λ invite.
          Ensures-bind (Ensures-require_quietly {Q = λ _. Even} _ _ (λ e t b. b)) (λ _.
            Ensures-bind (Ensures-require_quietly {Q = λ _. Even} _ _ (λ e t b. b)) (λ _.
              Ensures-bind (key-Books u key) (λ new. after_key_quietly-Books new _ key (
                Ensures-bind
                  (Ensures-statement {Q = λ _. Keyed key} _ (insert_use-Keyed code u key))
                  (λ used.
                    Ensures-bind
                      (Ensures-require_quietly {Q = λ _. Keyed key} used _ (λ e t bf. bf))
                      (λ _.
                        Ensures-bind
                          (Ensures-update {Q = λ _. Keyed key} _ (count_use-Keyed code key))
                          (λ _.
                            Ensures-bind (grant_some-Books u _ key _)
                              (λ _. Ensures-pure _ (λ t b. b)))))))))))

  pub claim_tx-Books :
      (u : PlayerId) (kind : QuestType) (id : QuestId) (m : Moment)
      → Keeps (Books w j base (pos 0)) (claim_tx u kind id m)
  unfolding claim_tx
  claim_tx-Books u kind id m =
      let key : Key = quest_key kind u id m in
      Ensures-bind (Ensures-query {Q = λ _. Even} _ (λ t b. b)) (λ row.
        Ensures-bind (Ensures-or_return {Q = λ _. Even} row _ (λ a e t b. b)) (λ (progress, quest).
          Ensures-bind (Ensures-require_quietly {Q = λ _. Even} _ _ (λ e t b. b)) (λ _.
            Ensures-bind (Ensures-require_quietly {Q = λ _. Even} _ _ (λ e t b. b)) (λ _.
              Ensures-bind (key-Books u key) (λ new. after_key_quietly-Books new _ key (
                Ensures-bind (grant_some-Books u _ key _) (λ _.
                  Ensures-bind
                    (Ensures-update {Q = λ _. Even} _
                      (λ t b. record { keyed = b.keyed; even = b.even; priced = b.priced }))
                    (λ _. Ensures-pure _ (λ t b. b)))))))))

  pub event_tx-Books :
      (u : PlayerId) (m : Moment) (event : GameEvent) (prefix : Key)
      → Keeps (Books w j base (pos 0)) (event_tx u m event prefix)
  unfolding event_tx
  event_tx-Books u m event prefix =
      Ensures-bind (event-Books u m event prefix) (λ _. Ensures-pure _ (λ t b. b))

  -- Three changes that the books do not read.
  rate-Books :
      {R : Type 0} (f : ℤ → ℤ) (u : PlayerId)
      → Keeps {R = R} (Books w j base (pos 0)) (update (rate_user f u))
  rate-Books f u =
      Ensures-update _ (λ t b. record { keyed = b.keyed; even = b.even; priced = b.priced })

  pub settle_tx-Books :
      (id : ℕ) (winner loser : PlayerId) (delta : ℤ) (m : Moment)
      → Keeps (Books w j base (pos 0)) (settle_tx id winner loser delta m)
  unfolding settle_tx settle_new
  settle_tx-Books id winner loser delta m =
      let key : Key = settlement_literal ∷ id ∷ [] in
      Ensures-bind (key-Books winner key) (λ new. after_key-Books new _ key (
        Ensures-bind (Ensures-query {Q = λ _. Even} _ (λ t (b, f). b)) (λ _.
          Ensures-bind (Ensures-require {Q = λ _. Even} _ _ (λ e t b. b)) (λ _.
            Ensures-bind (Ensures-query {Q = λ _. Even} _ (λ t b. b)) (λ _.
              Ensures-bind (Ensures-require {Q = λ _. Even} _ _ (λ e t b. b)) (λ _.
                Ensures-bind (rate-Books _ winner) (λ _. Ensures-bind (rate-Books _ loser) (λ _.
                  Ensures-bind
                    (Ensures-update {Q = λ _. Even} _
                      (λ t b. record { keyed = b.keyed; even = b.even; priced = b.priced }))
                    (λ _.
                      Ensures-bind (event-Books winner m game_won (settlement_literal ∷ [])) (λ _.
                        Ensures-bind (event-Books winner m game_played (settlement_literal ∷ []))
                          (λ _.
                            Ensures-bind (event-Books loser m game_played (settlement_literal ∷ []))
                              (λ _. Ensures-pure _ (λ t b. b)))))))))))))

  pub complete_level_tx-Books :
      (fuel : ℕ) (u : PlayerId) (mode : ℕ) (level : ℤ) (m : Moment)
      → Keeps (Books w j base (pos 0)) (complete_level_tx fuel u mode level m)
  unfolding complete_level_tx
  complete_level_tx-Books fuel u mode level m =
      let key : Key = level_key u mode level in
      Ensures-bind (key-Books u key) (λ new. after_key-Books new _ key (
        Ensures-bind (Ensures-query {Q = λ _. Even} _ (λ t (b, f). b)) (λ row.
          Ensures-bind (Ensures-or_rollback {Q = λ _. Even} row _ (λ a e t b. b)) (λ current.
            Ensures-bind (Ensures-require {Q = λ _. Even} _ _ (λ e t b. b)) (λ _.
              Ensures-bind
                (Ensures-update {Q = λ _. Even} _
                  (λ t b. record { keyed = b.keyed; even = b.even; priced = b.priced }))
                (λ _.
                  Ensures-bind
                    (event-Books u m level_completed (level_literal ∷ mode ∷ code_ℤ level))
                    (λ _.
                      Ensures-bind
                        (check_progressive_achievements-Keeps
                          (λ rows t b. record { keyed = b.keyed; even = b.even; priced = b.priced })
                          (λ rows t b. record { keyed = b.keyed; even = b.even; priced = b.priced })
                          fuel u mode level)
                        (λ found.
                          Ensures-bind (Ensures-or_return {Q = λ _. Even} found _ (λ a e t b. b))
                            (λ _. Ensures-pure _ (λ t b. b))))))))))
