-- ===== src/Player/Stable/Requests.antt =====
-- What the transactions of src/player/repository.rs keep: whatever each statement keeps.
use fourinarow_server.Base.{
  ◌-ℤ◌, ltb_ℤ, ℤ, lookup, Bool-cases, ℕ, ◌≡◌, refl, inl, inr, true, some, [], ◌∷◌, pos,
}
use mathlib.Core.Path.{◌∙◌}
use fourinarow_server.Player.{
  ItemId, QuestId, PlayerId, Key, game_played, game_won, level_completed, item_purchased, code_ℤ,
}
use fourinarow_server.Player.Tables.{Tables, InviteCode, QuestType, insert_idempotency, has_key}
use fourinarow_server.Player.Transaction.Rules.{
  Keeps, Ensures-pure, Ensures-statement, Ensures-query, Ensures-update, Ensures-bind,
  Ensures-require, Ensures-require_quietly, Ensures-or_return, Ensures-or_rollback, Ensures-from,
  Ensures-fact,
}
use fourinarow_server.Player.Quests.{Moment}
use fourinarow_server.Player.Events.{reward_tuple-IsPositive}
use fourinarow_server.Player.Operations.{
  add_item_tx, purchase_tx, purchase_literal, purchase_quest_literal, redeem_tx, has_use,
  insert_use, claim_tx,
}
use fourinarow_server.Player.Games.{
  settlement_literal, level_literal, settle_new, settle_tx, complete_level_tx,
}
use fourinarow_server.Player.Stable.{
  Stable, key-Stable, ledger-Stable, grant-Stable, grant_some-Stable, event-Stable,
  take_stock-Stable, milestones-Stable,
}

-- Each transaction.
module _ {P : Tables → Type 0} (stable : Stable P) where
  pub add_item_tx-Stable :
      (u : PlayerId) (i : ItemId) (n : ℤ) (business key : Key)
      → ltb_ℤ (pos 0) n ≡ true
      → Keeps P (add_item_tx u i n business key)
  unfolding add_item_tx
  add_item_tx-Stable u i n business key positive =
      Ensures-bind (key-Stable stable.rewarding u key) (λ new.
        Ensures-bind (Ensures-require {Q = λ _. P} new _ (λ e t p. p)) (λ _.
          Ensures-bind (grant-Stable stable.rewarding u i n business key positive)
            (λ _. Ensures-pure _ (λ t p. p))))

  pub purchase_tx-Stable :
      (u : PlayerId) (shop : ℕ) (i : ItemId) (operation : Key) (m : Moment)
      → Keeps P (purchase_tx u shop i operation m)
  unfolding purchase_tx
  purchase_tx-Stable u shop i operation m =
      let key : Key = purchase_literal ∷ u ∷ operation in
      let business : Key = shop ∷ i ∷ [] in
      Ensures-bind (key-Stable stable.rewarding u _) (λ new.
        Ensures-bind (Ensures-require {Q = λ _. P} new _ (λ e t p. p)) (λ _.
          Ensures-bind (Ensures-query {Q = λ _. P} _ (λ t p. p)) (λ row.
            Ensures-bind (Ensures-or_return {Q = λ _. P} row _ (λ a e t p. p)) (λ offer.
              Ensures-bind (Ensures-require {Q = λ _. P} _ _ (λ e t p. p)) (λ _.
                Ensures-bind
                  (Ensures-statement {Q = λ _. P} _
                    (λ t p. stable.consuming u offer.price_item_id offer.price t p))
                  (λ paid. Ensures-bind (Ensures-require {Q = λ _. P} paid _ (λ e t p. p)) (λ _.
                    Ensures-bind
                      (Ensures-update {Q = λ _. P} _
                        (λ t p. stable.rewarding.adding u i (pos 1) t refl p))
                      (λ _.
                        Ensures-bind
                          (ledger-Stable stable.rewarding u offer.price_item_id
                            (pos 0 -ℤ offer.price) business key)
                          (λ _.
                            Ensures-bind (ledger-Stable stable.rewarding u i (pos 1) business key)
                              (λ _. Ensures-bind (take_stock-Stable stable shop i offer.stock) (λ _.
                                Ensures-bind
                                  (event-Stable stable.rewarding u m item_purchased
                                    (purchase_quest_literal ∷ shop ∷ i ∷ []))
                                  (λ _. Ensures-pure _ (λ t p. p)))))))))))))

  pub claim_tx-Stable :
      (u : PlayerId) (kind : QuestType) (id : QuestId) (m : Moment) → Keeps P (claim_tx u kind id m)
  unfolding claim_tx
  claim_tx-Stable u kind id m = Ensures-bind (Ensures-query {Q = λ _. P} _ (λ t p. p)) (λ row.
      Ensures-bind (Ensures-or_return {Q = λ _. P} row _ (λ a e t p. p)) (λ (progress, quest).
        Ensures-bind (Ensures-require_quietly {Q = λ _. P} _ _ (λ e t p. p)) (λ _.
          Ensures-bind (Ensures-require_quietly {Q = λ _. P} _ _ (λ e t p. p)) (λ _.
            Ensures-bind (key-Stable stable.rewarding u _) (λ new.
              Ensures-bind (Ensures-require_quietly {Q = λ _. P} new _ (λ e t p. p)) (λ _.
                Ensures-bind
                  (grant_some-Stable stable.rewarding u _ _ _
                    (reward_tuple-IsPositive quest.reward_item_id quest.reward_quantity))
                  (λ _.
                    Ensures-bind
                      (Ensures-update {Q = λ _. P} _ (λ t p. stable.rewarding.quest_progress _ t p))
                      (λ _. Ensures-pure _ (λ t p. p)))))))))

  pub settle_new-Stable :
      (winner loser : PlayerId) (delta : ℤ) (m : Moment) → Keeps P (settle_new winner loser delta m)
  unfolding settle_new
  settle_new-Stable winner loser delta m =
      Ensures-bind (Ensures-query {Q = λ _. P} _ (λ t p. p)) (λ _.
        Ensures-bind (Ensures-require {Q = λ _. P} _ _ (λ e t p. p)) (λ _.
          Ensures-bind (Ensures-query {Q = λ _. P} _ (λ t p. p)) (λ _.
            Ensures-bind (Ensures-require {Q = λ _. P} _ _ (λ e t p. p)) (λ _.
              Ensures-bind (Ensures-update {Q = λ _. P} _ (λ t p. stable.users _ t p)) (λ _.
                Ensures-bind (Ensures-update {Q = λ _. P} _ (λ t p. stable.users _ t p)) (λ _.
                  Ensures-bind (Ensures-update {Q = λ _. P} _ (λ t p. stable.games _ t p)) (λ _.
                    Ensures-bind
                      (event-Stable stable.rewarding winner m game_won (settlement_literal ∷ []))
                      (λ _.
                        Ensures-bind
                          (event-Stable stable.rewarding winner m game_played
                            (settlement_literal ∷ []))
                          (λ _.
                            Ensures-bind
                              (event-Stable stable.rewarding loser m game_played
                                (settlement_literal ∷ []))
                              (λ _. Ensures-pure _ (λ t p. p)))))))))))

  pub settle_tx-Stable :
      (id : ℕ) (winner loser : PlayerId) (delta : ℤ) (m : Moment)
      → Keeps P (settle_tx id winner loser delta m)
  unfolding settle_tx
  settle_tx-Stable id winner loser delta m =
      Ensures-bind (key-Stable stable.rewarding winner _) (λ new.
        Ensures-bind (Ensures-require {Q = λ _. P} new _ (λ e t p. p))
          (λ _. settle_new-Stable winner loser delta m))

  pub complete_level_tx-Stable :
      (fuel : ℕ) (u : PlayerId) (mode : ℕ) (level : ℤ) (m : Moment)
      → Keeps P (complete_level_tx fuel u mode level m)
  unfolding complete_level_tx
  complete_level_tx-Stable fuel u mode level m =
      Ensures-bind (key-Stable stable.rewarding u _) (λ new.
        Ensures-bind (Ensures-require {Q = λ _. P} new _ (λ e t p. p)) (λ _.
          Ensures-bind (Ensures-query {Q = λ _. P} _ (λ t p. p)) (λ row.
            Ensures-bind (Ensures-or_rollback {Q = λ _. P} row _ (λ a e t p. p)) (λ current.
              Ensures-bind (Ensures-require {Q = λ _. P} _ _ (λ e t p. p)) (λ _.
                Ensures-bind (Ensures-update {Q = λ _. P} _ (λ t p. stable.mode_progress _ t p))
                  (λ _.
                    Ensures-bind
                      (event-Stable stable.rewarding u m level_completed
                        (level_literal ∷ mode ∷ code_ℤ level))
                      (λ _. Ensures-bind (milestones-Stable stable fuel u mode level) (λ found.
                        Ensures-bind (Ensures-or_return {Q = λ _. P} found _ (λ a e t p. p))
                          (λ _. Ensures-pure _ (λ t p. p))))))))))

  -- The number of uses is read before the code is used; nothing in between changes the codes.
  insert_use-Stable :
      (code : ℕ) (c : InviteCode) (u : PlayerId) (t : Tables)
      → P t × (lookup code t.invite_codes ≡ some c)
      → P (insert_use code u t).1 × (lookup code (insert_use code u t).1.invite_codes ≡ some c)
  unfolding insert_use
  insert_use-Stable code c u t (p, e) = elim (Bool-cases (has_use code u t.invite_code_uses)) [
    | inl used ↦ rw used (p, e)
    | inr new ↦ rw new (stable.invite_code_uses _ t p, e)
  ]

  insert_key-Stable :
      (code : ℕ) (c : InviteCode) (u : PlayerId) (key : Key) (t : Tables)
      → P t × (lookup code t.invite_codes ≡ some c)
      → P (insert_idempotency u key t).1
        × (lookup code (insert_idempotency u key t).1.invite_codes ≡ some c)
  unfolding insert_idempotency
  insert_key-Stable code c u key t (p, e) = elim (Bool-cases (has_key key t.idempotency)) [
    | inl used ↦ rw used (p, e)
    | inr new ↦ rw new (stable.rewarding.new_key key u t p, e)
  ]

  abbrev Read : ℕ → InviteCode → Tables → Type 0
  Read code c t = P t × (lookup code t.invite_codes ≡ some c)

  pub redeem_tx-Stable : (code : ℕ) (u : PlayerId) (m : Moment) → Keeps P (redeem_tx code u m)
  unfolding redeem_tx
  redeem_tx-Stable code u m =
      Ensures-bind
        (Ensures-query {Q = λ row t. P t × (lookup code t.invite_codes ≡ row)} _ (λ t p. (p, refl)))
        (λ row.
          Ensures-bind
            (Ensures-or_return {Q = λ c. Read code c} row _ (λ c e t (p, found). (p, found ∙ e)))
            (λ c.
              Ensures-bind (Ensures-require_quietly {Q = λ _. Read code c} _ _ (λ e t h. h)) (λ _.
                Ensures-bind
                  (Ensures-require_quietly
                    {Q = λ _ t. Read code c t × (ltb_ℤ c.uses c.max_uses ≡ true)} _ _
                    (λ e t h. (h, e)))
                  (λ _.
                    Ensures-fact (λ t (h, room). room)
                      (λ room.
                        Ensures-from (λ t (h, room). h)
                          (Ensures-bind
                            (Ensures-statement {Q = λ _. Read code c} _
                              (insert_key-Stable code c u _))
                            (λ new.
                              Ensures-bind
                                (Ensures-require_quietly {Q = λ _. Read code c} new _ (λ e t h. h))
                                (λ _.
                                  Ensures-bind
                                    (Ensures-statement {Q = λ _. Read code c} _
                                      (insert_use-Stable code c u))
                                    (λ used.
                                      Ensures-bind
                                        (Ensures-require_quietly {Q = λ _. Read code c} used _
                                          (λ e t h. h))
                                        (λ _.
                                          Ensures-bind
                                            (Ensures-update {Q = λ _. P} _
                                              (λ t (p, e). stable.using_code code c t e room p))
                                            (λ _.
                                              Ensures-bind
                                                (grant_some-Stable stable.rewarding u _ _ _ (
                                                  reward_tuple-IsPositive c.reward_item_id
                                                    c.reward_quantity))
                                                (λ _. Ensures-pure _ (λ t p. p)))))))))))))
