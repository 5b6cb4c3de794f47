-- ===== src/Player/Milestones/Keeps.antt =====
-- What the milestones of src/player/repository.rs keep of the tables: whatever does not depend on the
-- steps reached and on the inbox.
use fourinarow_server.Base.{
  ltb_ℤ, ℤ, Dict, Bool-cases, ℕ, zero, suc, inl, inr, Option, none, some, List, [], ◌∷◌,
}
use fourinarow_server.Player.{AchievementId, PlayerId}
use fourinarow_server.Player.Tables.{Tables, Progressive, RewardConfig, InboxRow}
use fourinarow_server.Player.Transaction.Rules.{
  Keeps, Ensures-pure, Ensures-statement, Ensures-query, Ensures-update, Ensures-bind, Ensures-if,
}
use fourinarow_server.Player.Milestones.{
  Milestone, threshold, next_step, announce, announce_steps, ensure_step, save_step, check_mode,
  check_progressive_achievements, insert_inbox,
}

module _ {R : Type 0} {P : Tables → Type 0}
    (inbox : (rows : List InboxRow) (t : Tables) → P t → P (record t { inbox = rows }))
    (steps : (rows : Dict (Dict ℤ)) (t : Tables)
      → P t
      → P (record t { progressive_steps = rows })) where
  pub announce-Keeps :
      (u : PlayerId) (p : Progressive) (step : ℤ) (cfgs : List RewardConfig)
      → Keeps {R = R} P (announce u p step cfgs)
  unfolding announce insert_inbox
  announce-Keeps u p step [] = Ensures-pure _ (λ t h. h)
  announce-Keeps u p step (cfg ∷ cfgs) =
      Ensures-bind (Ensures-statement {Q = λ _. P} _ (λ t h. inbox _ t h))
        (λ id. Ensures-bind (announce-Keeps u p step cfgs) (λ rest. Ensures-pure _ (λ t h. h)))

  announce_steps-Keeps :
      (fuel : ℕ) (u : PlayerId) (p : Progressive) (level step : ℤ)
      → Keeps {R = R} P (announce_steps fuel u p level step)
  unfolding announce_steps
  announce_steps-Keeps zero u p level step = Ensures-pure _ (λ t h. h)
  announce_steps-Keeps (suc fuel) u p level step =
      elim (Bool-cases (ltb_ℤ level (threshold p step))) [
        | inl last ↦ rw (announce_steps, last) (Ensures-pure _ (λ t h. h))
        | inr more ↦
            rw (announce_steps, more)
              (Ensures-bind (announce-Keeps u p step p.rewards) (λ messages.
                Ensures-bind (announce_steps-Keeps fuel u p level (next_step step))
                  (λ result. Ensures-pure _ (λ t h. h))))
      ]

  save_step-Keeps :
      (u : PlayerId) (a : AchievementId) (step : ℤ) (result : Option (ℤ × List Milestone))
      → Keeps {R = R} P (save_step u a step result)
  unfolding save_step
  save_step-Keeps u a step none = Ensures-pure _ (λ t h. h)
  save_step-Keeps u a step (some (last, messages)) =
      Ensures-if (ltb_ℤ step last) _ _
        (λ _.
          Ensures-bind (Ensures-update {Q = λ _. P} _ (λ t h. steps _ t h))
            (λ _. Ensures-pure _ (λ t h. h)))
        (λ _. Ensures-pure _ (λ t h. h))

  check_mode-Keeps :
      (fuel : ℕ) (u : PlayerId) (level : ℤ) (p : Option Progressive)
      → Keeps {R = R} P (check_mode fuel u level p)
  unfolding check_mode ensure_step
  check_mode-Keeps fuel u level none = Ensures-pure _ (λ t h. h)
  check_mode-Keeps fuel u level (some p) =
      Ensures-bind (Ensures-statement {Q = λ _. P} _ (λ t h. steps _ t h)) (λ step.
        Ensures-bind (announce_steps-Keeps fuel u p level step) (save_step-Keeps u p.id step))

  pub check_progressive_achievements-Keeps :
      (fuel : ℕ) (u : PlayerId) (mode : ℕ) (level : ℤ)
      → Keeps {R = R} P (check_progressive_achievements fuel u mode level)
  unfolding check_progressive_achievements
  check_progressive_achievements-Keeps fuel u mode level =
      Ensures-bind (Ensures-query {Q = λ _. P} _ (λ t h. h)) (check_mode-Keeps fuel u level)
