-- ===== src/Player/Milestones.antt =====
-- The achievements of src/player/repository.rs that have a further step every so many levels.
pub mod Keeps
pub mod Ends
use fourinarow_server.Base.{
  ◌+ℤ◌, ◌*ℤ◌, ltb_ℤ, ℤ, length, ltb, ◌==◌, if◌then◌else◌, ℕ, zero, suc, ◌-◌, ◌%◌, ◌^◌, true, false,
  Option, none, some, List, [], ◌∷◌, ◌++◌, pos, negsuc,
}
use fourinarow_server.Player.{ItemId, AchievementId, PlayerId, Text}
use fourinarow_server.Player.Tables.{Tables, Progressive, RewardConfig, InboxRow, lookup2, insert2}
use fourinarow_server.Player.Transaction.{Tx, pure, statement, query, update, ◌>>=◌, ◌>>◌}

-- The achievement, the step reached, and the id of the message.
pub record Milestone : Type 0 where
  pub achievement_id : AchievementId
  pub step : ℤ
  pub inbox_id : ℕ

-- The `i32` to which a result is brought back where it is out of range.
unfoldable pub wrap_i32 : ℤ → ℤ
wrap_i32 (pos n) =
    let low = n % 2 ^ 32 in if ltb low (2 ^ 31) then pos low else negsuc (2 ^ 32 - low - 1)
wrap_i32 (negsuc n) =
    let low = n % 2 ^ 32 in if ltb low (2 ^ 31) then negsuc low else pos (2 ^ 32 - low - 1)

pub threshold : Progressive → ℤ → ℤ
unfolding wrap_i32
threshold p step = wrap_i32 (wrap_i32 (p.init +ℤ step) *ℤ p.gap)

-- `INSERT INTO user_inbox`: the id is given by the database.
pub insert_inbox : PlayerId → Text → ℤ → ItemId → ℤ → Tables → ℕ × Tables
insert_inbox u name level i qty t =
    let id = length t.inbox in
    (
      id,
      record t {
        inbox =
            record {
              id = id;
              user_id = u;
              name = name;
              threshold = level;
              reward_item_id = i;
              reward_qty = qty;
            }
            ∷ t.inbox;
      },
    )

pub next_step : ℤ → ℤ
unfolding wrap_i32
next_step step = wrap_i32 (step +ℤ pos 1)

amount : ℤ → RewardConfig → ℤ
unfolding wrap_i32 next_step
amount step cfg = wrap_i32 (wrap_i32 (next_step step *ℤ cfg.coefficient) *ℤ cfg.count)

-- A message for each reward of one step.
pub announce : {R : Type 0} → PlayerId → Progressive → ℤ → List RewardConfig → Tx R (List Milestone)
unfolding insert_inbox threshold amount next_step
announce u p step [] = pure []
announce u p step (cfg ∷ cfgs) = do
  id ← statement (insert_inbox u p.name (threshold p step) cfg.item_id (amount step cfg))
  rest ← announce u p step cfgs
  pure (record { achievement_id = p.id; step = next_step step; inbox_id = id } ∷ rest)

-- The loop over the steps, as often as the fuel says; the step at which it ends, or nothing if it
-- goes on.
pub announce_steps :
    {R : Type 0} → ℕ → PlayerId → Progressive → ℤ → ℤ → Tx R (Option (ℤ × List Milestone))
unfolding announce threshold next_step
announce_steps zero u p level step = pure none
announce_steps (suc fuel) u p level step = elim (ltb_ℤ level (threshold p step)) [
  | true ↦ pure (some (step, []))
  | false ↦ (do
    messages ← announce u p step p.rewards
    result ← announce_steps fuel u p level (next_step step)
    pure (elim result [ none ↦ none | some (last, more) ↦ some (last, messages ++ more) ]))
]

pub find_mode : ℕ → List Progressive → Option Progressive
find_mode mode [] = none
find_mode mode (p ∷ rows) =
    let rest = find_mode mode rows in if p.mode == mode then some p else rest

pub step_of : Option ℤ → ℤ
step_of none = pos 0
step_of (some step) = step

-- The row of the step, inserted with 0 if there is none.
pub ensure_step : PlayerId → AchievementId → Tables → ℤ × Tables
unfolding lookup2 insert2 step_of
ensure_step u a t =
    let step = step_of (lookup2 u a t.progressive_steps) in
    (step, record t { progressive_steps = insert2 u a step t.progressive_steps })

pub save_step :
    {R : Type 0}
    → PlayerId
    → AchievementId
    → ℤ
    → Option (ℤ × List Milestone)
    → Tx R (Option (List Milestone))
unfolding insert2
save_step u a step none = pure none
save_step u a step (some (last, messages)) =
    if ltb_ℤ step last
    then (do
      update (λ t. record t { progressive_steps = insert2 u a last t.progressive_steps })
      pure (some messages))
    else pure (some messages)

pub check_mode :
    {R : Type 0} → ℕ → PlayerId → ℤ → Option Progressive → Tx R (Option (List Milestone))
unfolding announce_steps ensure_step save_step
check_mode fuel u level none = pure (some [])
check_mode fuel u level (some p) = do
  step ← statement (ensure_step u p.id)
  result ← announce_steps fuel u p level step
  save_step u p.id step result

-- `check_progressive_achievements_in_tx`; nothing if the loop goes on after the fuel.
unfoldable pub check_progressive_achievements :
    {R : Type 0} → ℕ → PlayerId → ℕ → ℤ → Tx R (Option (List Milestone))
unfolding check_mode find_mode
check_progressive_achievements fuel u mode level = do
  p ← query (λ t. find_mode mode t.progressive)
  check_mode fuel u level p
