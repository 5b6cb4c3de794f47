-- ===== src/Player/Quests.antt =====
-- The progress of quests and achievements that an event of src/quests.rs makes, inside a transaction
-- of src/player/repository.rs.
use fourinarow_server.Base.{
  ◌+ℤ◌, ltb_ℤ, leb_ℤ, ℤ, ◌==◌, if◌then◌else◌, is_some, Bool, true, false, not, ◌&&◌, ◌||◌, Option,
  none, some, List, [], ◌∷◌, pos,
}
use fourinarow_server.Player.{ItemId, QuestId, PlayerId, Day, Instant, Key, GameEvent, same_event}
use fourinarow_server.Player.Tables.{
  Tables, Quest, QuestType, story, daily, QuestRow, add_inventory, insert_asset_ledger,
}
use fourinarow_server.Player.Tables.Progress.{find_progress, update_progress}
use fourinarow_server.Player.Transaction.{Tx, pure, query, update, ◌>>=◌, ◌>>◌}

pub record Moment : Type 0 where
  pub now : Instant
  pub today : Day

-- `reward_tuple`.
unfoldable pub reward_tuple : Option ItemId → ℤ → Option (ItemId × ℤ)
reward_tuple none qty = none
reward_tuple (some i) qty = if ltb_ℤ (pos 0) qty then some (i, qty) else none

unfoldable pub grant : {R : Type 0} → PlayerId → ItemId → ℤ → Key → Key → Tx R (Unit {0})
grant u i qty business key = do
  update (add_inventory u i qty)
  update (insert_asset_ledger u i qty business key)

unfoldable pub same_type : QuestType → QuestType → Bool
same_type story story = true
same_type daily daily = true
same_type _ _ = false

-- `load_quests_for_condition`.
unfoldable pub quests_for : QuestType → GameEvent → List Quest → List Quest
unfolding same_type same_event
quests_for kind event [] = []
quests_for kind event (q ∷ quests) =
    let rest = quests_for kind event quests in
    if same_type q.quest_type kind && same_event q.condition_type event then q ∷ rest else rest

-- Whether some story quest is followed by this one.
unfoldable pub follows : QuestId → Quest → Bool
follows id q =
    same_type q.quest_type story && elim q.next_quest_id [ none ↦ false | some n ↦ n == id ]

any_follows : QuestId → List Quest → Bool
unfolding follows
any_follows id [] = false
any_follows id (q ∷ quests) = follows id q || any_follows id quests

is_completed : Option QuestRow → Bool
is_completed none = false
is_completed (some r) = is_some r.completed_at

-- Whether a quest that is followed by this one, of any type, is completed.
previous_done : PlayerId → QuestId → List QuestRow → List Quest → Bool
unfolding is_completed
previous_done u id rows [] = false
previous_done u id rows (q ∷ quests) =
    (elim q.next_quest_id [ none ↦ false | some n ↦ n == id ]
      && is_completed (find_progress u q.id none rows))
    || previous_done u id rows quests

unfoldable pub story_quest_accessible : {R : Type 0} → PlayerId → QuestId → Tx R Bool
unfolding any_follows previous_done
story_quest_accessible u id = do
  is_first ← query (λ t. not (any_follows id t.quests))
  if is_first then pure true else query (λ t. previous_done u id t.quest_progress t.quests)

abbrev completion : Instant → Bool → Option Instant
completion now done = if done then some now else none

abbrev pub started : PlayerId → Instant → Quest → Option Day → QuestRow
started u now q day = record {
  user_id = u;
  quest_id = q.id;
  current_value = pos 1;
  completed_at = completion now (leb_ℤ q.condition_value (pos 1));
  rewarded = false;
  quest_date = day;
}

abbrev pub insert_progress : QuestRow → Tables → Tables
insert_progress r t = record t { quest_progress = r ∷ t.quest_progress }

-- A further step of a quest that has a row and is not completed.
unfoldable pub advance : {R : Type 0} → PlayerId → Instant → Quest → Option Day → ℤ → Tx R Bool
unfolding update_progress
advance u now q day value = do
  let done = leb_ℤ q.condition_value (value +ℤ pos 1)
  update (λ t. record t {
    quest_progress =
        update_progress
          (λ r. record r {
            current_value = value +ℤ pos 1;
            completed_at = completion now done;
            rewarded = false;
          })
          u q.id day t.quest_progress;
  })
  pure done

unfoldable pub start_story : {R : Type 0} → PlayerId → Instant → Quest → Bool → Tx R Bool
start_story u now q false = pure false
start_story u now q true = do
  update (insert_progress (started u now q none))
  pure (leb_ℤ q.condition_value (pos 1))

unfoldable pub story_step : {R : Type 0} → PlayerId → Instant → Quest → Option QuestRow → Tx R Bool
unfolding story_quest_accessible advance start_story
story_step u now q none = do
  accessible ← story_quest_accessible u q.id
  start_story u now q accessible
story_step u now q (some r) = elim r.completed_at [
  | none ↦ advance u now q none r.current_value
  | some at ↦ pure false
]

-- `apply_story_quest_in_tx`.
unfoldable pub apply_story_quest : {R : Type 0} → PlayerId → Moment → Quest → Tx R Bool
unfolding story_step find_progress
apply_story_quest u m q = do
  progress ← query (λ t. find_progress u q.id none t.quest_progress)
  story_step u m.now q progress

unfoldable pub daily_step : {R : Type 0} → PlayerId → Moment → Quest → Option QuestRow → Tx R Bool
unfolding advance
daily_step u m q none = do
  update (insert_progress (started u m.now q (some m.today)))
  pure (leb_ℤ q.condition_value (pos 1))
daily_step u m q (some r) = elim r.completed_at [
  | none ↦ advance u m.now q (some m.today) r.current_value
  | some at ↦ pure false
]

-- `apply_daily_quest_in_tx`.
unfoldable pub apply_daily_quest : {R : Type 0} → PlayerId → Moment → Quest → Tx R Bool
unfolding daily_step find_progress
apply_daily_quest u m q = do
  progress ← query (λ t. find_progress u q.id (some m.today) t.quest_progress)
  daily_step u m q progress

abbrev pub apply_quest : {R : Type 0} → QuestType → PlayerId → Moment → Quest → Tx R Bool
apply_quest story = apply_story_quest
apply_quest daily = apply_daily_quest

unfoldable pub apply_quests :
    {R : Type 0} → QuestType → PlayerId → Moment → List Quest → Tx R (List (QuestId × QuestType))
unfolding apply_story_quest apply_daily_quest
apply_quests kind u m [] = pure []
apply_quests kind u m (q ∷ quests) = do
  done ← apply_quest kind u m q
  rest ← apply_quests kind u m quests
  pure (if done then (q.id, kind) ∷ rest else rest)
