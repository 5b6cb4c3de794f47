-- ===== src/Player/Books/Requests.antt =====
-- The books through the transactions of src/player/repository.rs.
use fourinarow_server.Base.{◌+ℤ◌, ℤ, ℕ, ◌≡◌, refl, Bool, true, false, Option, none, some, pos}
use fourinarow_server.Player.{ItemId, AchievementId, PlayerId, Key, GameEvent}
use fourinarow_server.Player.Tables.{Tables, add_inventory, insert_idempotency}
use fourinarow_server.Player.Transaction.{Tx, statement, ◌>>◌, require, require_quietly}
use fourinarow_server.Player.Transaction.Rules.{
  Ensures, Keeps, Ensures-pure, Ensures-statement, Ensures-update, Ensures-bind, Ensures-require,
  Ensures-require_quietly, Ensures-from,
}
use fourinarow_server.Player.Quests.{Moment, grant}
use fourinarow_server.Player.Achievements.{grant_once, tier_reward, apply_quest_event}
use fourinarow_server.Player.Operations.{add_item_tx, grant_some}
use fourinarow_server.Player.Events.{apply_quest_event-Keeps}
use fourinarow_server.Player.Books.{share, Books, Fresh}
use fourinarow_server.Player.Books.Grants.{
  insert_idempotency-Books, add_inventory-Books, insert_asset_ledger-Books,
}

module _ {w j : ℕ} {base : ℤ} where
  -- A new key, or a return.
  pub key-Books :
      {R : Type 0} (u : PlayerId) (key : Key)
      → Ensures {R = R}
          (Books w j base (pos 0))
          (statement (insert_idempotency u key))
          (λ new t. Books w j base (pos 0) t × (new ≡ true → Fresh key t))
  key-Books u key = Ensures-statement _ (insert_idempotency-Books w j base u key)

  grant-Books :
      {R : Type 0} (u : PlayerId) (i : ItemId) (n : ℤ) (business key : Key)
      → Ensures {R = R}
          (λ t. Books w j base (pos 0) t × Fresh key t)
          (grant u i n business key)
          (λ _. Books w j base (pos 0))
  unfolding grant add_inventory
  grant-Books u i n business key =
      Ensures-bind
        (Ensures-update {Q = λ _ t. Books w j base (pos 0 +ℤ share w j u i n) t × Fresh key t} _
          (λ t (b, f). (
            add_inventory-Books w j base u i n (pos 0) t b,
            record { used = f.used; unposted = f.unposted },
          )))
        (λ _. Ensures-update _ (λ t (b, f).
          insert_asset_ledger-Books w j base u i n (pos 0) business key t f.used (f.unposted i n)
            b))

  grant_once-Books :
      {R : Type 0} (u : PlayerId) (i : ItemId) (n : ℤ) (business key : Key) (new : Bool)
      → Ensures {R = R}
          (λ t. Books w j base (pos 0) t × (new ≡ true → Fresh key t))
          (grant_once u i n business key new)
          (λ _. Books w j base (pos 0))
  unfolding grant_once
  grant_once-Books u i n business key false = Ensures-pure _ (λ t (b, f). b)
  grant_once-Books u i n business key true =
      Ensures-bind (Ensures-from (λ t (b, f). (b, f refl)) (grant-Books u i n business key))
        (λ _. Ensures-pure _ (λ t b. b))

  tier_reward-Books :
      {R : Type 0} (u : PlayerId) (prefix : Key) (a : AchievementId) (tier : ℤ)
      (reward : Option (ItemId × ℤ))
      → Keeps {R = R} (Books w j base (pos 0)) (tier_reward u prefix a tier reward)
  unfolding tier_reward
  tier_reward-Books u prefix a tier none = Ensures-pure _ (λ t b. b)
  tier_reward-Books u prefix a tier (some (i, n)) =
      Ensures-bind (key-Books u _) (grant_once-Books u i n _ _)

  pub event-Books :
      {R : Type 0} (u : PlayerId) (m : Moment) (event : GameEvent) (prefix : Key)
      → Keeps {R = R} (Books w j base (pos 0)) (apply_quest_event u m event prefix)
  event-Books =
      apply_quest_event-Keeps
        (λ rows t b. record { keyed = b.keyed; even = b.even; priced = b.priced })
        (λ u prefix a tier reward _. tier_reward-Books u prefix a tier reward)
        (λ rows t b. record { keyed = b.keyed; even = b.even; priced = b.priced })

  -- The rest of a transaction after its key was found to be new.
  pub after_key-Books :
      {R A : Type 0} (new : Bool) (r : R) (key : Key) {rest : Tx R A}
      → Ensures (λ t. Books w j base (pos 0) t × Fresh key t) rest (λ _. Books w j base (pos 0))
      → Ensures
          (λ t. Books w j base (pos 0) t × (new ≡ true → Fresh key t))
          (require new r >> rest)
          (λ _. Books w j base (pos 0))
  after_key-Books new r key h =
      Ensures-bind (Ensures-require new r (λ e t (b, f). (b, f e))) (λ _. h)

  pub after_key_quietly-Books :
      {R A : Type 0} (new : Bool) (r : R) (key : Key) {rest : Tx R A}
      → Ensures (λ t. Books w j base (pos 0) t × Fresh key t) rest (λ _. Books w j base (pos 0))
      → Ensures
          (λ t. Books w j base (pos 0) t × (new ≡ true → Fresh key t))
          (require_quietly new r >> rest)
          (λ _. Books w j base (pos 0))
  after_key_quietly-Books new r key h =
      Ensures-bind (Ensures-require_quietly new r (λ e t (b, f). (b, f e))) (λ _. h)

  pub grant_some-Books :
      {R : Type 0} (u : PlayerId) (business key : Key) (reward : Option (ItemId × ℤ))
      → Ensures {R = R}
          (λ t. Books w j base (pos 0) t × Fresh key t)
          (grant_some u business key reward)
          (λ _. Books w j base (pos 0))
  unfolding grant_some
  grant_some-Books u business key none = Ensures-pure _ (λ t (b, f). b)
  grant_some-Books u business key (some (i, n)) = grant-Books u i n business key

  -- A change of tables that the books do not read.
  pub apart :
      {x : ℤ} {t t' : Tables}
      → t'.user_inventory ≡ t.user_inventory
      → t'.asset_ledger ≡ t.asset_ledger
      → t'.idempotency ≡ t.idempotency
      → t'.shop_items ≡ t.shop_items
      → Books w j base x t
      → Books w j base x t'
  apart inv ledger keys shop b = record {
    keyed = rw (ledger, keys) b.keyed;
    even = rw (inv, ledger) b.even;
    priced = rw shop b.priced;
  }

  pub add_item_tx-Books :
      (u : PlayerId) (i : ItemId) (n : ℤ) (business key : Key)
      → Keeps (Books w j base (pos 0)) (add_item_tx u i n business key)
  unfolding add_item_tx
  add_item_tx-Books u i n business key = Ensures-bind (key-Books u key) (λ new.
      after_key-Books new false key
        (Ensures-bind (grant-Books u i n business key) (λ _. Ensures-pure _ (λ t b. b))))
