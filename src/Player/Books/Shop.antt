-- ===== src/Player/Books/Shop.antt =====
-- The books through a purchase of src/player/repository.rs.
use fourinarow_server.Base.{
  ◌+ℤ◌, ◌-ℤ◌, ◌≤ℤ◌, ℤ, ℕ, ◌≡◌, refl, ◌∙◌, ◌⊎◌, inl, true, false, Option, none, some, [], ◌∷◌, pos,
}
use fourinarow_server.Player.{ItemId, PlayerId, Key, item_purchased}
use fourinarow_server.Player.Tables.{
  Tables, ShopItem, consume_inventory, has_key, has_entry, insert_asset_ledger, add_inventory,
}
use mathlib.Core.Path.{subst}
use fourinarow_server.Player.Transaction.{Tx, pure, statement, update, ◌>>=◌, ◌>>◌, require}
use fourinarow_server.Player.Transaction.Rules.{
  Ensures, Keeps, Ensures-pure, Ensures-statement, Ensures-query, Ensures-update, Ensures-bind,
  Ensures-require, Ensures-or_return, Ensures-fact,
}
use fourinarow_server.Player.Quests.{Moment}
use fourinarow_server.Player.Achievements.{apply_quest_event}
use fourinarow_server.Player.Operations.{
  PurchaseError, not_enough_items, purchase_literal, purchase_quest_literal, Completed, take_stock,
  in_stock, purchase_tx,
}
use fourinarow_server.Player.Books.{held, share, booked, Books, Fresh, held-consume_inventory}
use fourinarow_server.Player.Books.Grants.{regroup, add_inventory-Books, insert_asset_ledger-Books}
use fourinarow_server.Player.Books.Requests.{key-Books, after_key-Books, event-Books}
use fourinarow_server.Player.Books.Prices.{
  find_item-priced, less_stock-priced, consume-apart, payment-ne_item, swap,
}

module _ {w j : ℕ} {base : ℤ} where
  consume-Books :
      (u : PlayerId) (i : ItemId) (n : ℤ) (key : Key) (t : Tables)
      → Books w j base (pos 0) t
      → Fresh key t
      → (consume_inventory u i n t).0 ≡ true
      → Books w j base (pos 0 +ℤ share w j u i (pos 0 -ℤ n)) (consume_inventory u i n t).1
        × Fresh key (consume_inventory u i n t).1
  consume-Books u i n key t b f paid =
      let (ledger, keys, shop) = consume-apart u i n t in
      (
        record {
          keyed = rw (keys, ledger) b.keyed;
          even =
              held-consume_inventory w j u i n t paid
              ∙ rw ledger (
                  regroup base (booked w j t.asset_ledger) (pos 0) (share w j u i (pos 0 -ℤ n))
                    (held w j t) b.even);
          priced = rw shop b.priced;
        },
        record { used = rw keys f.used; unposted = rw ledger f.unposted },
      )

  -- The entry of the payment, which is not yet that of the item.
  payment-Books :
      (u : PlayerId) (i price_item : ItemId) (price x : ℤ) (business key : Key) (t : Tables)
      → pos 0 ≤ℤ price
      → Fresh key t
      → Books w j base (x +ℤ share w j u price_item (pos 0 -ℤ price)) t
      → Books w j base x (insert_asset_ledger u price_item (pos 0 -ℤ price) business key t)
        × (has_key key
              (insert_asset_ledger u price_item (pos 0 -ℤ price) business key t).idempotency
            ≡ true)
        × (has_entry key i
              (pos 1)
              (insert_asset_ledger u price_item (pos 0 -ℤ price) business key t).asset_ledger
            ≡ false)
  unfolding insert_asset_ledger
  payment-Books u i price_item price x business key t positive f b =
      let new : has_entry key price_item (pos 0 -ℤ price) t.asset_ledger ≡ false =
        f.unposted price_item (pos 0 -ℤ price) in
      (
        insert_asset_ledger-Books w j base u price_item (pos 0 -ℤ price) x business key t f.used new
            b,
        rw new f.used,
        rw new (
            payment-ne_item key i price
              (record {
                user_id = u;
                item_id = price_item;
                delta = pos 0 -ℤ price;
                idempotency_key = key;
                business_id = business;
              })
              t.asset_ledger positive refl (f.unposted i (pos 1))),
      )

  -- The item is added, and both entries are made.
  exchange-Books :
      {R A : Type 0} (u : PlayerId) (i price_item : ItemId) (price : ℤ) (business key : Key)
      {rest : Tx R A}
      → pos 0 ≤ℤ price
      → Keeps (Books w j base (pos 0)) rest
      → Ensures {R = R}
          (λ t. Books w j base (pos 0 +ℤ share w j u price_item (pos 0 -ℤ price)) t × Fresh key t)
          (update (add_inventory u i (pos 1))
            >> (update (insert_asset_ledger u price_item (pos 0 -ℤ price) business key)
                >> (update (insert_asset_ledger u i (pos 1) business key) >> rest)))
          (λ _. Books w j base (pos 0))
  unfolding add_inventory
  exchange-Books u i price_item price business key positive h =
      let paid : ℤ = share w j u price_item (pos 0 -ℤ price) in
      let got : ℤ = share w j u i (pos 1) in
      Ensures-bind
        (Ensures-update {Q = λ _ t. Books w j base ((pos 0 +ℤ got) +ℤ paid) t × Fresh key t} _
          (λ t (b, f). (
            subst (λ (x : ℤ). Books w j base x (add_inventory u i (pos 1) t)) (swap paid got)
                (add_inventory-Books w j base u i (pos 1) (pos 0 +ℤ paid) t b),
            record { used = f.used; unposted = f.unposted },
          )))
        (λ _.
          Ensures-bind
            (Ensures-update
              {Q = λ _ t.
                Books w j base (pos 0 +ℤ got) t
                × (has_key key t.idempotency ≡ true)
                × (has_entry key i (pos 1) t.asset_ledger ≡ false)}
              _
              (λ t (b, f).
                payment-Books u i price_item price (pos 0 +ℤ got) business key t positive f b))
            (λ _.
              Ensures-bind
                (Ensures-update {Q = λ _. Books w j base (pos 0)} _ (λ t (b, used, new).
                  insert_asset_ledger-Books w j base u i (pos 1) (pos 0) business key t used new b))
                (λ _. h)))

  take_stock-Books :
      {R : Type 0} (shop : ℕ) (i : ItemId) (stock : Option ℤ)
      → Keeps {R = R} (Books w j base (pos 0)) (take_stock shop i stock)
  unfolding take_stock
  take_stock-Books shop i none = Ensures-pure _ (λ t b. b)
  take_stock-Books shop i (some left) = Ensures-update _ (λ t b. record {
    keyed = b.keyed;
    even = b.even;
    priced = less_stock-priced shop i t.shop_items b.priced;
  })

  -- The payment for an offer, and all that follows.
  pay-Books :
      {R A : Type 0} (u : PlayerId) (i : ItemId) (offer : ShopItem) (r : R) (business key : Key)
      {rest : Tx R A}
      → pos 0 ≤ℤ offer.price
      → Keeps (Books w j base (pos 0)) rest
      → Ensures
          (λ t. Books w j base (pos 0) t × Fresh key t)
          (statement (consume_inventory u offer.price_item_id offer.price) >>= λ paid.
            require paid r
            >> (update (add_inventory u i (pos 1))
                >> (update (
                      insert_asset_ledger u offer.price_item_id (pos 0 -ℤ offer.price) business key)
                    >> (update (insert_asset_ledger u i (pos 1) business key) >> rest))))
          (λ _. Books w j base (pos 0))
  pay-Books u i offer r business key positive h =
      Ensures-bind
        (Ensures-statement
          {Q = λ paid t.
            paid ≡ true
            → Books w j base (pos 0 +ℤ share w j u offer.price_item_id (pos 0 -ℤ offer.price)) t
              × Fresh key t}
          _ (λ t (b, f). consume-Books u offer.price_item_id offer.price key t b f))
        (λ paid.
          Ensures-bind (Ensures-require paid r (λ e t c. c e))
            (λ _. exchange-Books u i offer.price_item_id offer.price business key positive h))

  -- What a purchase does for an offer.
  offered-Books :
      (u : PlayerId) (shop : ℕ) (i : ItemId) (operation : Key) (m : Moment) (offer : ShopItem)
      → Ensures {R = PurchaseError ⊎ Completed}
          (λ t.
            (Books w j base (pos 0) t × Fresh (purchase_literal ∷ u ∷ operation) t)
            × (pos 0 ≤ℤ offer.price))
          (require (in_stock offer.stock) (inl not_enough_items)
            >> (statement (consume_inventory u offer.price_item_id offer.price) >>= λ paid.
                require paid (inl not_enough_items)
                >> (update (add_inventory u i (pos 1))
                    >> (update (
                          insert_asset_ledger u offer.price_item_id
                            (pos 0 -ℤ offer.price)
                            (shop ∷ i ∷ [])
                            (purchase_literal ∷ u ∷ operation))
                        >> (update (
                              insert_asset_ledger u i
                                (pos 1)
                                (shop ∷ i ∷ [])
                                (purchase_literal ∷ u ∷ operation))
                            >> (take_stock shop i offer.stock
                                >> (apply_quest_event u m item_purchased
                                      (purchase_quest_literal ∷ shop ∷ i ∷ [])
                                    >>= λ outcome. pure outcome.2)))))))
          (λ _. Books w j base (pos 0))
  offered-Books u shop i operation m offer =
      Ensures-fact (λ t (bf, positive). positive)
        (λ positive.
          Ensures-bind
            (Ensures-require
              {Q = λ _ t. Books w j base (pos 0) t × Fresh (purchase_literal ∷ u ∷ operation) t} _ _
              (λ e t (bf, p). bf))
            (λ _. pay-Books u i offer _ _ _ positive (
              Ensures-bind (take_stock-Books shop i offer.stock) (λ _.
                Ensures-bind (event-Books u m item_purchased _) (λ _. Ensures-pure _ (λ t b. b))))))

  pub purchase_tx-Books :
      (u : PlayerId) (shop : ℕ) (i : ItemId) (operation : Key) (m : Moment)
      → Keeps (Books w j base (pos 0)) (purchase_tx u shop i operation m)
  unfolding purchase_tx
  purchase_tx-Books u shop i operation m =
      let key : Key = purchase_literal ∷ u ∷ operation in
      Ensures-bind (key-Books u key) (λ new. after_key-Books new _ key (
        Ensures-bind
          (Ensures-query
            {Q = λ row t.
              (Books w j base (pos 0) t × Fresh key t)
              × ((offer : ShopItem) → row ≡ some offer → pos 0 ≤ℤ offer.price)}
            _ (λ t (b, f). ((b, f), find_item-priced shop i t.shop_items b.priced)))
          (λ row.
            Ensures-bind
              (Ensures-or_return
                {Q = λ offer t. (Books w j base (pos 0) t × Fresh key t) × (pos 0 ≤ℤ offer.price)}
                row _ (λ offer e t (bf, positive). (bf, positive offer e)))
              (offered-Books u shop i operation m))))
