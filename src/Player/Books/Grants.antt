-- ===== src/Player/Books/Grants.antt =====
-- A new key, an item that is added and an entry of the ledger, as src/player/repository.rs has them
-- together: the books are even again.
use fourinarow_server.Base.{
  ◌+ℤ◌, ℤ, int_laws, All, same_list, same_list_refl, same_list-eq, Bool-cases, ℕ, ◌≡◌, refl, ◌∙◌,
  inl, inr, true, false, List, [], ◌∷◌, arith, pos,
}
use fourinarow_server.Player.{ItemId, PlayerId, Key}
use fourinarow_server.Player.Tables.{
  Tables, LedgerRow, add_inventory, has_key, insert_idempotency, has_entry, insert_asset_ledger,
}
use fourinarow_server.Player.Books.{held, share, booked, held-add_inventory, Books, Fresh}

keyed-cons :
    (k : Key) (u : PlayerId) (keys : List (Key × PlayerId)) (rows : List LedgerRow)
    → All (λ (r : LedgerRow). has_key r.idempotency_key keys ≡ true) rows
    → All (λ (r : LedgerRow). has_key r.idempotency_key ((k, u) ∷ keys) ≡ true) rows
unfolding has_key
keyed-cons k u keys [] h = tt
keyed-cons k u keys (r ∷ rows) h = (ground arith, keyed-cons k u keys rows h.1)

unposted :
    (key : Key) (i : ItemId) (n : ℤ) (keys : List (Key × PlayerId)) (rows : List LedgerRow)
    → has_key key keys ≡ false
    → All (λ (r : LedgerRow). has_key r.idempotency_key keys ≡ true) rows
    → has_entry key i n rows ≡ false
unfolding has_entry
unposted key i n keys [] new h = refl
unposted key i n keys (r ∷ rows) new h = elim (Bool-cases (same_list r.idempotency_key key)) [
  | inl same ↦
      let known : has_key r.idempotency_key keys ≡ true = h.0 in
      let again : has_key key keys ≡ true = rw (← same_list-eq r.idempotency_key key same) known in
      cc
  | inr other ↦ rw (other, unposted key i n keys rows new h.1) refl
]

pub regroup : (base y x n h : ℤ) → h ≡ (base +ℤ y) +ℤ x → h +ℤ n ≡ (base +ℤ y) +ℤ (x +ℤ n)
regroup base y x n h e = rw e (omega int_laws)

post : (base y x n h : ℤ) → h ≡ (base +ℤ y) +ℤ (x +ℤ n) → h ≡ (base +ℤ (n +ℤ y)) +ℤ x
post base y x n h e = e ∙ omega int_laws

module _ (w j : ℕ) (base : ℤ) where
  pub insert_idempotency-Books :
      (u : PlayerId) (key : Key) (t : Tables)
      → Books w j base (pos 0) t
      → Books w j base (pos 0) (insert_idempotency u key t).1
        × ((insert_idempotency u key t).0 ≡ true → Fresh key (insert_idempotency u key t).1)
  unfolding insert_idempotency has_key
  insert_idempotency-Books u key t b = elim (Bool-cases (has_key key t.idempotency)) [
    | inl old ↦ rw old (b, λ e. cc)
    | inr new ↦ rw new (
      record {
        keyed = keyed-cons key u t.idempotency t.asset_ledger b.keyed;
        even = b.even;
        priced = b.priced;
      },
      λ e. record {
        used = let self = same_list_refl key in rw (has_key, self) refl;
        unposted = λ i n. unposted key i n t.idempotency t.asset_ledger new b.keyed;
      },
    )
  ]

  pub add_inventory-Books :
      (u : PlayerId) (i : ItemId) (n x : ℤ) (t : Tables)
      → Books w j base x t
      → Books w j base (x +ℤ share w j u i n) (add_inventory u i n t)
  unfolding add_inventory
  add_inventory-Books u i n x t b = record {
    keyed = b.keyed;
    even =
        held-add_inventory w j u i n t
        ∙ regroup base (booked w j t.asset_ledger) x (share w j u i n) (held w j t) b.even;
    priced = b.priced;
  }

  pub insert_asset_ledger-Books :
      (u : PlayerId) (i : ItemId) (n x : ℤ) (business key : Key) (t : Tables)
      → has_key key t.idempotency ≡ true
      → has_entry key i n t.asset_ledger ≡ false
      → Books w j base (x +ℤ share w j u i n) t
      → Books w j base x (insert_asset_ledger u i n business key t)
  unfolding insert_asset_ledger booked
  insert_asset_ledger-Books u i n x business key t used new b = rw new (record {
    keyed = (used, b.keyed);
    even = post base (booked w j t.asset_ledger) x (share w j u i n) (held w j t) b.even;
    priced = b.priced;
  })
