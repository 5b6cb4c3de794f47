-- ===== src/Player/Run/Bounds.antt =====
-- What requests to src/player/repository.rs never exceed: the stock of the shop, the uses of an
-- invitation, and what a player holds.
use fourinarow_server.Base.{
  Each, insert-All, ◌+ℤ◌, ◌-ℤ◌, ◌≤ℤ◌, ltb_ℤ, leb_ℤ, ℤ, int_laws, All, Dict, lookup, ◌==◌,
  if◌then◌else◌, Bool-cases, Option-cases, ℕ, ◌≡◌, inl, inr, true, ◌&&◌, Option, none, some, List,
  [], ◌∷◌, arith, pos,
}
use fourinarow_server.Player.{ItemId, PlayerId}
use fourinarow_server.Player.Tables.{
  Tables, ShopItem, InviteCode, lookup2, add_inventory, consume_inventory, consumed, set_inventory,
}
use fourinarow_server.Player.Repository.{PlayerRepository}
use fourinarow_server.Player.Operations.{less_stock, count_use}
use fourinarow_server.Player.Service.{Surroundings}
use fourinarow_server.Player.Books.{held, held-insert2, held-add_inventory}
use fourinarow_server.Player.Stable.{Stable}
use fourinarow_server.Player.Run.{Request, run}
use fourinarow_server.Player.Run.Cache.{OnlyStatsDirty}
use fourinarow_server.Player.Run.Requests.Sequence.{run-Holds}
use fourinarow_server.Player.Run.Stable.{Kept-Stable}

abbrev pub IsLeft : Option ℤ → Type 0
IsLeft none = Unit
IsLeft (some left) = pos 0 ≤ℤ left

-- The stock of an item, if it is limited, is not negative.
abbrev pub InStock : ShopItem → Type 0
InStock r = IsLeft r.stock

abbrev sold : ShopItem → ℕ → ItemId → ℤ → ShopItem
sold r shop i left =
    if (r.shop_id == shop) && ((r.item_id == i) && ltb_ℤ (pos 0) left)
    then record r { stock = some (left -ℤ pos 1) }
    else r

less_stock-InStock :
    (shop : ℕ) (i : ItemId) (rows : List ShopItem)
    → All InStock rows
    → All InStock (less_stock shop i rows)
unfolding less_stock
less_stock-InStock shop i [] h = tt
less_stock-InStock shop i (r ∷ rows) h = elim (Option-cases r.stock) [
  | inl e ↦ rw e (h.0, less_stock-InStock shop i rows h.1)
  | inr (left, e) ↦
      elim (Bool-cases ((r.shop_id == shop) && ((r.item_id == i) && ltb_ℤ (pos 0) left))) [
        | inl here ↦
            let more : ltb_ℤ (pos 0) left ≡ true = ground arith in
            let enough : pos 0 ≤ℤ left -ℤ pos 1 = grind int_laws in
            rw (e, here) (enough, less_stock-InStock shop i rows h.1)
        | inr other ↦ rw (e, other) (h.0, less_stock-InStock shop i rows h.1)
      ]
]

-- No invitation is used more often than it may be.
abbrev pub WithinUses : InviteCode → Type 0
WithinUses c = c.uses ≤ℤ c.max_uses

count_use-WithinUses :
    (code : ℕ) (c : InviteCode) (t : Tables)
    → lookup code t.invite_codes ≡ some c
    → ltb_ℤ c.uses c.max_uses ≡ true
    → Each WithinUses t.invite_codes
    → Each WithinUses (count_use code t).invite_codes
unfolding count_use
count_use-WithinUses code c t e room h =
    let fits : c.uses +ℤ pos 1 ≤ℤ c.max_uses = grind int_laws in
    rw (count_use, e)
      (insert-All WithinUses code (record c { uses = c.uses +ℤ pos 1 }) t.invite_codes h fits)

-- Changes of other tables.
module _ {P : Tables → Type 0} where
  pub adding-apart :
      ((rows : Dict (Dict ℤ)) (t : Tables) → P t → P (record t { user_inventory = rows }))
      → (u : PlayerId) (i : ItemId) (n : ℤ) (t : Tables) → ltb_ℤ (pos 0) n ≡ true
      → P t
      → P (add_inventory u i n t)
  unfolding add_inventory
  adding-apart inventory u i n t positive p = inventory _ t p

  consumed-apart :
      ((rows : Dict (Dict ℤ)) (t : Tables) → P t → P (record t { user_inventory = rows }))
      → (u : PlayerId) (i : ItemId) (n : ℤ) (o : Option ℤ) (t : Tables) → P t
      → P (consumed u i n o t).1
  unfolding consumed set_inventory
  consumed-apart inventory u i n none t p = p
  consumed-apart inventory u i n (some m) t p = elim (Bool-cases (leb_ℤ n m)) [
    | inl enough ↦ rw enough (inventory _ t p)
    | inr short ↦ rw short p
  ]

  pub consuming-apart :
      ((rows : Dict (Dict ℤ)) (t : Tables) → P t → P (record t { user_inventory = rows }))
      → (u : PlayerId) (i : ItemId) (n : ℤ) (t : Tables) → P t
      → P (consume_inventory u i n t).1
  unfolding consume_inventory
  consuming-apart inventory u i n t p =
      consumed-apart inventory u i n (lookup2 u i t.user_inventory) t p

  pub using_code-apart :
      ((rows : Dict InviteCode) (t : Tables) → P t → P (record t { invite_codes = rows }))
      → (code : ℕ) (c : InviteCode) (t : Tables) → lookup code t.invite_codes ≡ some c
      → ltb_ℤ c.uses c.max_uses ≡ true
      → P t
      → P (count_use code t)
  unfolding count_use
  using_code-apart codes code c t e room p = rw (count_use, e) (codes _ t p)

InStock-Stable : Stable (λ t. All InStock t.shop_items)
InStock-Stable = record {
  rewarding = record {
    adding = adding-apart (λ rows t p. p);
    asset_ledger = λ rows t p. p;
    new_key = λ key u t p. p;
    quest_progress = λ rows t p. p;
    achievement_progress = λ rows t p. p;
  };
  users = λ rows t p. p;
  player_stats = λ rows t p. p;
  consuming = consuming-apart (λ rows t p. p);
  selling = λ shop i t h. less_stock-InStock shop i t.shop_items h;
  invite_code_uses = λ rows t p. p;
  using_code = using_code-apart (λ rows t p. p);
  mode_progress = λ rows t p. p;
  progressive_steps = λ rows t p. p;
  inbox = λ rows t p. p;
  games = λ rows t p. p;
}

WithinUses-Stable : Stable (λ t. Each WithinUses t.invite_codes)
WithinUses-Stable = record {
  rewarding = record {
    adding = adding-apart (λ rows t p. p);
    asset_ledger = λ rows t p. p;
    new_key = λ key u t p. p;
    quest_progress = λ rows t p. p;
    achievement_progress = λ rows t p. p;
  };
  users = λ rows t p. p;
  player_stats = λ rows t p. p;
  consuming = consuming-apart (λ rows t p. p);
  selling = λ shop i t p. p;
  invite_code_uses = λ rows t p. p;
  using_code = count_use-WithinUses;
  mode_progress = λ rows t p. p;
  progressive_steps = λ rows t p. p;
  inbox = λ rows t p. p;
  games = λ rows t p. p;
}

held-adding :
    (w j u i : ℕ) (n : ℤ) (t : Tables)
    → ltb_ℤ (pos 0) n ≡ true
    → pos 0 ≤ℤ held w j t
    → pos 0 ≤ℤ held w j (add_inventory u i n t)
held-adding w j u i n t positive h =
    rw (held-add_inventory w j u i n t) (elim (Bool-cases ((u == w) && (i == j))) [
      | inl same ↦ rw same (grind int_laws)
      | inr other ↦ rw other (grind int_laws)
    ])

-- What is left is not negative, whatever the price.
consumed-left :
    (w j u i : ℕ) (n : ℤ) (o : Option ℤ) (t : Tables)
    → pos 0 ≤ℤ held w j t
    → pos 0 ≤ℤ held w j (consumed u i n o t).1
unfolding consumed set_inventory
consumed-left w j u i n none t h = h
consumed-left w j u i n (some m) t h = elim (Bool-cases (leb_ℤ n m)) [
  | inr short ↦ rw short h
  | inl enough ↦
      rw (enough, held-insert2 w j u i (m -ℤ n) t.user_inventory)
        (elim (Bool-cases ((u == w) && (i == j))) [
          | inl same ↦ rw same (grind int_laws)
          | inr other ↦ rw other h
        ])
]

held-Stable : (w j : ℕ) → Stable (λ t. pos 0 ≤ℤ held w j t)
unfolding consume_inventory
held-Stable w j = record {
  rewarding = record {
    adding = held-adding w j;
    asset_ledger = λ rows t p. p;
    new_key = λ key u t p. p;
    quest_progress = λ rows t p. p;
    achievement_progress = λ rows t p. p;
  };
  users = λ rows t p. p;
  player_stats = λ rows t p. p;
  consuming = λ u i n t h. consumed-left w j u i n (lookup2 u i t.user_inventory) t h;
  selling = λ shop i t p. p;
  invite_code_uses = λ rows t p. p;
  using_code = using_code-apart (λ rows t p. p);
  mode_progress = λ rows t p. p;
  progressive_steps = λ rows t p. p;
  inbox = λ rows t p. p;
  games = λ rows t p. p;
}

module _ (requests : List (Surroundings × Request)) (r : PlayerRepository)
    (only : OnlyStatsDirty r.cache) where
  -- Let only statistics be unsaved in the cache. If no limited stock in the shop is negative, then none
  -- is after any requests, one after another, with any failures of the database in between.
  pub run-InStock : All InStock r.tables.shop_items → All InStock (run requests r).tables.shop_items
  run-InStock h =
      (run-Holds (Kept-Stable InStock-Stable) requests r
        (record { tables = h; only = only })).tables

  -- Let only statistics be unsaved in the cache. If no invitation has more uses than it may have, then
  -- none has after any requests, one after another, with any failures of the database in between.
  pub run-WithinUses :
      Each WithinUses r.tables.invite_codes → Each WithinUses (run requests r).tables.invite_codes
  run-WithinUses h =
      (run-Holds (Kept-Stable WithinUses-Stable) requests r
        (record { tables = h; only = only })).tables

  -- Let only statistics be unsaved in the cache. A player who holds no negative number of an item does
  -- not after any requests, one after another, with any failures of the database in between.
  pub run-held :
      (w : PlayerId) (j : ItemId)
      → pos 0 ≤ℤ held w j r.tables
      → pos 0 ≤ℤ held w j (run requests r).tables
  run-held w j h =
      (run-Holds (Kept-Stable (held-Stable w j)) requests r
        (record { tables = h; only = only })).tables
