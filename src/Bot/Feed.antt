-- ===== src/Bot/Feed.antt =====
-- What the feeds do to the live orders of the bot and to its position.
use titan_hft.Common.{
  ℕ, ◌-◌, ◌≡◌, refl, sym, ap, ◌∙◌, subst, ◌⊎◌, inl, inr, true, false, none, some, List, [], ◌∷◌,
  map, arith, ltb, ◌==◌, eq_refl, ==→eq, if◌then◌else◌, Bool-cases, Option-cases, has, ℤ, cast_u64,
}
use titan_hft.Domain.{PriceTick, TradeEvent, TradeStatus}
use titan_hft.Book.Snapshot.{SnapshotHeader}
use titan_hft.Bot.{
  Doubles, Bot, Live, MyOrder, FeedEvent, trade, snapshot, find_order, erase_order, put_order,
  apply_fill_locked, on_trade, on_snapshot, on_feed, listen,
}

abbrev pub ids : Live → List ℕ
ids os = map (λ (o : ℕ × MyOrder). o.0) os

pub status-cases : (s : TradeStatus) → (s ≡ TradeStatus.fill) ⊎ (s ≡ TradeStatus.rejected)
status-cases TradeStatus.fill = inl refl
status-cases TradeStatus.rejected = inr refl

pub has-erase_order :
    (i id : ℕ) (os : Live)
    → has i (ids (erase_order id os)) ≡ true
    → (has i (ids os) ≡ true) × ((i == id) ≡ false)
unfolding erase_order
has-erase_order i id [] h = ground arith
has-erase_order i id ((k, m) ∷ os) h = ground (arith, has-erase_order i id os)

pub no_ids : (os : Live) → ((i : ℕ) → has i (ids os) ≡ true → ⊥) → os ≡ []
no_ids [] h = refl
no_ids ((k, m) ∷ os) h = absurd (h k (ground (arith, eq_refl k)))

no_entry : {m : MyOrder} → none ≡ some m → ⊥
no_entry e = cc

find_order-has :
    (id : ℕ) (m : MyOrder) (os : Live) → find_order id os ≡ some m → has id (ids os) ≡ true
unfolding find_order
find_order-has id m [] e = absurd (no_entry e)
find_order-has id m ((k, n) ∷ os) e = elim (Bool-cases (id == k)) [
  | inl h ↦ ground (arith, h)
  | inr h ↦
      let on : find_order id ((k, n) ∷ os) ≡ find_order id os = rw h refl in
      ground (arith, find_order-has id m os (sym on ∙ e))
]

-- All live orders are of the ids `is`.
abbrev pub Within : List ℕ → Live → Type 0
Within is os = (i : ℕ) → has i (ids os) ≡ true → has i is ≡ true

has-put_order :
    (i id : ℕ) (m : MyOrder) (os : Live)
    → has id (ids os) ≡ true
    → has i (ids (put_order id m os)) ≡ true
    → has i (ids os) ≡ true
unfolding put_order
has-put_order i id m os k h = elim (Bool-cases (i == id)) [
  | inl e ↦ subst (λ j. has j (ids os) ≡ true) (sym (==→eq i id e)) k
  | inr e ↦ (has-erase_order i id os (ground (arith, e, h))).0
]

module _ (F : Doubles) where
  apply_fill_locked-Within :
      (is : List ℕ) (b : Bot F) (id : ℕ) (px : PriceTick) (q : ℕ)
      → Within is b.orders
      → Within is (apply_fill_locked F b id px q).orders
  unfolding apply_fill_locked
  apply_fill_locked-Within is b id px q v = elim (Option-cases (find_order id b.orders)) [
    | inl e ↦ rw (apply_fill_locked, e) v
    | inr (m, e) ↦
        let left = m.remaining - (if ltb q m.remaining then q else m.remaining) in
        let erased = λ (i : ℕ) (h : has i (ids (erase_order id b.orders)) ≡ true).
          v i (has-erase_order i id b.orders h).0 in
        let put =
          λ (i : ℕ)
              (h : has i (ids (put_order id (record m { remaining = left }) b.orders)) ≡ true).
            v i (
              has-put_order i id (record m { remaining = left }) b.orders
                (find_order-has id m b.orders e) h) in
        elim (Bool-cases (q == 0)) [
          | inl z ↦ rw (apply_fill_locked, e, z) v
          | inr z ↦ elim (Bool-cases (left == 0)) [
            | inl l ↦ rw (apply_fill_locked, e, z, l) erased
            | inr l ↦ rw (apply_fill_locked, e, z, l) put
          ]
        ]
  ]

  pub on_snapshot_keeps :
      (b : Bot F) (n : ℕ) (h : SnapshotHeader) (price : ℕ → PriceTick)
      → let c = on_snapshot F b n h price in
        (c.orders ≡ b.orders) × (c.next_id ≡ b.next_id) × (c.inventory ≡ b.inventory)
  unfolding on_snapshot
  on_snapshot_keeps b n h price = ground arith

  on_feed-Within :
      (is : List ℕ) (b : Bot F) (e : FeedEvent)
      → Within is b.orders
      → Within is (on_feed F b e).orders
  unfolding on_feed on_trade
  on_feed-Within is b (trade ev) v = elim (status-cases ev.status) [
    | inl f ↦
        let b1 = record b { last_trade_px = cast_u64 ev.price } in
        let b2 = apply_fill_locked F b1 ev.taker_id ev.price ev.quantity in
        rw (on_trade, f)
          (apply_fill_locked-Within is b2 ev.maker_id ev.price ev.quantity
            (apply_fill_locked-Within is b1 ev.taker_id ev.price ev.quantity v))
    | inr f ↦ rw (on_trade, f) (λ i h. v i (has-erase_order i ev.taker_id b.orders h).0)
  ]
  on_feed-Within is b (snapshot n h price) v =
      subst (Within is) (sym (on_snapshot_keeps b n h price).0) v

  -- Without a live order no fill is counted.
  no_fill :
      (b : Bot F) (id : ℕ) (px : PriceTick) (q : ℕ)
      → b.orders ≡ []
      → apply_fill_locked F b id px q ≡ b
  unfolding apply_fill_locked find_order
  no_fill b id px q e =
      let missing : find_order id b.orders ≡ none = ap (find_order id) e in
      rw (apply_fill_locked, missing) refl

  abbrev pub IsIdle : ℤ → Bot F → Type 0
  IsIdle inv b = (b.orders ≡ []) × (b.inventory ≡ inv)

  on_trade-IsIdle :
      (inv : ℤ) (b : Bot F) (ev : TradeEvent) → IsIdle inv b → IsIdle inv (on_trade F b ev)
  unfolding on_trade erase_order
  on_trade-IsIdle inv b ev (e, w) = elim (status-cases ev.status) [
    | inl f ↦
        let b1 = record b { last_trade_px = cast_u64 ev.price } in
        let two : on_trade F b ev ≡ b1 =
          rw (on_trade, f)
            (ap (λ c. apply_fill_locked F c ev.maker_id ev.price ev.quantity)
                (no_fill b1 ev.taker_id ev.price ev.quantity e)
              ∙ no_fill b1 ev.maker_id ev.price ev.quantity e) in
        (ap (λ (c : Bot F). c.orders) two ∙ e, ap (λ (c : Bot F). c.inventory) two ∙ w)
    | inr f ↦
        let one : on_trade F b ev ≡ record b { orders = erase_order ev.taker_id b.orders } =
          rw (on_trade, f) refl in
        (
          ap (λ (c : Bot F). c.orders) one ∙ ap (erase_order ev.taker_id) e,
          ap (λ (c : Bot F). c.inventory) one ∙ w,
        )
  ]

  pub on_feed-IsIdle :
      (inv : ℤ) (b : Bot F) (e : FeedEvent) → IsIdle inv b → IsIdle inv (on_feed F b e)
  unfolding on_feed
  on_feed-IsIdle inv b (trade ev) v = on_trade-IsIdle inv b ev v
  on_feed-IsIdle inv b (snapshot n h price) (e, w) =
      let (o, _, v) = on_snapshot_keeps b n h price in (o ∙ e, v ∙ w)

  -- What every event keeps, any number of them keep.
  pub listen-keeps :
      (P : Bot F → Type 0) (b : Bot F) (es : List FeedEvent)
      → ((c : Bot F) (e : FeedEvent) → P c → P (on_feed F c e))
      → P b
      → P (listen F b es)
  unfolding listen
  listen-keeps P b [] k v = v
  listen-keeps P b (e ∷ es) k v = listen-keeps P (on_feed F b e) es k (k b e v)

  pub listen-Within :
      (is : List ℕ) (b : Bot F) (es : List FeedEvent)
      → Within is b.orders
      → Within is (listen F b es).orders
  listen-Within is b es v = listen-keeps (λ c. Within is c.orders) b es (on_feed-Within is) v

  pub listen-IsIdle :
      (inv : ℤ) (b : Bot F) (es : List FeedEvent) → IsIdle inv b → IsIdle inv (listen F b es)
  listen-IsIdle inv b es v = listen-keeps (IsIdle inv) b es (on_feed-IsIdle inv) v
