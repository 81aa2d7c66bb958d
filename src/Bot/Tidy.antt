-- ===== src/Bot/Tidy.antt =====
-- The live orders of the bot when each is the current quote of its side, under fills and cancels.
use titan_hft.Common.{
  ℕ, ◌+◌, ◌-◌, ◌≤◌, ◌<◌, ◌≡◌, refl, sym, ap, ◌∙◌, subst, subst₂, inl, inr, Bool, true, false, not,
  ◌&&◌, Option, none, some, List, [], ◌∷◌, arith, ltb, ◌==◌, if◌then◌else◌, ==→eq, eq_refl,
  cast_u64, Bool-cases, Option-cases, has, Distinct, All,
}
use titan_hft.Domain.{is_buy, PriceTick, TradeEvent}
use titan_hft.Bot.{
  Doubles, Bot, Live, MyOrder, FeedEvent, trade, snapshot, find_order, erase_order, put_order,
  apply_fill_locked, on_trade, on_feed, listen,
}
use titan_hft.Bot.Feed.{ids, status-cases, on_snapshot_keeps, listen-keeps}

abbrev same_side : Bool → Bool → Bool
same_side true b = b
same_side false b = not b

-- The live orders of a side.
abbrev pub count_side : Bool → Live → ℕ
count_side buy [] = 0
count_side buy ((id, m) ∷ os) = (if same_side buy (is_buy m.side) then 1 else 0) + count_side buy os

-- The entry is the current quote of its side.
abbrev pub Owned : (bid ask : ℕ) → ℕ × MyOrder → Type 0
Owned bid ask (id, m) = (0 < id) × (id ≡ (if is_buy m.side then bid else ask))

pub record IsTidy (bid ask : ℕ) (os : Live) : Type 0 where
  pub distinct : Distinct (ids os)
  pub owned : All (Owned bid ask) os

has-erase_order :
    (i id : ℕ) (os : Live) → has i (ids os) ≡ false → has i (ids (erase_order id os)) ≡ false
unfolding erase_order
has-erase_order i id [] h = refl
has-erase_order i id ((k, m) ∷ os) h = ground (arith, has-erase_order i id os)

has-erase_order_self : (id : ℕ) (os : Live) → has id (ids (erase_order id os)) ≡ false
unfolding erase_order
has-erase_order_self id [] = refl
has-erase_order_self id ((k, m) ∷ os) = ground (arith, has-erase_order_self id os)

pub erase_order-IsTidy :
    (bid ask id : ℕ) (os : Live) → IsTidy bid ask os → IsTidy bid ask (erase_order id os)
unfolding erase_order
erase_order-IsTidy bid ask id [] v = v
erase_order-IsTidy bid ask id ((k, m) ∷ os) v =
    let r =
      erase_order-IsTidy bid ask id os (record { distinct = v.distinct.1; owned = v.owned.1 }) in
    elim (Bool-cases (id == k)) [
      | inl e ↦ rw e r
      | inr e ↦ rw e (record {
        distinct = (has-erase_order k id os v.distinct.0, r.distinct);
        owned = (v.owned.0, r.owned);
      })
    ]

pub put_order-IsTidy :
    (bid ask id : ℕ) (m : MyOrder) (os : Live)
    → Owned bid ask (id, m)
    → IsTidy bid ask os
    → IsTidy bid ask (put_order id m os)
unfolding put_order
put_order-IsTidy bid ask id m os h v =
    let r = erase_order-IsTidy bid ask id os v in
    record { distinct = (has-erase_order_self id os, r.distinct); owned = (h, r.owned) }

entry : MyOrder → Option MyOrder → MyOrder
entry d none = d
entry d (some m) = m

no_entry : {m : MyOrder} → none ≡ some m → ⊥
no_entry e = cc

find_order-Owned :
    (bid ask id : ℕ) (m : MyOrder) (os : Live)
    → IsTidy bid ask os
    → find_order id os ≡ some m
    → Owned bid ask (id, m)
unfolding find_order entry
find_order-Owned bid ask id m [] v e = absurd (no_entry e)
find_order-Owned bid ask id m ((k, n) ∷ os) v e = elim (Bool-cases (id == k)) [
  | inl h ↦
      let here : find_order id ((k, n) ∷ os) ≡ some n = rw h refl in
      let same : n ≡ m = ap (entry n) (sym here ∙ e) in
      subst₂ (λ j x. Owned bid ask (j, x)) (sym (==→eq id k h)) same v.owned.0
  | inr h ↦
      find_order-Owned bid ask id m os (record { distinct = v.distinct.1; owned = v.owned.1 })
        (sym (let on : find_order id ((k, n) ∷ os) ≡ find_order id os = rw h refl in on) ∙ e)
]

-- Once neither quote is live, nothing is.
pub wiped :
    (bid ask : ℕ) (os : Live)
    → All (Owned bid ask) os
    → ((i : ℕ)
        → has i (ids os) ≡ true
        → (((i == bid) && not (bid == 0)) ≡ false) × (((i == ask) && not (ask == 0)) ≡ false))
    → os ≡ []
wiped bid ask [] o h = refl
wiped bid ask ((k, m) ∷ os) o h =
    let (a, b) = h k (ground (arith, eq_refl k)) in absurd (ground (arith, o.0, a, b))

-- Without its quote, a side has no live order.
none_of :
    (buy : Bool) (bid ask : ℕ) (os : Live)
    → All (Owned bid ask) os
    → has (if buy then bid else ask) (ids os) ≡ false
    → count_side buy os ≡ 0
none_of buy bid ask [] o h = refl
none_of true bid ask ((k, m) ∷ os) o h = ground (arith, none_of true bid ask os o.1)
none_of false bid ask ((k, m) ∷ os) o h = ground (arith, none_of false bid ask os o.1)

pub at_most_one : (buy : Bool) (bid ask : ℕ) (os : Live) → IsTidy bid ask os → count_side buy os ≤ 1
at_most_one buy bid ask [] v = omega arith
at_most_one true bid ask ((k, m) ∷ os) v = ground (
  arith,
  at_most_one true bid ask os (record { distinct = v.distinct.1; owned = v.owned.1 }),
  none_of true bid ask os v.owned.1,
)
at_most_one false bid ask ((k, m) ∷ os) v = ground (
  arith,
  at_most_one false bid ask os (record { distinct = v.distinct.1; owned = v.owned.1 }),
  none_of false bid ask os v.owned.1,
)

module _ (F : Doubles) where
  pub apply_fill_locked-IsTidy :
      (bid ask : ℕ) (b : Bot F) (id : ℕ) (px : PriceTick) (q : ℕ)
      → IsTidy bid ask b.orders
      → IsTidy bid ask (apply_fill_locked F b id px q).orders
        × ((apply_fill_locked F b id px q).next_id ≡ b.next_id)
  unfolding apply_fill_locked
  apply_fill_locked-IsTidy bid ask b id px q v = elim (Option-cases (find_order id b.orders)) [
    | inl e ↦ rw (apply_fill_locked, e) (v, refl)
    | inr (m, e) ↦
        let take = if ltb q m.remaining then q else m.remaining in
        let left = m.remaining - take in
        let r =
          put_order-IsTidy bid ask id (record m { remaining = left }) b.orders
            (find_order-Owned bid ask id m b.orders v e) v in
        elim (Bool-cases (q == 0)) [
          | inl z ↦ rw (apply_fill_locked, e, z) (v, refl)
          | inr z ↦ elim (Bool-cases (left == 0)) [
            | inl l ↦ elim (Bool-cases (is_buy m.side)) [
              | inl s ↦
                  rw (apply_fill_locked, e, z, l, s)
                    (erase_order-IsTidy bid ask id b.orders v, refl)
              | inr s ↦
                  rw (apply_fill_locked, e, z, l, s)
                    (erase_order-IsTidy bid ask id b.orders v, refl)
            ]
            | inr l ↦ elim (Bool-cases (is_buy m.side)) [
              | inl s ↦ rw (apply_fill_locked, e, z, l, s) (r, refl)
              | inr s ↦ rw (apply_fill_locked, e, z, l, s) (r, refl)
            ]
          ]
        ]
  ]

  on_trade-IsTidy :
      (bid ask : ℕ) (b : Bot F) (ev : TradeEvent)
      → IsTidy bid ask b.orders
      → IsTidy bid ask (on_trade F b ev).orders × ((on_trade F b ev).next_id ≡ b.next_id)
  unfolding on_trade
  on_trade-IsTidy bid ask b ev v = elim (status-cases ev.status) [
    | inl f ↦
        let b1 = record b { last_trade_px = cast_u64 ev.price } in
        let (t, n) = apply_fill_locked-IsTidy bid ask b1 ev.taker_id ev.price ev.quantity v in
        let b2 = apply_fill_locked F b1 ev.taker_id ev.price ev.quantity in
        let (t', n') = apply_fill_locked-IsTidy bid ask b2 ev.maker_id ev.price ev.quantity t in
        rw (on_trade, f) (t', n' ∙ n)
    | inr f ↦ rw (on_trade, f) (erase_order-IsTidy bid ask ev.taker_id b.orders v, refl)
  ]

  -- The live orders are the quotes, and the next id is `n`.
  abbrev pub IsKept : (bid ask n : ℕ) → Bot F → Type 0
  IsKept bid ask n b = IsTidy bid ask b.orders × (b.next_id ≡ n)

  pub on_feed-IsKept :
      (bid ask n : ℕ) (b : Bot F) (e : FeedEvent)
      → IsKept bid ask n b
      → IsKept bid ask n (on_feed F b e)
  unfolding on_feed
  on_feed-IsKept bid ask n b (trade ev) (t, e) =
      let (t', e') = on_trade-IsTidy bid ask b ev t in (t', e' ∙ e)
  on_feed-IsKept bid ask n b (snapshot len h price) (t, e) =
      let (o, e', _) = on_snapshot_keeps F b len h price in
      (subst (IsTidy bid ask) (sym o) t, e' ∙ e)

  pub listen-IsKept :
      (bid ask n : ℕ) (b : Bot F) (es : List FeedEvent)
      → IsKept bid ask n b
      → IsKept bid ask n (listen F b es)
  listen-IsKept bid ask n b es v =
      listen-keeps F (IsKept bid ask n) b es (on_feed-IsKept bid ask n) v
