-- ===== src/Bot/Quotes.antt =====
-- The quotes of the bot: at most one on each side is live while its sends succeed.
use titan_hft.Common.{
  ℕ, ◌≤◌, ◌<◌, ◌≡◌, refl, sym, ◌∙◌, subst, inl, inr, Bool, true, false, not, ◌&&◌, List, [], ◌∷◌,
  arith, ◌==◌, if◌then◌else◌, Bool-cases, ite_both, has, ℤ, pos, ltb_ℤ, ◌+ℤ◌, ◌-ℤ◌,
}
use titan_hft.Domain.{Side, OrderType, PriceTick}
use titan_hft.Bot.{
  Doubles, Bot, Live, Net, FeedEvent, fire, cancel_order, take_id, listen, quote_qty, flatten_chunk,
  ioc_cross, half_spread,
}
use titan_hft.Bot.Cycle.{
  round, heard, Maker, Input, halt, quote, cycle, replace_quotes, mass_cancel, mid_price, step, run,
  fresh_maker,
}
use titan_hft.Bot.Feed.{ids}
use titan_hft.Bot.Halt.{mass_cancel_lem, cancel_order-Within}
use titan_hft.Bot.Tidy.{
  count_side, Owned, IsTidy, wiped, at_most_one, erase_order-IsTidy, put_order-IsTidy, IsKept,
  on_feed-IsKept, listen-IsKept,
}

none_left : (bid ask : ℕ) (os : Live) → os ≡ [] → IsTidy bid ask os
none_left bid ask os e = subst (IsTidy bid ask) (sym e) (record { distinct = tt; owned = tt })

module _ (F : Doubles) (w : Net) where
  -- Every live order is the current quote of its side, and ids are not 0.
  record IsTrim (k : Maker F) : Type 0 where
    tidy : IsTidy k.cur_bid_id k.cur_ask_id k.bot.orders
    next : 0 < k.bot.next_id

  module _ (all : (n : ℕ) → w.sent n ≡ true) where
    fire_limit :
        (bid ask n : ℕ) (b : Bot F) (id : ℕ) (side : Side) (px : PriceTick) (qty : ℕ)
        → Owned bid ask (id, record { side = side; price = px; remaining = qty })
        → IsKept F bid ask n b
        → let c = fire F w b id side OrderType.limit px qty in (c.1 ≡ true) × IsKept F bid ask n c.0
    unfolding fire
    fire_limit bid ask n b id side px qty o v =
        let (t, e) = listen-IsKept F bid ask n _ (w.feed b.sends) v in
        rw (all b.sends) (refl, (put_order-IsTidy bid ask id _ _ o t, e))

    -- A cancel of a quote where there is one.
    abbrev pulled : Bot F → ℕ → Side → Bot F
    pulled b id side = if id == 0 then b else (cancel_order F w b id side).0

    cancel-IsKept :
        (bid ask n : ℕ) (b : Bot F) (id : ℕ) (side : Side)
        → IsKept F bid ask n b
        → IsKept F bid ask n (cancel_order F w b id side).0
    unfolding cancel_order
    cancel-IsKept bid ask n b id side v =
        let (t, e) = listen-IsKept F bid ask n _ (w.feed b.sends) v in
        rw (all b.sends) (erase_order-IsTidy bid ask id _ t, e)

    pulled_lem :
        (bid ask n : ℕ) (b : Bot F) (id : ℕ) (side : Side)
        → IsKept F bid ask n b
        → IsKept F bid ask n (pulled b id side)
          × ((i : ℕ)
              → has i (ids (pulled b id side).orders) ≡ true
              → (has i (ids b.orders) ≡ true) × (((i == id) && not (id == 0)) ≡ false))
    pulled_lem bid ask n b id side v = elim (Bool-cases (id == 0)) [
      | inl e ↦ rw e (v, λ i h. (h, ground arith))
      | inr e ↦ rw e (
        cancel-IsKept bid ask n b id side v,
        λ i h.
            ground (
              arith,
              cancel_order-Within F w (ids b.orders) b id side (all b.sends) (λ j k. k) i h,
            ),
      )
    ]

    take_id_lem :
        (b : Bot F)
        → 0 < b.next_id
        → let (c, id) = take_id F b in (c.orders ≡ b.orders) × (0 < id) × (0 < c.next_id)
    unfolding take_id
    take_id_lem b h = ground arith

    -- Once both quotes are pulled, no order is live.
    all_pulled :
        (k : Maker F)
        → IsTrim k
        → let b = pulled (pulled k.bot k.cur_bid_id Side.buy) k.cur_ask_id Side.sell in
          (b.orders ≡ []) × (0 < b.next_id)
    all_pulled k v =
        let bid = k.cur_bid_id in
        let ask = k.cur_ask_id in
        let b1 = pulled k.bot bid Side.buy in
        let (v1, h1) = pulled_lem bid ask k.bot.next_id k.bot bid Side.buy (v.tidy, refl) in
        let (v2, h2) = pulled_lem bid ask k.bot.next_id b1 ask Side.sell v1 in
        (
          wiped bid ask (pulled b1 ask Side.sell).orders v2.0.owned
              (λ i h. let (a, b) = h2 i h in ((h1 i a).1, b)),
          omega (arith, v2.1, v.next),
        )

    replace_quotes-IsTrim :
        (posted : ℕ) (k : Maker F) (mid r : PriceTick)
        → IsTrim k
        → IsTrim (replace_quotes F w posted k mid r)
    unfolding replace_quotes
    replace_quotes-IsTrim posted k mid r v =
        let b2 = pulled (pulled k.bot k.cur_bid_id Side.buy) k.cur_ask_id Side.sell in
        let (empty, n2) = all_pulled k v in
        let (b3, bid_id) = take_id F b2 in
        let (o3, p3, n3) = take_id_lem b2 n2 in
        let (b4, ask_id) = take_id F b3 in
        let (o4, p4, n4) = take_id_lem b3 n3 in
        let bid_px = r -ℤ half_spread in
        let ask_px = r +ℤ half_spread in
        elim (Bool-cases (ltb_ℤ (pos 0) bid_px)) [
          | inl e ↦
              let b5 = (fire F w b4 bid_id Side.buy OrderType.limit bid_px quote_qty).0 in
              let (k5, v5) =
                fire_limit bid_id ask_id b4.next_id b4 bid_id Side.buy bid_px quote_qty (p3, refl)
                  (none_left bid_id ask_id b4.orders (o4 ∙ o3 ∙ empty), refl) in
              let (k6, v6) =
                fire_limit bid_id ask_id b4.next_id b5 ask_id Side.sell ask_px quote_qty (p4, refl)
                  v5 in
              rw (e, k5, k6) (record { tidy = v6.0; next = omega (arith, v6.1, n4) })
          | inr e ↦
              let (k6, v6) =
                fire_limit 0 ask_id b4.next_id b4 ask_id Side.sell ask_px quote_qty (p4, refl)
                  (none_left 0 ask_id b4.orders (o4 ∙ o3 ∙ empty), refl) in
              rw (e, k6) (record { tidy = v6.0; next = omega (arith, v6.1, n4) })
        ]

    quote-IsTrim :
        (checked posted : ℕ) (k : Maker F) (inv : ℤ) (mid : PriceTick)
        → IsTrim k
        → IsTrim (quote F w checked posted k inv mid)
    unfolding quote
    quote-IsTrim checked posted k inv mid v =
        ite_both IsTrim _ _ _ (replace_quotes-IsTrim posted k _ _ v) v

    fire-IsKept :
        (bid ask n : ℕ) (b : Bot F) (id : ℕ) (side : Side) (px : PriceTick) (qty : ℕ)
        → IsKept F bid ask n b
        → IsKept F bid ask n (fire F w b id side OrderType.ioc px qty).0
    unfolding fire
    fire-IsKept bid ask n b id side px qty v =
        rw (all b.sends) (listen-IsKept F bid ask n _ (w.feed b.sends) v)

    halt-IsTrim : (k : Maker F) (inv : ℤ) (mid : PriceTick) → IsTrim (halt F w k inv mid)
    unfolding halt take_id
    halt-IsTrim k inv mid =
        let c = mass_cancel F w k.bot k.bot.orders in
        let o = mass_cancel_lem F w k.bot k.bot.orders all (λ i h. h) in
        let (b, id) = take_id F c in
        let v : IsKept F 0 0 b.next_id b = (none_left 0 0 b.orders o, refl) in
        elim (Bool-cases (ltb_ℤ (pos 0) inv)) [
          | inl e ↦
              let (t, n) =
                fire-IsKept 0 0 b.next_id b id Side.sell (mid -ℤ ioc_cross) flatten_chunk v in
              rw e (record { tidy = t; next = omega (arith, n) })
          | inr e ↦
              let (t, n) =
                fire-IsKept 0 0 b.next_id b id Side.buy (mid +ℤ ioc_cross) flatten_chunk v in
              rw e (record { tidy = t; next = omega (arith, n) })
        ]

    heard-IsTrim :
        (k : Maker F) (connected : Bool) (es : List FeedEvent)
        → IsTrim k
        → IsTrim (record k { connected = connected; bot = listen F k.bot es })
    heard-IsTrim k connected es v =
        let (t, n) =
          listen-IsKept F k.cur_bid_id k.cur_ask_id k.bot.next_id k.bot es (v.tidy, refl) in
        record { tidy = t; next = omega (arith, n, v.next) }

    cycle-IsTrim :
        (gap : List FeedEvent) (connects : Bool) (checked posted : ℕ) (k : Maker F)
        → IsTrim k
        → IsTrim (cycle F w gap connects checked posted k)
    unfolding cycle
    cycle-IsTrim gap connects checked posted k v =
        let k1 = record k { connected = true; bot = listen F k.bot gap } in
        ite_both IsTrim _ _ _ v (
          ite_both IsTrim _ _ _ (halt-IsTrim k1 k.bot.inventory (mid_price F k.bot)) (
            quote-IsTrim checked posted k1 k.bot.inventory (mid_price F k.bot)
              (heard-IsTrim k true gap v)))

    step-IsTrim : (k : Maker F) (i : Input F) → IsTrim k → IsTrim (step F w k i)
    unfolding step
    step-IsTrim k (round gap connects checked posted) v =
        cycle-IsTrim gap connects checked posted k v
    step-IsTrim k (heard e) v =
        let (t, n) =
          on_feed-IsKept F k.cur_bid_id k.cur_ask_id k.bot.next_id k.bot e (v.tidy, refl) in
        record { tidy = t; next = omega (arith, n, v.next) }

    run-IsTrim : (k : Maker F) (is : List (Input F)) → IsTrim k → IsTrim (run F w k is)
    unfolding run
    run-IsTrim k [] v = v
    run-IsTrim k (i ∷ is) v = run-IsTrim (step F w k i) is (step-IsTrim k i v)

    -- While the sends succeed, a bot that starts afresh has at most one live order on each side,
    -- after any sequence of rounds and of events of either feed, whatever the feeds bring between
    -- the accesses of a round.
    pub one_quote_a_side :
        (buy : Bool) (is : List (Input F))
        → count_side buy (run F w (fresh_maker F) is).bot.orders ≤ 1
    one_quote_a_side buy is =
        let v =
          run-IsTrim (fresh_maker F) is
            (record { tidy = none_left 0 0 [] refl; next = omega arith }) in
        at_most_one buy _ _ (run F w (fresh_maker F) is).bot.orders v.tidy
