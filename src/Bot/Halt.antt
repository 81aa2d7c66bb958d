-- ===== src/Bot/Halt.antt =====
-- The circuit breaker of the bot, which cancels its quotes and trades by IOC orders that it does not
-- record: their fills never reach its position.
use titan_hft.Common.{
  ℕ, ◌≡◌, refl, sym, ap, ◌∙◌, subst, inl, inr, Bool, true, false, not, ◌&&◌, ◌||◌, List, [], ◌∷◌,
  arith, ◌==◌, Bool-cases, has, ℤ, pos, ltb_ℤ, ◌-ℤ◌, ◌+ℤ◌,
}
use titan_hft.Domain.{Side, OrderType, PriceTick}
use titan_hft.Bot.{
  Doubles, Bot, Live, Net, FeedEvent, fire, cancel_order, take_id, ioc_cross, listen, flatten_chunk,
}
use titan_hft.Bot.Cycle.{
  round, heard, Maker, Input, halt, cycle, mass_cancel, mid_price, step, run, is_past_halt,
}
use titan_hft.Bot.Feed.{
  ids, has-erase_order, no_ids, Within, IsIdle, on_feed-IsIdle, listen-IsIdle, listen-Within,
}

module _ (F : Doubles) (w : Net) where
  -- A cancel whose send succeeds, whatever the feeds bring meanwhile, leaves no order that was not
  -- live before, and not its own.
  pub cancel_order-Within :
      (is : List ℕ) (b : Bot F) (id : ℕ) (side : Side)
      → w.sent b.sends ≡ true
      → Within is b.orders
      → let c = (cancel_order F w b id side).0 in
        (i : ℕ) → has i (ids c.orders) ≡ true → (has i is ≡ true) × ((i == id) ≡ false)
  unfolding cancel_order
  cancel_order-Within is b id side e v = rw e (λ i h.
      let (k, d) = has-erase_order i id _ h in (listen-Within F is _ (w.feed b.sends) v i k, d))

  -- When each send succeeds, the mass cancel leaves no order that it was given.
  pub mass_cancel_lem :
      (b : Bot F) (os : Live)
      → ((n : ℕ) → w.sent n ≡ true)
      → Within (ids os) b.orders
      → (mass_cancel F w b os).orders ≡ []
  unfolding mass_cancel
  mass_cancel_lem b [] all v = no_ids b.orders (λ i k. ground (arith, v i k))
  mass_cancel_lem b ((id, m) ∷ os) all v =
      let c = (cancel_order F w b id m.side).0 in
      let r = cancel_order-Within (id ∷ ids os) b id m.side (all b.sends) v in
      mass_cancel_lem c os all (λ i h. ground (arith, r i h))

  -- An IOC order is not kept, so with no live order the position stays.
  fire_ioc-IsIdle :
      (inv : ℤ) (b : Bot F) (id : ℕ) (side : Side) (px : PriceTick) (qty : ℕ)
      → IsIdle F inv b
      → IsIdle F inv (fire F w b id side OrderType.ioc px qty).0
  unfolding fire
  fire_ioc-IsIdle inv b id side px qty v = elim (Bool-cases (w.sent b.sends)) [
    | inl e ↦ rw e (listen-IsIdle F inv _ (w.feed b.sends) v)
    | inr e ↦ rw e (listen-IsIdle F inv _ (w.feed b.sends) v)
  ]

  -- The breaker itself trades by orders that it does not keep.
  pub halt_lem :
      (k : Maker F) (inv : ℤ) (mid : PriceTick)
      → let b = mass_cancel F w k.bot k.bot.orders in
        b.orders ≡ [] → IsIdle F b.inventory (halt F w k inv mid).bot
  unfolding halt take_id
  halt_lem k inv mid e =
      let c = mass_cancel F w k.bot k.bot.orders in
      let (b, id) = take_id F c in
      elim (Bool-cases (ltb_ℤ (pos 0) inv)) [
        | inl s ↦
            rw s (
              fire_ioc-IsIdle c.inventory b id Side.sell (mid -ℤ ioc_cross) flatten_chunk (e, refl))
        | inr s ↦
            rw s
              (fire_ioc-IsIdle c.inventory b id Side.buy (mid +ℤ ioc_cross) flatten_chunk (e, refl))
      ]

  -- Past the breaker, with no live order.
  pub record IsStuck (inv : ℤ) (k : Maker F) : Type 0 where
    pub past : is_past_halt inv ≡ true
    pub idle : IsIdle F inv k.bot

  mass_cancel-IsIdle :
      (inv : ℤ) (b : Bot F) (os : Live)
      → os ≡ []
      → IsIdle F inv b
      → IsIdle F inv (mass_cancel F w b os)
  unfolding mass_cancel
  mass_cancel-IsIdle inv b os e v = rw (mass_cancel, e) v

  pub cycle-halt :
      (gap : List FeedEvent) (connects : Bool) (checked posted : ℕ) (k : Maker F)
      → is_past_halt k.bot.inventory ≡ true
      → (k.connected || connects) ≡ true
      → cycle F w gap connects checked posted k
        ≡ halt F w
            (record k { connected = true; bot = listen F k.bot gap })
            k.bot.inventory
            (mid_price F k.bot)
  unfolding cycle
  cycle-halt gap connects checked posted k e c =
      let open_ : (not k.connected && not connects) ≡ false = ground (arith, c) in
      rw (cycle, open_, e) refl

  step-IsStuck : (inv : ℤ) (k : Maker F) (i : Input F) → IsStuck inv k → IsStuck inv (step F w k i)
  unfolding step cycle
  step-IsStuck inv k (round gap connects checked posted) v =
      let past : is_past_halt k.bot.inventory ≡ true = ap is_past_halt v.idle.1 ∙ v.past in
      elim (Bool-cases (k.connected || connects)) [
        | inl c ↦
            let b = listen F k.bot gap in
            let k1 = record k { connected = true; bot = b } in
            let heard_idle = listen-IsIdle F inv k.bot gap v.idle in
            let (o, p) = mass_cancel-IsIdle inv b b.orders heard_idle.0 heard_idle in
            let (o', p') = halt_lem k1 k.bot.inventory (mid_price F k.bot) o in
            subst (IsStuck inv) (sym (cycle-halt gap connects checked posted k past c))
              (record { past = v.past; idle = (o', p' ∙ p) })
        | inr c ↦
            let shut : (not k.connected && not connects) ≡ true = ground (arith, c) in
            rw (cycle, shut) v
      ]
  step-IsStuck inv k (heard e) v = record {
    past = v.past;
    idle = on_feed-IsIdle F inv k.bot e v.idle;
  }

  run-IsStuck :
      (inv : ℤ) (k : Maker F) (is : List (Input F)) → IsStuck inv k → IsStuck inv (run F w k is)
  unfolding run
  run-IsStuck inv k [] v = v
  run-IsStuck inv k (i ∷ is) v = run-IsStuck inv (step F w k i) is (step-IsStuck inv k i v)

  -- While the sends succeed, a bot that runs a round past its circuit breaker has no live order
  -- after it, whatever the feeds bring between its accesses. If its position is still past the
  -- breaker then, it has no live order and just this position for ever, whatever the feeds bring
  -- and however many rounds follow: no fill of its flattening orders is counted.
  pub halted_forever :
      (gap : List FeedEvent) (connects : Bool) (checked posted : ℕ) (k : Maker F)
      (is : List (Input F))
      → is_past_halt k.bot.inventory ≡ true
      → (k.connected || connects) ≡ true
      → ((n : ℕ) → w.sent n ≡ true)
      → is_past_halt (cycle F w gap connects checked posted k).bot.inventory ≡ true
      → let k1 = cycle F w gap connects checked posted k in
        (k1.bot.orders ≡ []) × IsStuck k1.bot.inventory (run F w k1 is)
  halted_forever gap connects checked posted k is e c all past =
      let b = listen F k.bot gap in
      let k1 = cycle F w gap connects checked posted k in
      let (o, _) =
        halt_lem (record k { connected = true; bot = b }) k.bot.inventory (mid_price F k.bot)
          (mass_cancel_lem b b.orders all (λ i h. h)) in
      let none_live =
        ap (λ (m : Maker F). m.bot.orders) (cycle-halt gap connects checked posted k e c) ∙ o in
      (
        none_live,
        run-IsStuck k1.bot.inventory k1 is (record { past = past; idle = (none_live, refl) }),
      )
