-- ===== src/Bot/Cycle.antt =====
-- bots/market_maker.cpp: a round of the loop of main, without its telemetry, and the bot under any
-- sequence of rounds and of events of its feeds.
use titan_hft.Common.{
  ℕ, Bool, true, false, not, ◌&&◌, ◌||◌, List, [], ◌∷◌, ltb, leb, ◌==◌, if◌then◌else◌, sub64, ℤ,
  pos, ltb_ℤ, leb_ℤ, ◌+ℤ◌, ◌-ℤ◌, half_ℤ, cast_i64,
}
use titan_hft.Domain.{PriceTick, Side, OrderType}
use titan_hft.Bot.{
  Doubles, Bot, Live, Net, FeedEvent, fresh_bot, fire, cancel_order, take_id, on_feed, listen,
  half_spread, skew_threshold, max_skew, halt_inv, quote_qty, flatten_chunk, requote_ticks,
  requote_ms, ioc_cross, seed_mid,
}

-- The position is past the circuit breaker.
abbrev pub is_past_halt : ℤ → Bool
is_past_halt inv = ltb_ℤ halt_inv inv || ltb_ℤ inv (pos 0 -ℤ halt_inv)

module _ (F : Doubles) where
  -- The bot with the locals of main.
  pub record Maker : Type 0 where
    pub bot : Bot F
    pub connected : Bool
    pub last_quote_mid : PriceTick
    pub have_quoted : Bool
    pub cur_bid_id : ℕ
    pub cur_ask_id : ℕ
    pub last_quote_ms : ℕ

  abbrev pub fresh_maker : Maker
  fresh_maker = record {
    bot = fresh_bot F;
    connected = false;
    last_quote_mid = pos 0;
    have_quoted = false;
    cur_bid_id = 0;
    cur_ask_id = 0;
    last_quote_ms = 0;
  }

  pub mid_price : Bot F → PriceTick
  mid_price b =
      if b.have_mid
      then half_ℤ (b.best_bid +ℤ b.best_ask)
      else if ltb 0 b.last_trade_px
      then cast_i64 b.last_trade_px
      else seed_mid

  skew_of : ℤ → PriceTick
  skew_of inv =
      let top = F.of_int max_skew in
      let low = F.of_int (pos 0 -ℤ max_skew) in
      let s = F.times (F.of_int inv) F.skew_per_unit in
      let s1 = if F.gtb s top then top else s in
      let s2 = if F.gtb low s1 then low else s1 in
      if ltb_ℤ skew_threshold inv || ltb_ℤ inv (pos 0 -ℤ skew_threshold)
      then F.llround s2
      else pos 0

  -- A cancel for each of the live orders; a failed one is ignored.
  unfoldable pub mass_cancel : Net → Bot F → Live → Bot F
  mass_cancel w b [] = b
  mass_cancel w b ((id, m) ∷ os) = mass_cancel w (cancel_order F w b id m.side).0 os

  -- The circuit breaker, at the position and the price that the round has read before: the orders
  -- are those that are live now. The result of the IOC is ignored.
  unfoldable pub halt : Net → Maker → (inv : ℤ) → (mid : PriceTick) → Maker
  unfolding mass_cancel
  halt w k inv mid =
      let (b, id) = take_id F (mass_cancel w k.bot k.bot.orders) in
      let sold = fire F w b id Side.sell OrderType.ioc (mid -ℤ ioc_cross) flatten_chunk in
      let bought = fire F w b id Side.buy OrderType.ioc (mid +ℤ ioc_cross) flatten_chunk in
      record k {
        bot = if ltb_ℤ (pos 0) inv then sold.0 else bought.0;
        have_quoted = false;
        cur_bid_id = 0;
        cur_ask_id = 0;
      }

  -- The old quotes are pulled and new ones posted; a failed post drops the connection.
  unfoldable pub replace_quotes : Net → (posted_ms : ℕ) → Maker → (mid r : PriceTick) → Maker
  replace_quotes w posted_ms k mid r =
      let bid_px = r -ℤ half_spread in
      let ask_px = r +ℤ half_spread in
      let b1 =
        if k.cur_bid_id == 0 then k.bot else (cancel_order F w k.bot k.cur_bid_id Side.buy).0 in
      let b2 = if k.cur_ask_id == 0 then b1 else (cancel_order F w b1 k.cur_ask_id Side.sell).0 in
      let (b3, bid_id) = take_id F b2 in
      let (b4, ask_id) = take_id F b3 in
      let priced = ltb_ℤ (pos 0) bid_px in
      let (b5, ok1) =
        if priced
        then fire F w b4 bid_id Side.buy OrderType.limit bid_px quote_qty
        else (b4, true) in
      let (b6, ok2) = fire F w b5 ask_id Side.sell OrderType.limit ask_px quote_qty in
      if ok1 && ok2
      then record k {
        bot = b6;
        cur_bid_id = if priced then bid_id else 0;
        cur_ask_id = ask_id;
        last_quote_mid = mid;
        have_quoted = true;
        last_quote_ms = posted_ms;
      }
      else record k { bot = b6; connected = false }

  -- The quoting branch, with the two readings of the clock.
  unfoldable pub quote :
      Net → (checked_ms posted_ms : ℕ) → Maker → (inv : ℤ) → (mid : PriceTick) → Maker
  unfolding replace_quotes skew_of
  quote w checked_ms posted_ms k inv mid =
      let r = mid -ℤ skew_of inv in
      let moved =
        if not k.have_quoted
        then requote_ticks
        else if ltb_ℤ k.last_quote_mid mid
        then mid -ℤ k.last_quote_mid
        else k.last_quote_mid -ℤ mid in
      let stale = leb requote_ms (sub64 checked_ms k.last_quote_ms) in
      if not k.have_quoted || leb_ℤ requote_ticks moved || stale
      then replace_quotes w posted_ms k mid r
      else k

  -- A round; `connects` is the result of tcp_connect, where it is called, and `gap` is what the
  -- feeds bring after it has read the shared state.
  unfoldable pub cycle :
      Net → (gap : List FeedEvent) → (connects : Bool) → (checked_ms posted_ms : ℕ) → Maker → Maker
  unfolding halt quote mid_price
  cycle w gap connects checked_ms posted_ms k =
      let inv = k.bot.inventory in
      let mid = mid_price k.bot in
      let k1 = record k { connected = true; bot = listen F k.bot gap } in
      if not k.connected && not connects
      then k
      else if is_past_halt inv
      then halt w k1 inv mid
      else quote w checked_ms posted_ms k1 inv mid

  -- What may happen next: a round, or an event of either feed.
  pub data Input : Type 0 where
    round : (gap : List FeedEvent) → (connects : Bool) → (checked_ms posted_ms : ℕ) → Input
    heard : FeedEvent → Input

  unfoldable pub step : Net → Maker → Input → Maker
  step w k (round gap connects checked_ms posted_ms) = cycle w gap connects checked_ms posted_ms k
  step w k (heard e) = record k { bot = on_feed F k.bot e }

  unfoldable pub run : Net → Maker → List Input → Maker
  unfolding step
  run w k [] = k
  run w k (i ∷ is) = run w (step w k i) is
