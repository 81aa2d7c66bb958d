-- ===== src/Bot.antt =====
-- bots/market_maker.cpp: the market-making client of the server. What the threads share is one
-- record. An event of a feed is applied under the lock, so it is a step; the main thread takes the
-- lock anew for each access and sends outside it, so whatever the feeds bring in between is an
-- argument, from one send to the next access. The map of live orders is a list with one entry an
-- id. Positions and the sums of prices stay within the range of a long: the bot does not check what
-- the feeds bring, and past that range its signed arithmetic is undefined.
pub mod Cycle
pub mod Feed
pub mod Halt
pub mod Quotes
pub mod Tidy
mod Tests
use titan_hft.Common.{
  ℕ, ◌+◌, ◌-◌, ◌*◌, ◌/◌, ◌^◌, Bool, true, false, not, ◌&&◌, ◌||◌, Option, none, some, List, [], ◌∷◌,
  ◌++◌, map, ltb, leb, ◌==◌, if◌then◌else◌, min, ℤ, pos, negsuc, ltb_ℤ, leb_ℤ, eqb_ℤ, ◌+ℤ◌, ◌-ℤ◌,
  half_ℤ, cast_u64, cast_i64,
}
use titan_hft.Domain.{PriceTick, Side, is_buy, Order, OrderType, is_limit, TradeEvent, TradeStatus}
use titan_hft.Book.Snapshot.{SnapshotHeader, snapshot_magic}

-- The floating-point unit: type double with the operations that the bot uses.
pub record Doubles : Type 1 where
  pub Double : Type 0
  pub of_int : ℤ → Double
  pub plus : Double → Double → Double
  pub minus : Double → Double → Double
  pub times : Double → Double → Double
  pub gtb : Double → Double → Bool
  pub zero_double : Double
  pub skew_per_unit : Double  -- 0.20
  pub llround : Double → ℤ

abbrev pub half_spread : PriceTick
half_spread = pos 5

abbrev pub skew_threshold : ℤ
skew_threshold = pos 50

abbrev pub max_skew : PriceTick
max_skew = pos 40

abbrev pub halt_inv : ℤ
halt_inv = pos 500

abbrev pub quote_qty : ℕ
quote_qty = 5

abbrev pub flatten_chunk : ℕ
flatten_chunk = 50

abbrev pub requote_ticks : PriceTick
requote_ticks = pos 1

abbrev pub requote_ms : ℕ
requote_ms = 1000

abbrev pub ioc_cross : PriceTick
ioc_cross = pos 20

abbrev pub seed_mid : PriceTick
seed_mid = pos 10000

abbrev pub id_base : ℕ
id_base = 1000000

abbrev pub id_max : ℕ
id_max = 2 ^ 22 - 1

pub record MyOrder : Type 0 where
  pub side : Side
  pub price : PriceTick
  pub remaining : ℕ

-- std::unordered_map: lookup, erase(key), and the write of an entry.
abbrev pub Live : Type 0
Live = List (ℕ × MyOrder)

unfoldable pub find_order : ℕ → Live → Option MyOrder
find_order id [] = none
find_order id ((k, m) ∷ os) = let rest = find_order id os in if id == k then some m else rest

unfoldable pub erase_order : ℕ → Live → Live
erase_order id [] = []
erase_order id ((k, m) ∷ os) =
    let rest = erase_order id os in if id == k then rest else (k, m) ∷ rest

unfoldable pub put_order : ℕ → MyOrder → Live → Live
unfolding erase_order
put_order id m os = (id, m) ∷ erase_order id os

-- What the feed threads take: one trade of a datagram, or a datagram of `n` bytes of the snapshot
-- feed with the price that its level `i` has.
pub data FeedEvent : Type 0 where
  trade : TradeEvent → FeedEvent
  snapshot : (n : ℕ) → SnapshotHeader → (ℕ → PriceTick) → FeedEvent

-- The n-th call of send_all succeeds if `sent n`, and from then on to the next access `feed n` is
-- what the feeds bring.
pub record Net : Type 0 where
  pub sent : ℕ → Bool
  pub feed : ℕ → List FeedEvent

module _ (F : Doubles) where
  -- The globals, the orders that have gone out, and the number of calls of send_all.
  pub record Bot : Type 0 where
    pub best_bid : PriceTick
    pub best_ask : PriceTick
    pub have_mid : Bool
    pub inventory : ℤ
    pub cash : F.Double
    pub last_trade_px : ℕ
    pub orders : Live
    pub next_id : ℕ
    pub wire : List Order
    pub sends : ℕ

  abbrev pub fresh_bot : Bot
  fresh_bot = record {
    best_bid = pos 0;
    best_ask = pos 0;
    have_mid = false;
    inventory = pos 0;
    cash = F.zero_double;
    last_trade_px = 0;
    orders = [];
    next_id = id_base;
    wire = [];
    sends = 0;
  }

  -- A fill of `q` against the order `id`, if it is live.
  unfoldable pub apply_fill_locked : Bot → (id : ℕ) → PriceTick → (q : ℕ) → Bot
  unfolding find_order erase_order put_order
  apply_fill_locked b id px q = elim (find_order id b.orders) [
    | none ↦ b
    | some m ↦
        let take = if ltb q m.remaining then q else m.remaining in
        let value = F.times (F.of_int px) (F.of_int (pos take)) in
        let left = m.remaining - take in
        let b1 =
          if is_buy m.side
          then record b { inventory = b.inventory +ℤ pos take; cash = F.minus b.cash value }
          else record b { inventory = b.inventory -ℤ pos take; cash = F.plus b.cash value } in
        if q == 0 then b else record b1 {
          orders =
              if left == 0
              then erase_order id b.orders
              else put_order id (record m { remaining = left }) b.orders;
        }
  ]

  -- One event of the trade feed.
  unfoldable pub on_trade : Bot → TradeEvent → Bot
  unfolding apply_fill_locked
  on_trade b ev = elim ev.status [
    | TradeStatus.rejected ↦ record b { orders = erase_order ev.taker_id b.orders }
    | TradeStatus.fill ↦
        let b1 = record b { last_trade_px = cast_u64 ev.price } in
        apply_fill_locked (apply_fill_locked b1 ev.taker_id ev.price ev.quantity) ev.maker_id
          ev.price ev.quantity
  ]

  -- A datagram of `n` bytes of the snapshot feed, with the price that its level `i` has.
  unfoldable pub on_snapshot : Bot → (n : ℕ) → SnapshotHeader → (ℕ → PriceTick) → Bot
  on_snapshot b n h price =
      let got = (n - 64) / 24 in
      let levels = if ltb h.level_count got then h.level_count else got in
      let has_bid = ltb 0 h.bid_levels in
      let has_ask = ltb 0 h.ask_levels && ltb h.bid_levels levels in
      if ltb n 64
      then b
      else if not (h.magic == snapshot_magic) || (levels == 0)
      then b
      else if has_bid && has_ask
      then record b { best_bid = price 0; best_ask = price h.bid_levels; have_mid = true }
      else b

  unfoldable pub on_feed : Bot → FeedEvent → Bot
  unfolding on_trade on_snapshot
  on_feed b (trade ev) = on_trade b ev
  on_feed b (snapshot n h price) = on_snapshot b n h price

  -- What the feed threads do between two accesses of the main thread.
  unfoldable pub listen : Bot → List FeedEvent → Bot
  unfolding on_feed
  listen b [] = b
  listen b (e ∷ es) = listen (on_feed b e) es

  -- The call of send_all, and the feeds until the next access.
  send_order : Net → Bot → Order → Bot × Bool
  unfolding listen
  send_order w b o =
      let b1 = record b { sends = b.sends + 1 } in
      if w.sent b.sends
      then (listen (record b1 { wire = b.wire ++ o ∷ [] }) (w.feed b.sends), true)
      else (listen b1 (w.feed b.sends), false)

  unfoldable pub take_id : Bot → Bot × ℕ
  take_id b =
      let id = if leb id_max b.next_id then id_base else b.next_id in
      (record b { next_id = id + 1 }, id)

  unfoldable pub fire : Net → Bot → (id : ℕ) → Side → OrderType → PriceTick → (qty : ℕ) → Bot × Bool
  unfolding send_order put_order
  fire w b id side type px qty =
      let (b1, ok) = send_order w b (record {
        id = id;
        seq = 0;
        price = px;
        quantity = qty;
        remaining = qty;
        side = side;
        type = type;
      }) in
      let m : MyOrder = record { side = side; price = px; remaining = qty } in
      if not ok
      then (b1, false)
      else if is_limit type
      then (record b1 { orders = put_order id m b1.orders }, true)
      else (b1, true)

  unfoldable pub cancel_order : Net → Bot → (id : ℕ) → Side → Bot × Bool
  unfolding send_order erase_order
  cancel_order w b id side =
      let (b1, ok) = send_order w b (record {
        id = id;
        seq = 0;
        price = pos 0;
        quantity = 0;
        remaining = 0;
        side = side;
        type = OrderType.cancel;
      }) in
      if not ok then (b1, false) else (record b1 { orders = erase_order id b1.orders }, true)
