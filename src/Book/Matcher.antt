-- ===== src/Book/Matcher.antt =====
-- include/titan/book/matcher.hpp: crossing an order against the book. The events are what the
-- sink accepts, in order: `emit` retries until it does. Loops run on fuel, and `none` means that
-- the fuel ran out. The handler of std::bad_alloc in `submit` is dead: what it guards is noexcept.
pub mod Sweep
pub mod Fill
pub mod Priority
mod Tests
use titan_hft.Common.{
  ℕ, zero, suc, ◌+◌, ◌-◌, ◌*◌, ◌/◌, ◌%◌, ◌^◌, ◌≤◌, ◌<◌, min, ◌≡◌, ◌≢◌, refl, sym, ap, ap₂, ◌∙◌,
  subst, subst₂, ◌↔◌, ◌⊎◌, inl, inr, Bool, true, false, not, ◌&&◌, ◌||◌, Option, none, some, List,
  [], ◌∷◌, ◌++◌, map, map-append, append-nil, append_assoc, arith, ltb, leb, ◌==◌, if◌then◌else◌,
  ==→eq, eq_refl, Bool-cases, Option-cases, update, length, get_elem?, take, drop, length-append,
  take-append-drop, length-take, length-drop, has, Distinct, erase, last_or, head_or, All,
  All-append, has-append, has-erase, has-erase_self, erase-Distinct, length-erase, append-Distinct,
  u32, u64, sub64, test_bit, set_bit, clear_bit, lowest_clear, popcount, test_bit-set_bit,
  test_bit-clear_bit, test_bit-zero, lowest_clear_lem, set_bit-lt, clear_bit-le, popcount-le,
  popcount-none, popcount-clear_bit, popcount-full_iff, popcount-eq-zero, ℤ, pos, negsuc, ◌≤ℤ◌,
  ◌<ℤ◌, leb_ℤ, ltb_ℤ, eqb_ℤ, cast_u64, eq_of_parts, eqb_ℤ→eq, eqb_ℤ_refl, Seg, Seg-frame, Seg-split,
  Seg-join, last_or-append, has-last_or, has-split, Distinct-split, append_next, unlink_next,
  unlink_prev, Seg-append_last, Seg-unlink,
}
use mathlib.Core.Option
use titan_hft.Domain.{
  PriceTick, Side, is_buy, Order, OrderType, is_market, is_limit, is_cancel, TradeEvent,
  TradeStatus, is_admissible,
}
use titan_hft.Book.Level.{PriceLevel}
use titan_hft.Book.Index.{nil, PriceIndex, is_empty}
use titan_hft.Book.Pool.{Pool, free_level_nodes}
use titan_hft.Book.OrderBook.{Book, add, cancel}
use Sweep.{MatchResult, no_result, SweepState, sweep_level}

unfoldable pub reject_event : Order → TradeEvent
reject_event o = record {
  taker_id = o.id;
  maker_id = 0;
  price = o.price;
  feed_seq = o.seq;
  quantity = 0;
  taker_side = o.side;
  status = TradeStatus.rejected;
}

-- At most one rejection for an order.
unfoldable pub emit_reject : Order → MatchResult → List TradeEvent → MatchResult × List TradeEvent
unfolding reject_event
emit_reject o r evs =
    if r.rejected then (r, evs) else (record r { rejected = true }, evs ++ reject_event o ∷ [])

-- The limit of the order reaches the level; a market order has none.
unfoldable pub crosses : Order → Bool → PriceLevel → Bool
crosses o taker_buy l =
    if is_market o.type
    then true
    else if taker_buy
    then leb_ℤ l.price o.price
    else leb_ℤ o.price l.price

module _ (P : PriceIndex) where
  open P use {Index}

  -- Where the loop of `cross` stands.
  pub record Cross : Type 0 where
    pub pool : Pool
    pub opp : Index
    pub taker : Order
    pub result : MatchResult
    pub events : List TradeEvent

  -- The level after its sweep: written back, or reclaimed and erased when no order is left.
  unfoldable pub settle : Index → ℕ → SweepState → Option Cross
  settle m it s =
      let back = P.set_level m it s.lvl in
      if s.lvl.order_count == 0
      then Option.map
          (λ (q, l). record {
            pool = q;
            opp = P.erase (P.set_level m it l) it;
            taker = s.taker;
            result = s.result;
            events = s.events;
          })
          (free_level_nodes s.pool s.lvl)
      else some (record {
        pool = s.pool;
        opp = back;
        taker = s.taker;
        result = s.result;
        events = s.events;
      })

  -- One round of the loop, at the best level.
  unfoldable pub cross_level : Bool → Cross → Option Cross
  unfolding settle
  cross_level taker_buy c =
      let it = P.begin c.opp in
      Option.bind
        (sweep_level (c.pool.live_count + 2) taker_buy (record {
          pool = c.pool;
          lvl = P.level c.opp it;
          taker = c.taker;
          result = c.result;
          events = c.events;
        }))
        (settle c.opp it)

  unfoldable pub cross_from : ℕ → Bool → Cross → Option Cross
  cross_from zero taker_buy c = none
  cross_from (suc fuel) taker_buy c =
      let rest = Option.bind (cross_level taker_buy c) (cross_from fuel taker_buy) in
      if c.taker.remaining == 0
      then some c
      else if is_empty P c.opp
      then some c
      else if not (crosses c.taker taker_buy (P.level c.opp (P.begin c.opp)))
      then some c
      else rest

  -- A round that goes on erases a level.
  unfoldable pub cross : Bool → Cross → Option Cross
  unfolding cross_from cross_level
  cross taker_buy c = cross_from (P.size c.opp + 2) taker_buy c

module _ (B A : PriceIndex) where
  pub record Submitted : Type 0 where
    pub book : Book B A
    pub result : MatchResult
    pub events : List TradeEvent

  -- The residual of the taker `o` after crossing.
  unfoldable pub finish :
      Book B A → (original : ℕ) → Order → MatchResult → List TradeEvent → Submitted
  finish b original o r evs =
      let r1 = record r { filled = original - o.remaining; residual = o.remaining } in
      let (b1, rested) = add B A b o in
      let r2 = record r1 { rested = rested } in
      let (r3, evs3) = emit_reject o r2 evs in
      if not (o.remaining == 0) && is_limit o.type
      then (if rested
          then record { book = b1; result = r2; events = evs }
          else record { book = b1; result = r3; events = evs3 })
      else record { book = b; result = r1; events = evs }

  unfoldable pub cross_asks : Book B A → Order → Option Submitted
  unfolding finish
  cross_asks b o =
      Option.map
        (λ c.
          finish (record b { pool = c.pool; asks = c.opp }) o.remaining c.taker c.result c.events)
        (cross A true
          (record { pool = b.pool; opp = b.asks; taker = o; result = no_result; events = [] }))

  unfoldable pub cross_bids : Book B A → Order → Option Submitted
  unfolding finish
  cross_bids b o =
      Option.map
        (λ c.
          finish (record b { pool = c.pool; bids = c.opp }) o.remaining c.taker c.result c.events)
        (cross B false
          (record { pool = b.pool; opp = b.bids; taker = o; result = no_result; events = [] }))

  unfoldable pub submit : Book B A → Order → Option Submitted
  unfolding cross_asks cross_bids
  submit b o =
      let (r, evs) = emit_reject o (record no_result { residual = o.remaining }) [] in
      if is_cancel o.type
      then Option.map
          (λ (b1, canceled). record {
            book = b1;
            result = record no_result { canceled = canceled };
            events = [];
          })
          (cancel B A b o.id)
      else if not (is_admissible o)
      then some (record { book = b; result = r; events = evs })
      else if o.remaining == 0
      then some (finish b o.remaining o no_result [])
      else if is_buy o.side
      then cross_asks b o
      else cross_bids b o
