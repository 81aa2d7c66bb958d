-- ===== src/Book/Matcher/Sweep.antt =====
-- include/titan/book/matcher.hpp: filling against the orders of one price level.
use titan_hft.Common.{
  ℕ, zero, suc, ◌+◌, ◌-◌, Bool, true, false, not, Option, none, some, List, [], ◌∷◌, ◌++◌, ltb, leb,
  ◌==◌, if◌then◌else◌, update, u32,
}
use titan_hft.Domain.{Side, Order, TradeEvent, TradeStatus, invalid_index}
use titan_hft.PinNode.{nil_slot, empty, remove}
use titan_hft.Book.Level.{PriceLevel}
use titan_hft.Book.Pool.{Pool, set_node, erase_id, note_partial_fill, free_node}

pub record MatchResult : Type 0 where
  pub filled : ℕ
  pub residual : ℕ
  pub trades : ℕ
  pub rested : Bool
  pub rejected : Bool
  pub canceled : Bool

abbrev pub no_result : MatchResult
no_result = record {
  filled = 0;
  residual = 0;
  trades = 0;
  rested = false;
  rejected = false;
  canceled = false;
}

-- Drops the empty node at the head of the level.
unfoldable pub drop_front : Pool → PriceLevel → Pool × PriceLevel
drop_front p l =
    let next = (p.nodes l.head).next in
    let q = free_node p l.head in
    if next == invalid_index then (q, record l { head = next; tail = invalid_index }) else (
      set_node q next (record (q.nodes next) { prev = invalid_index }),
      record l { head = next },
    )

unfoldable pub front_from : ℕ → Pool → PriceLevel → Option (Pool × PriceLevel × Option ℕ)
front_from zero p l = none
front_from (suc fuel) p l =
    let (q, l1) = drop_front p l in
    let rest = front_from fuel q l1 in
    if l.head == invalid_index
    then some (p, l, none)
    else if leb p.node_count l.head
    then some (p, record l { head = invalid_index; tail = invalid_index }, none)
    else if not (empty (p.nodes l.head))
    then some (p, l, some l.head)
    else rest

-- The head node with a live order, by its index; `none` inside if there is none. A chain
-- visits each node of the pool at most once.
unfoldable pub front_node : Pool → PriceLevel → Option (Pool × PriceLevel × Option ℕ)
unfolding front_from drop_front
front_node p l = front_from (p.node_count + 1) p l

-- Where the loop of `sweep_level` stands.
pub record SweepState : Type 0 where
  pub pool : Pool
  pub lvl : PriceLevel
  pub taker : Order
  pub result : MatchResult
  pub events : List TradeEvent

unfoldable pub fill_event : Order → Order → Bool → ℕ → TradeEvent
fill_event maker taker taker_buy qty = record {
  taker_id = taker.id;
  maker_id = maker.id;
  price = maker.price;
  feed_seq = taker.seq;
  quantity = qty;
  taker_side = if taker_buy then Side.buy else Side.sell;
  status = TradeStatus.fill;
}

-- A maker with nothing left goes: from the slab, from its node, from the level's count.
unfoldable pub drop_maker : SweepState → (n slot : ℕ) → Order → SweepState
drop_maker s n slot maker =
    let p1 = erase_id s.pool maker.id in
    record s {
      pool = set_node p1 n (remove (p1.nodes n) slot).0;
      lvl = record (s.lvl) {
        order_count = if s.lvl.order_count == 0 then s.lvl.order_count else s.lvl.order_count - 1;
      };
    }

-- One round of the loop at the maker in slot `slot` of node `n`. The fill is the smaller of two
-- quantities, so the subtractions stay above 0.
unfoldable pub fill_front : Bool → SweepState → (n slot : ℕ) → SweepState
unfolding drop_maker
fill_front taker_buy s n slot =
    let node = s.pool.nodes n in
    let maker = node.slots slot in
    let fill =
      if ltb s.taker.remaining maker.remaining then s.taker.remaining else maker.remaining in
    let taker = record (s.taker) { remaining = s.taker.remaining - fill } in
    let maker1 = record maker { remaining = maker.remaining - fill } in
    let s1 = record s {
      pool = set_node s.pool n (record node { slots = update node.slots slot maker1 });
      taker = taker;
      lvl = record (s.lvl) {
        total_qty = if leb fill s.lvl.total_qty then s.lvl.total_qty - fill else 0;
      };
      result = record (s.result) { trades = u32 (s.result.trades + 1) };
      events = s.events ++ fill_event maker1 taker taker_buy fill ∷ [];
    } in
    if maker.remaining == 0
    then drop_maker s n slot maker
    else if maker1.remaining == 0
    then drop_maker s1 n slot maker1
    else record s1 { pool = note_partial_fill s1.pool maker1.id maker1.remaining }

unfoldable pub sweep_level : ℕ → Bool → SweepState → Option SweepState
unfolding fill_front
sweep_level zero taker_buy s = none
sweep_level (suc fuel) taker_buy s = elim (s.taker.remaining == 0) [
  | true ↦ some s
  | false ↦ elim (front_node s.pool s.lvl) [
    | none ↦ none
    | some (p, l, none) ↦ some (record s { pool = p; lvl = l })
    | some (p, l, some n) ↦
        let slot = (p.nodes n).head_slot in
        let rest =
          sweep_level fuel taker_buy
            (fill_front taker_buy (record s { pool = p; lvl = l }) n slot) in
        if slot == nil_slot then some (record s { pool = p; lvl = l }) else rest
  ]
]
