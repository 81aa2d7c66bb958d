-- ===== src/Book/Tests.antt =====
-- Runs of the matcher over the Red-Black index.
use titan_hft.Common.{
  ℕ, ◌+◌, ◌*◌, ◌≤◌, ◌≡◌, none, some, List, [], ◌∷◌, ◌++◌, map, length, take, drop, All, pos,
}
use titan_hft.Domain.{Side, Order, OrderType, TradeEvent}
use titan_hft.PinNode.{PinNode}
use titan_hft.Book.RbIndex
use titan_hft.Book.RbIndex.{bid_index, ask_index}
use titan_hft.Book.OrderBook.{Book, create, add}
use titan_hft.Book.Snapshot.{SnapshotLevel, serialize_l2, serialize_l2_fits}
use titan_hft.Book.Matcher.{submit}

abbrev blank_order : Order
blank_order = record {
  id = 0;
  seq = 0;
  price = pos 0;
  quantity = 0;
  remaining = 0;
  side = Side.buy;
  type = OrderType.limit;
}

abbrev blank_node : PinNode
blank_node = record {
  occupancy_mask = 0;
  head_slot = 0;
  tail_slot = 0;
  next = 0;
  prev = 0;
  next_in_time = λ _. 0;
  prev_in_time = λ _. 0;
  slots = λ _. blank_order;
}

abbrev fresh : Book bid_index ask_index
fresh = create bid_index ask_index (λ _. blank_node) 8 64 (RbIndex.create 16) (RbIndex.create 16)

abbrev order : ℕ → ℕ → ℕ → Side → OrderType → Order
order id price qty side type = record {
  id = id;
  seq = id;
  price = pos price;
  quantity = qty;
  remaining = qty;
  side = side;
  type = type;
}

abbrev run : Book bid_index ask_index → List Order → List TradeEvent × Book bid_index ask_index
run b [] = ([], b)
run b (o ∷ os) = elim (submit bid_index ask_index b o) [
  | none ↦ ([], b)
  | some s ↦ let (evs, b') = run s.book os in (s.events ++ evs, b')
]

abbrev script : List Order
script =
    order 1 101 10 Side.sell OrderType.limit
    ∷ order 2 101 5 Side.sell OrderType.limit
    ∷ order 3 100 7 Side.sell OrderType.limit
    ∷ order 3 0 0 Side.sell OrderType.cancel
    ∷ order 4 102 9 Side.sell OrderType.limit
    ∷ order 5 101 12 Side.buy OrderType.limit
    ∷ order 6 0 12 Side.buy OrderType.market
    ∷ []

script_run : List (ℕ × ℕ)
script_run = map (λ (e : TradeEvent). (e.maker_id, e.quantity)) (run fresh script).0

-- A book with one level on each side.
abbrev quoted : Book bid_index ask_index
quoted =
    (add bid_index ask_index
      (add bid_index ask_index fresh (order 1 101 10 Side.sell OrderType.limit)).0
      (order 2 99 5 Side.buy OrderType.limit)).0

serialize_l2_fits_example :
    let s = serialize_l2 bid_index ask_index quoted 56 9 in
    (64 + 24 * s.header.level_count ≤ 1440)
    × (s.header.bid_levels ≤ 28)
    × (s.header.ask_levels ≤ 28)
    × (s.header.level_count ≡ s.header.bid_levels + s.header.ask_levels)
    × (s.header.level_count ≡ length s.levels)
    × (All (λ l. SnapshotLevel.side l ≡ 0) (take s.header.bid_levels s.levels))
    × (All (λ l. SnapshotLevel.side l ≡ 1) (drop s.header.bid_levels s.levels))
serialize_l2_fits_example = serialize_l2_fits bid_index ask_index quoted 9
