-- ===== src/Book/Matcher/Tests.antt =====
-- A level of two orders, of which the first is filled, in part or in full.
use titan_hft.Common.{ℕ, refl, true, [], ◌∷◌, arith, pos}
use titan_hft.Domain.{Order, Side, OrderType}
use titan_hft.PinNode.{PinNode, reset, place}
use titan_hft.PinNode.Fifo.{IsFifo, reset-IsFifo, place-IsFifo}
use titan_hft.Book.Matcher.Sweep.{SweepState, no_result, fill_front}
use titan_hft.Book.Matcher.Fill.{Filled, fill_front_refines}

abbrev pub resting : ℕ → ℕ → Order
resting id qty = record {
  id = id;
  seq = id;
  price = pos 100;
  quantity = qty;
  remaining = qty;
  side = Side.sell;
  type = OrderType.limit;
}

abbrev blank_node : PinNode
blank_node = record {
  occupancy_mask = 0;
  head_slot = 0;
  tail_slot = 0;
  next = 0;
  prev = 0;
  next_in_time = λ _. 0;
  prev_in_time = λ _. 0;
  slots = λ _. resting 0 0;
}

abbrev pub queue : PinNode
queue = place (place (reset blank_node) (resting 1 5) 0) (resting 2 7) 1

pub queue-IsFifo : IsFifo queue (0 ∷ 1 ∷ [])
queue-IsFifo =
    place-IsFifo (place (reset blank_node) (resting 1 5) 0) (0 ∷ [])
      (place-IsFifo (reset blank_node) [] (reset-IsFifo blank_node) (resting 1 5) 0 (omega arith)
        refl)
      (resting 2 7) 1 (omega arith) refl

abbrev pub taking : ℕ → SweepState
taking qty = record {
  pool = record {
    nodes = λ _. queue;
    node_count = 1;
    free_nodes = [];
    locators =
        λ id. record { node = 0; slot = id; price = pos 100; remaining = 5; side = Side.sell };
    id_capacity = 8;
    live_count = 2;
  };
  lvl = record { price = pos 100; head = 0; tail = 0; total_qty = 12; order_count = 2 };
  taker = record (resting 3 qty) { side = Side.buy };
  result = no_result;
  events = [];
}

fill_front_refines_example : Filled true (taking 6) 0 0 (1 ∷ []) (fill_front true (taking 6) 0 0)
unfolding place reset
fill_front_refines_example =
    fill_front_refines true (taking 6) 0 0 (1 ∷ []) queue-IsFifo (omega arith) (omega arith)
