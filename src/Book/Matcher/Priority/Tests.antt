-- ===== src/Book/Matcher/Priority/Tests.antt =====
-- Priority at a book with one level of asks, of two orders.
use titan_hft.Common.{ℕ, ◌≡◌, refl, true, some, List, [], ◌∷◌, arith, pos, ltb_ℤ, has}
use titan_hft.Domain.{Order, invalid_index, is_admissible}
use titan_hft.PinNode.{place, reset}
use titan_hft.Book.Pool.{Pool, free_level_nodes}
use titan_hft.Book.Index.Listing.{Listing}
use titan_hft.Book.RbIndex.{bid_index, ask_index, erase_node}
use titan_hft.Book.RbIndex.Fixup.{Rb, default_node}
use titan_hft.Book.RbIndex.Listed.{IsListed, erase_node-IsListed, rb_listing, rb_lists}
use titan_hft.Book.OrderBook.{Book}
use titan_hft.Book.Queue.{Chain, IsPool}
use titan_hft.Book.Queue.Front.{Fronted, front_node_lem}
use titan_hft.Book.Queue.Release.{Released, free_level_nodes_lem}
use titan_hft.Book.Matcher.{submit, Cross, cross}
use titan_hft.Book.Matcher.Sweep.{sweep_level, no_result, front_node}
use titan_hft.Book.Matcher.Tests.{queue-IsFifo, taking, resting}
use titan_hft.Book.Matcher.Priority.Round.{IsLevel}
use titan_hft.Book.Matcher.Priority.BookSide.{Row, IsSide}
use titan_hft.Book.Matcher.Priority.Sweep.{Sweeps, sweep_level_total}
use titan_hft.Book.Matcher.Priority.Cross.{Crosses, cross_lem}
use titan_hft.Book.Matcher.Priority.Submit.{IsBook, Submits, submit_total}

abbrev chain : Chain
chain = (0, 0 ∷ 1 ∷ []) ∷ []

abbrev resting_orders : List Order
resting_orders = resting 1 5 ∷ resting 2 7 ∷ []

pool-IsPool : IsPool (taking 6).pool (0 ∷ [])
pool-IsPool = record {
  distinct = (refl, tt);
  bounded = λ k h. ground arith;
  covered = λ k h. ground arith;
  few = omega arith;
}

ask_queue-IsLevel : IsLevel (taking 6).pool (taking 6).lvl chain [] resting_orders
unfolding place reset
ask_queue-IsLevel = record {
  linked = record { chain = (refl, queue-IsFifo, refl); last = refl; pool = pool-IsPool };
  holds = refl;
  counted = refl;
  summed = refl;
  live = (omega arith, (omega arith, tt));
}

sweep_level_total_example :
    Sweeps true (taking 6) chain [] resting_orders (sweep_level 3 true (taking 6))
sweep_level_total_example =
    sweep_level_total 3 true (taking 6) chain [] resting_orders (omega arith) (omega arith)
      ask_queue-IsLevel

front_node_lem_example :
    Fronted (taking 6).pool (taking 6).lvl chain [] (front_node (taking 6).pool (taking 6).lvl)
front_node_lem_example =
    front_node_lem (taking 6).pool (taking 6).lvl chain [] ask_queue-IsLevel.linked

abbrev asks : Rb
asks = record {
  nodes = λ _. record default_node { level = (taking 6).lvl };
  free = [];
  root = 1;
  begin = 1;
  size = 1;
}

abbrev bids : Rb
bids = record { nodes = λ _. default_node; free = []; root = 0; begin = 0; size = 0 }

abbrev row : Row
row = record { iter = 1; price = pos 100; chain = chain; orders = resting_orders }

asks-IsListed : IsListed asks (1 ∷ [])
asks-IsListed = record {
  chain = (refl, refl, refl);
  distinct = (refl, tt);
  live = refl;
  size = refl;
}

abbrev ask_listing : Listing ask_index
ask_listing = rb_listing _

abbrev bid_listing : Listing bid_index
bid_listing = rb_listing _

abbrev book : Book bid_index ask_index
book = record { pool = (taking 6).pool; bids = bids; asks = asks }

asks-IsSide : IsSide ask_index ask_listing (taking 6).pool asks (row ∷ []) [] 0
unfolding place reset
asks-IsSide = record {
  lists = rb_lists _ asks (1 ∷ []) asks-IsListed;
  rows = (
    record {
      price = refl;
      chain = ask_queue-IsLevel.linked.chain;
      last = refl;
      holds = refl;
      counted = refl;
      summed = refl;
      live = ask_queue-IsLevel.live;
    },
    tt,
  );
  pool = pool-IsPool;
  enough = omega arith;
  bounded = omega arith;
}

book-IsBook : IsBook bid_index ask_index bid_listing ask_listing book [] (row ∷ [])
book-IsBook = record {
  bids = record {
    lists = rb_lists _ bids [] (record { chain = refl; distinct = tt; live = refl; size = refl });
    rows = tt;
    pool = pool-IsPool;
    enough = omega arith;
    bounded = omega arith;
  };
  asks = asks-IsSide;
}

abbrev crossing : Cross ask_index
crossing = record {
  pool = (taking 6).pool;
  opp = asks;
  taker = (taking 6).taker;
  result = no_result;
  events = [];
}

cross_lem_example :
    Crosses ask_index ask_listing true crossing (row ∷ []) [] 0 (cross ask_index true crossing)
cross_lem_example = cross_lem ask_index ask_listing true crossing (row ∷ []) [] 0 asks-IsSide

submit_total_example :
    Submits bid_index ask_index bid_listing ask_listing true
      (taking 6).taker
      []
      (row ∷ [])
      (submit bid_index ask_index book (taking 6).taker)
unfolding is_admissible
submit_total_example =
    submit_total bid_index ask_index bid_listing ask_listing book [] (row ∷ []) (taking 6).taker
      book-IsBook refl refl

free_level_nodes_lem_example :
    (q : Pool) × (free_level_nodes (taking 6).pool (taking 6).lvl
      ≡ some (q, record ((taking 6).lvl) { head = invalid_index; tail = invalid_index }))
    × Released (taking 6).pool [] q
    × ((k : ℕ) → has k (0 ∷ []) ≡ true → has k q.free_nodes ≡ true)
free_level_nodes_lem_example =
    free_level_nodes_lem (taking 6).pool (taking 6).lvl chain [] ask_queue-IsLevel.linked

erase_node-IsListed_example :
    IsListed (erase_node ltb_ℤ asks 1) []
    × ((k : ℕ) → ((erase_node ltb_ℤ asks 1).nodes k).level ≡ (asks.nodes k).level)
erase_node-IsListed_example = erase_node-IsListed ltb_ℤ asks (1 ∷ []) 1 asks-IsListed refl
