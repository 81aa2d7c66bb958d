-- ===== src/Book/OrderBook.antt =====
-- include/titan/book/order_book.hpp: the order book over two price indexes. The functions that
-- the source writes over either map take the index as a parameter.
use titan_hft.Common.{
  ℕ, zero, suc, ◌+◌, ◌-◌, ◌*◌, Bool, true, false, not, Option, none, some, List, [], ◌∷◌, ltb, leb,
  ◌==◌, if◌then◌else◌, update, u32, u64, pos,
}
use titan_hft.Domain.{PriceTick, Side, is_buy, Order, invalid_index}
use mathlib.Core.Option
use titan_hft.PinNode.{PinNode, insert, remove}
use titan_hft.Book.Level.{PriceLevel}
use titan_hft.Book.Index.{nil, PriceIndex, is_empty}
use titan_hft.Book.Pool.{
  Pool, set_node, clear_slot, alloc_node, ensure_tail_with_space, free_level_nodes,
}

-- An exception that leaves a function, or its result.
pub data Thrown (A : Type 0) : Type 0 where
  returned : A → Thrown A
  bad_alloc : Thrown A

module _ (P : PriceIndex) where
  open P use {Index}

  -- The iterator of the level, or `nil` for the null pointer.
  unfoldable pub find_or_create_level : Pool → Index → PriceTick → Thrown (Pool × Index × ℕ)
  find_or_create_level p m price = elim (P.try_emplace m price) [
    | none ↦ bad_alloc
    | some (m1, it, inserted) ↦
        let (q, n) = alloc_node p in
        if not inserted
        then returned (p, m1, it)
        else if n == invalid_index
        then returned (q, P.erase m1 it, nil)
        else returned (
          q,
          P.set_level m1 it (record (P.level m1 it) { price = price; head = n; tail = n }),
          it,
        )
  ]

  -- The order goes into the node and the slab, and the level's aggregates follow.
  rest_order : Pool → Index → (it : ℕ) → PriceLevel → (node_idx : ℕ) → Order → Pool × Index × Bool
  rest_order p m it l node_idx o =
      let (n, slot) = insert (p.nodes node_idx) o in
      let q = set_node p node_idx n in
      if slot == invalid_index then (q, P.set_level m it l, false) else (
        record q {
          locators = update q.locators o.id (record {
            node = node_idx;
            slot = slot;
            price = o.price;
            remaining = o.remaining;
            side = o.side;
          });
          live_count = u64 (q.live_count + 1);
        },
        P.set_level m it (record l {
          total_qty = u64 (l.total_qty + o.remaining);
          order_count = u32 (l.order_count + 1);
        }),
        true,
      )

  unfoldable pub add_impl : Pool → Index → Order → Thrown (Pool × Index × Bool)
  unfolding rest_order
  add_impl p m o = elim (find_or_create_level p m o.price) [
    | bad_alloc ↦ bad_alloc
    | returned (p1, m1, it) ↦
        let (p2, l, node_idx) = ensure_tail_with_space p1 (P.level m1 it) in
        if it == nil
        then returned (p1, m1, false)
        else if node_idx == invalid_index
        then returned (p2, P.set_level m1 it l, false)
        else returned (rest_order p2 m1 it l node_idx o)
  ]

  -- The level loses one order of `rem`, and goes when it was the last. `none` is fuel run out.
  unfoldable pub update_after_cancel : Pool → Index → PriceTick → ℕ → Option (Pool × Index)
  update_after_cancel p m price rem =
      let it = P.find m price in
      let l = P.level m it in
      let l1 = record l {
        total_qty = if leb rem l.total_qty then l.total_qty - rem else 0;
        order_count = if ltb 0 l.order_count then l.order_count - 1 else l.order_count;
      } in
      let m1 = P.set_level m it l1 in
      if it == nil
      then some (p, m)
      else if l1.order_count == 0
      then Option.map (λ (q, l2). (q, P.erase (P.set_level m1 it l2) it)) (free_level_nodes p l1)
      else some (p, m1)

module _ (B A : PriceIndex) where
  pub record Book : Type 0 where
    pub pool : Pool
    pub bids : B.Index
    pub asks : A.Index

  -- The free list of a fresh pool: 0, 1, ..., n - 1.
  count_up : ℕ → ℕ → List ℕ
  count_up zero i = []
  count_up (suc n) i = i ∷ count_up n (i + 1)

  unfoldable pub create : (ℕ → PinNode) → (max_nodes id_capacity : ℕ) → B.Index → A.Index → Book
  unfolding count_up
  create storage max_nodes id_capacity bids asks = record {
    pool = record {
      nodes = storage;
      node_count = max_nodes;
      free_nodes = count_up max_nodes 0;
      locators = λ _. record {
        node = invalid_index;
        slot = 0;
        price = pos 0;
        remaining = 0;
        side = Side.buy;
      };
      id_capacity = if id_capacity == 0 then max_nodes * 64 else id_capacity;
      live_count = 0;
    };
    bids = bids;
    asks = asks;
  }

  -- The handler of `add` turns a bad_alloc into a refusal; it is thrown before any write.
  put_bids : Book → Thrown (Pool × B.Index × Bool) → Book × Bool
  put_bids b (returned (p, m, done)) = (record b { pool = p; bids = m }, done)
  put_bids b bad_alloc = (b, false)

  put_asks : Book → Thrown (Pool × A.Index × Bool) → Book × Bool
  put_asks b (returned (p, m, done)) = (record b { pool = p; asks = m }, done)
  put_asks b bad_alloc = (b, false)

  unfoldable pub add : Book → Order → Book × Bool
  unfolding put_bids put_asks
  add b o =
      if leb b.pool.id_capacity o.id
      then (b, false)
      else if not ((b.pool.locators o.id).node == invalid_index)
      then (b, false)
      else if is_buy o.side
      then put_bids b (add_impl B b.pool b.bids o)
      else put_asks b (add_impl A b.pool b.asks o)

  -- `none` is fuel run out.
  unfoldable pub cancel : Book → ℕ → Option (Book × Bool)
  cancel b id =
      let p = b.pool in
      let loc = p.locators id in
      let (n, removed) = remove (p.nodes loc.node) loc.slot in
      let p1 = clear_slot (set_node p loc.node n) id in
      if leb p.id_capacity id
      then some (b, false)
      else if loc.node == invalid_index
      then some (b, false)
      else if leb p.node_count loc.node
      then some (record b { pool = clear_slot p id }, false)
      else if not removed
      then some (record b { pool = p1 }, false)
      else if is_buy loc.side
      then Option.map (λ (q, m). (record b { pool = q; bids = m }, true))
          (update_after_cancel B p1 b.bids loc.price loc.remaining)
      else Option.map (λ (q, m). (record b { pool = q; asks = m }, true))
          (update_after_cancel A p1 b.asks loc.price loc.remaining)

  -- `none` is the null pointer.
  unfoldable pub best_bid : Book → Option PriceLevel
  best_bid b = if is_empty B b.bids then none else some (B.level b.bids (B.begin b.bids))

  unfoldable pub best_ask : Book → Option PriceLevel
  best_ask b = if is_empty A b.asks then none else some (A.level b.asks (A.begin b.asks))
