-- ===== src/Book/Pool.antt =====
-- include/titan/book/order_book.hpp: the storage behind the price index, that is the PIN node
-- pool with its free list and the slab from order ids to resting orders. Arrays are functions
-- of the index beside their size; the free list has the back of the vector as its head.
use titan_hft.Common.{
  ℕ, zero, suc, ◌+◌, not, ◌&&◌, Option, none, some, List, [], ◌∷◌, ltb, leb, ◌==◌, if◌then◌else◌,
  update, sub64,
}
use titan_hft.Domain.{PriceTick, Side, invalid_index}
use mathlib.Core.Option
use titan_hft.PinNode.{PinNode, full, reset}
use titan_hft.Book.Level.{PriceLevel}

pub record SlabEntry : Type 0 where
  pub node : ℕ
  pub slot : ℕ
  pub price : PriceTick
  pub remaining : ℕ
  pub side : Side

pub record Pool : Type 0 where
  pub nodes : ℕ → PinNode
  pub node_count : ℕ  -- nodes_.size()
  pub free_nodes : List ℕ
  pub locators : ℕ → SlabEntry
  pub id_capacity : ℕ  -- locators_.size()
  pub live_count : ℕ

abbrev pub set_node : Pool → ℕ → PinNode → Pool
set_node p i n = record p { nodes = update p.nodes i n }

-- `live_count_` is a `size_t`.
abbrev pub decrement : ℕ → ℕ
decrement n = sub64 n 1

unfoldable pub clear_slot : Pool → ℕ → Pool
clear_slot p id = record p {
  locators = update p.locators id (record (p.locators id) { node = invalid_index });
  live_count = decrement p.live_count;
}

unfoldable pub erase_id : Pool → ℕ → Pool
unfolding clear_slot
erase_id p id =
    if ltb id p.id_capacity && not ((p.locators id).node == invalid_index)
    then clear_slot p id
    else p

unfoldable pub note_partial_fill : Pool → ℕ → ℕ → Pool
note_partial_fill p id remaining =
    if ltb id p.id_capacity
    then record p {
      locators = update p.locators id (record (p.locators id) { remaining = remaining });
    }
    else p

-- INVALID_INDEX if the pool is exhausted.
unfoldable pub alloc_node : Pool → Pool × ℕ
alloc_node p = elim p.free_nodes [
  | [] ↦ (p, invalid_index)
  | i ∷ rest ↦ (set_node (record p { free_nodes = rest }) i (reset (p.nodes i)), i)
]

unfoldable pub free_node : Pool → ℕ → Pool
free_node p i = if leb p.node_count i then p else record p { free_nodes = i ∷ p.free_nodes }

-- The pool and the level after the append of a node if the tail is full; INVALID_INDEX if the
-- pool is exhausted.
unfoldable pub ensure_tail_with_space : Pool → PriceLevel → Pool × PriceLevel × ℕ
unfolding alloc_node
ensure_tail_with_space p l =
    let (q, n) = alloc_node p in
    if l.tail == invalid_index
    then (if n == invalid_index
        then (q, l, invalid_index)
        else (q, record l { head = n; tail = n }, n))
    else if not (full (p.nodes l.tail))
    then (p, l, l.tail)
    else if n == invalid_index
    then (q, l, invalid_index)
    else let q1 = set_node q n (record (q.nodes n) { prev = l.tail }) in
      let q2 = set_node q1 l.tail (record (q1.nodes l.tail) { next = n }) in
      (q2, record l { tail = n }, n)

-- The loop of `free_level_nodes`, on fuel: `none` means that the fuel ran out.
unfoldable pub free_chain : ℕ → Pool → ℕ → Option Pool
free_chain zero p n = none
free_chain (suc fuel) p n =
    let next = if ltb n p.node_count then (p.nodes n).next else invalid_index in
    let rest = free_chain fuel (free_node p n) next in if n == invalid_index then some p else rest

-- A chain visits each node of the pool at most once.
unfoldable pub free_level_nodes : Pool → PriceLevel → Option (Pool × PriceLevel)
unfolding free_chain free_node
free_level_nodes p l =
    Option.map (λ q. (q, record l { head = invalid_index; tail = invalid_index }))
      (free_chain (p.node_count + 1) p l.head)
