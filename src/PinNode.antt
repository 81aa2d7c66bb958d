-- ===== src/PinNode.antt =====
-- include/titan/book/pin_node.hpp: a block of 64 order slots with an occupancy mask, threaded
-- in arrival order by two arrays of slot indices. The slot arrays are functions of the index;
-- `Fifo` shows that the code indexes them below 64 only.
pub mod Fifo
pub mod Refine
pub mod Lookup
mod Tests
use titan_hft.Common.{
  ℕ, ◌%◌, ◌-◌, ◌^◌, Bool, true, false, Option, none, some, ◌==◌, leb, if◌then◌else◌, update,
  append_next, unlink_next, unlink_prev, test_bit, set_bit, clear_bit, lowest_clear, popcount, not,
}
use titan_hft.Domain.{Order, invalid_index}

abbrev pub capacity : ℕ
capacity = 64

abbrev pub nil_slot : ℕ
nil_slot = 0xFF

pub record PinNode : Type 0 where
  pub occupancy_mask : ℕ
  pub head_slot : ℕ
  pub tail_slot : ℕ
  pub next : ℕ
  pub prev : ℕ
  pub next_in_time : ℕ → ℕ
  pub prev_in_time : ℕ → ℕ
  pub slots : ℕ → Order

-- The link arrays and the slots keep what they held.
unfoldable pub reset : PinNode → PinNode
reset n = record n {
  occupancy_mask = 0;
  head_slot = nil_slot;
  tail_slot = nil_slot;
  next = invalid_index;
  prev = invalid_index;
}

unfoldable pub full : PinNode → Bool
full n = n.occupancy_mask == 2 ^ 64 - 1

unfoldable pub empty : PinNode → Bool
empty n = n.occupancy_mask == 0

unfoldable pub count : PinNode → ℕ
count n = popcount 64 n.occupancy_mask

-- The writes into slot `s` and behind the tail of the arrival order.
unfoldable pub place : PinNode → Order → ℕ → PinNode
place n o s = record n {
  slots = update n.slots s o;
  occupancy_mask = set_bit n.occupancy_mask s;
  next_in_time = append_next n.next_in_time nil_slot n.tail_slot s;
  prev_in_time = update n.prev_in_time s n.tail_slot;
  head_slot = if n.tail_slot == nil_slot then s else n.head_slot;
  tail_slot = s;
}

-- The new node, and the slot or INVALID_INDEX. `free == 0` is the test for a full mask.
unfoldable pub insert : PinNode → Order → PinNode × ℕ
unfolding full place
insert n o =
    if full n
    then (n, invalid_index)
    else (place n o (lowest_clear 64 n.occupancy_mask), lowest_clear 64 n.occupancy_mask)

-- The writes that free slot `s`, whose neighbours in arrival order are `p` and `q`.
pub splice : PinNode → ℕ → ℕ → ℕ → PinNode
splice n s p q = record n {
  occupancy_mask = clear_bit n.occupancy_mask s;
  next_in_time = unlink_next n.next_in_time nil_slot p q;
  head_slot = if p == nil_slot then q else n.head_slot;
  prev_in_time = unlink_prev n.prev_in_time nil_slot p q;
  tail_slot = if q == nil_slot then p else n.tail_slot;
}

-- The bit of a slot. C++ leaves a shift by 64 or more undefined; as on common processors the count
-- is taken modulo 64 here.
abbrev pub slot_bit : ℕ → ℕ → Bool
slot_bit mask slot = test_bit mask (slot % 64)

unfoldable pub remove : PinNode → ℕ → PinNode × Bool
unfolding splice
remove n slot =
    if leb capacity slot
    then (n, false)
    else if not (slot_bit n.occupancy_mask slot)
    then (n, false)
    else (splice n slot (n.prev_in_time slot) (n.next_in_time slot), true)

-- `none` is the null pointer.
unfoldable pub at : PinNode → ℕ → Option Order
at n slot =
    if leb capacity slot
    then none
    else if not (slot_bit n.occupancy_mask slot)
    then none
    else some (n.slots slot)
