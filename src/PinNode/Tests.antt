-- ===== src/PinNode/Tests.antt =====
-- A node with two resting orders, and the theorems at it.
use titan_hft.Common.{
  ℕ, ◌≡◌, refl, ◌↔◌, ◌⊎◌, inl, inr, true, false, none, some, List, [], ◌∷◌, arith, ◌==◌,
  if◌then◌else◌, Bool-cases, length, pos,
}
use titan_hft.Domain.{Order, Side, OrderType, invalid_index}
use titan_hft.PinNode.{PinNode, reset, count, empty, full, insert, remove, place, at}
use titan_hft.PinNode.Fifo.{IsFifo, reset-IsFifo, place-IsFifo}
use titan_hft.PinNode.Refine.{orders, count_lem, Inserted, insert_refines, remove_refines}
use titan_hft.PinNode.Lookup.{lookup}

abbrev order : ℕ → Order
order id = record {
  id = id;
  seq = 0;
  price = pos 100;
  quantity = 5;
  remaining = 5;
  side = Side.buy;
  type = OrderType.limit;
}

abbrev blank : PinNode
blank = record {
  occupancy_mask = 7;
  head_slot = 1;
  tail_slot = 2;
  next = 3;
  prev = 4;
  next_in_time = λ i. i;
  prev_in_time = λ i. i;
  slots = λ i. order 0;
}

abbrev one : PinNode
one = place (reset blank) (order 1) 0

abbrev two : PinNode
two = place one (order 2) 1

abbrev taken : List ℕ
taken = 0 ∷ 1 ∷ []

two-IsFifo : IsFifo two (0 ∷ 1 ∷ [])
two-IsFifo =
    let f = place-IsFifo (reset blank) [] (reset-IsFifo blank) (order 1) 0 (omega arith) refl in
    place-IsFifo one (0 ∷ []) f (order 2) 1 (omega arith) refl

count_lem_example :
    (count two ≡ 2)
    × ((empty two ≡ true) ↔ (length taken ≡ 0))
    × ((full two ≡ true) ↔ (length taken ≡ 64))
count_lem_example = count_lem two (0 ∷ 1 ∷ []) two-IsFifo

insert_refines_example :
    ((length taken ≡ 64) × (insert two (order 3) ≡ (two, invalid_index)))
    ⊎ Inserted two (0 ∷ 1 ∷ []) (order 3) (insert two (order 3)).1 (insert two (order 3)).0
insert_refines_example = insert_refines two (0 ∷ 1 ∷ []) two-IsFifo (order 3)

remove_refines_example :
    ((true ≡ true)
      × ((remove two 0).1 ≡ true)
      × IsFifo (remove two 0).0 (1 ∷ [])
      × (orders (remove two 0).0 (1 ∷ []) ≡ orders two (1 ∷ [])))
    ⊎ ((true ≡ false) × (remove two 0 ≡ (two, false)))
remove_refines_example = remove_refines two (0 ∷ 1 ∷ []) two-IsFifo 0

two-room : full two ≡ false
two-room = elim (Bool-cases (full two)) [
  | inr e ↦ e
  | inl e ↦ absurd (omega (arith, (count_lem two (0 ∷ 1 ∷ []) two-IsFifo).2.0 e))
]

lookup_example :
    ((k : ℕ)
      → at (insert two (order 3)).0 k
        ≡ (if k == (insert two (order 3)).1 then some (order 3) else at two k))
    × ((k : ℕ) → at (remove two 0).0 k ≡ (if k == 0 then none else at two k))
lookup_example = lookup two (0 ∷ 1 ∷ []) two-IsFifo (order 3) 0 two-room
