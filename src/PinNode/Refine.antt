-- ===== src/PinNode/Refine.antt =====
-- A PIN node is a bounded FIFO of at most 64 orders: what insert, remove and count do to the
-- orders in arrival order, whatever slots they lie in.
use titan_hft.Common.{
  ℕ, ◌%◌, ◌<◌, ◌≡◌, ◌≢◌, refl, sym, ap, ap₂, ◌∙◌, ◌↔◌, ◌⊎◌, inl, inr, true, false, List, [], ◌∷◌,
  ◌++◌, map, map-append, arith, leb, ◌==◌, ==→eq, Bool-cases, update, length, has, Distinct, erase,
  test_bit, clear_bit, lowest_clear, popcount, test_bit-clear_bit, test_bit-zero, popcount-le,
  popcount-none, popcount-clear_bit, popcount-full_iff, popcount-eq-zero,
}
use titan_hft.Domain.{Order, invalid_index}
use titan_hft.PinNode.{
  PinNode, capacity, full, empty, count, insert, place, remove, splice, slot_bit,
}
use titan_hft.PinNode.Fifo.{IsFifo, free_slot, place-IsFifo, splice-IsFifo}

-- The orders of the slots `xs`.
abbrev pub orders : PinNode → List ℕ → List Order
orders n xs = map n.slots xs

popcount-length :
    (m : ℕ) (xs : List ℕ)
    → Distinct xs
    → ((s : ℕ) → s < 64 → test_bit m s ≡ has s xs)
    → ((s : ℕ) → has s xs ≡ true → s < 64)
    → popcount 64 m ≡ length xs
popcount-length m [] d occ small = popcount-none 64 m occ
popcount-length m (x ∷ xs) d occ small =
    let lt : x < 64 = small x (ground arith) in
    let hit : test_bit m x ≡ true = occ x lt ∙ ground arith in
    let rest =
      popcount-length (clear_bit m x) xs d.1
        (λ s h. elim (Bool-cases (s == x)) [
          | inl e ↦ rw (test_bit-clear_bit m x s, e) (rw (==→eq s x e) (sym d.0))
          | inr e ↦ rw (test_bit-clear_bit m x s, e) (ground (arith, occ s h))
        ])
        (λ s h. small s (ground arith)) in
    omega (arith, popcount-clear_bit 64 m x lt hit, rest)

-- `count` is the number of resting orders, `empty` and `full` say when it is 0 and 64.
pub count_lem :
    (n : PinNode) (xs : List ℕ)
    → IsFifo n xs
    → (count n ≡ length xs)
      × ((empty n ≡ true) ↔ (length xs ≡ 0))
      × ((full n ≡ true) ↔ (length xs ≡ 64))
unfolding count empty full
count_lem n xs f =
    let len = popcount-length n.occupancy_mask xs f.distinct f.occupied f.small in
    let iff = popcount-full_iff 64 n.occupancy_mask f.mask in
    let zero_lem = popcount-eq-zero 64 n.occupancy_mask f.mask in
    let none_lem = λ (e : n.occupancy_mask ≡ 0).
      ap (popcount 64) e ∙ popcount-none 64 0 (λ i l. test_bit-zero i) in
    (
      len,
      (λ e. omega (arith, none_lem (==→eq _ _ e), len), λ e. ground (arith, zero_lem (len ∙ e))),
      (λ e. omega (arith, len, iff.1 (ground arith)), λ e. ground (arith, iff.0 (len ∙ e))),
    )

pub map-update_of_not_mem :
    (g : ℕ → Order) (s : ℕ) (o : Order) (xs : List ℕ)
    → has s xs ≡ false
    → map (update g s o) xs ≡ map g xs
map-update_of_not_mem g s o [] h = refl
map-update_of_not_mem g s o (x ∷ xs) h = ground (arith, map-update_of_not_mem g s o xs)

-- What `insert` returns for the order `o`, from a node that holds the slots `xs`.
pub record Inserted (n : PinNode) (xs : List ℕ) (o : Order) (s : ℕ) (n' : PinNode) : Type 0 where
  pub room : length xs < 64
  pub bound : s < 64
  pub free : has s xs ≡ false
  pub fifo : IsFifo n' (xs ++ s ∷ [])
  pub appended : orders n' (xs ++ s ∷ []) ≡ orders n xs ++ o ∷ []
  pub same_next : n'.next ≡ n.next
  pub same_prev : n'.prev ≡ n.prev

length-lt-64 : (n : PinNode) (xs : List ℕ) → IsFifo n xs → full n ≡ false → length xs < 64
length-lt-64 n xs f e =
    let (len, _, iff) = count_lem n xs f in
    let le = popcount-length n.occupancy_mask xs f.distinct f.occupied f.small in
    let ne : length xs ≢ 64 = λ h. ground (arith, iff.1 h) in
    omega (arith, le, popcount-le 64 n.occupancy_mask, ne)

module _ (n : PinNode) (xs : List ℕ) (f : IsFifo n xs) where
  -- `insert` into a node that is not full picks a free slot below 64 and appends the order to the
  -- orders in time, leaving the links to other nodes; into a full node it changes nothing and
  -- returns INVALID_INDEX.
  pub insert_refines :
      (o : Order)
      → ((length xs ≡ 64) × (insert n o ≡ (n, invalid_index)))
        ⊎ Inserted n xs o (insert n o).1 (insert n o).0
  unfolding insert place
  insert_refines o = elim (Bool-cases (full n)) [
    | inl e ↦ inl ((count_lem n xs f).2.0 e, rw e refl)
    | inr e ↦
        let s = lowest_clear 64 n.occupancy_mask in
        let (bound, out) = free_slot n xs f e in
        inr (
          rw e (record {
            room = ground (arith, length-lt-64 n xs f e);
            bound = bound;
            free = out;
            fifo = place-IsFifo n xs f o s bound out;
            appended =
                map-append (update n.slots s o) xs (s ∷ [])
                ∙ ap₂ ◌++◌ (map-update_of_not_mem n.slots s o xs out) (ground arith);
            same_next = refl;
            same_prev = refl;
          }))
  ]

  -- The bit of a slot in range tells whether it is occupied.
  pub slot_bit_lem : (s : ℕ) → s < 64 → slot_bit n.occupancy_mask s ≡ has s xs
  slot_bit_lem s lt =
      let in_range : s % 64 ≡ s = omega (arith, lt) in
      ap (test_bit n.occupancy_mask) in_range ∙ f.occupied s lt

  remove-hit :
      (s : ℕ)
      → leb capacity s ≡ false
      → slot_bit n.occupancy_mask s ≡ true
      → remove n s ≡ (splice n s (n.prev_in_time s) (n.next_in_time s), true)
  unfolding remove
  remove-hit s lt hit = rw (lt, hit) refl

  -- `remove` of an occupied slot takes that order out, keeps the others in their order of arrival
  -- and leaves every slot's contents; of any other slot, in range or not, it changes nothing.
  pub remove_refines :
      (s : ℕ)
      → ((has s xs ≡ true)
          × ((remove n s).1 ≡ true)
          × IsFifo (remove n s).0 (erase s xs)
          × (orders (remove n s).0 (erase s xs) ≡ orders n (erase s xs)))
        ⊎ ((has s xs ≡ false) × (remove n s ≡ (n, false)))
  unfolding remove
  remove_refines s = elim (Bool-cases (has s xs)) [
    | inl e ↦
        let hit = remove-hit s (ground (arith, f.small s e)) (slot_bit_lem s (f.small s e) ∙ e) in
        inl (rw hit (e, refl, splice-IsFifo n xs f s e, refl))
    | inr e ↦ elim (Bool-cases (leb capacity s)) [
      | inl big ↦ rw big (inr (e, refl))
      | inr lt ↦
          let miss : slot_bit n.occupancy_mask s ≡ false = slot_bit_lem s (ground arith) ∙ e in
          inr (e, rw (lt, miss) refl)
    ]
  ]
