-- ===== src/PinNode/Lookup.antt =====
-- What `at` finds in a PIN node after `insert` and `remove`.
use titan_hft.Common.{
  ℕ, ◌≡◌, refl, sym, ap, ◌∙◌, subst, inl, inr, Bool, true, false, none, some, List, [], ◌∷◌, ◌++◌,
  arith, leb, ◌==◌, ==→eq, if◌then◌else◌, Bool-cases, has, erase, has-append, has-erase,
  has-erase_self,
}
use titan_hft.Domain.{Order}
use titan_hft.PinNode.{PinNode, capacity, full, insert, place, remove, splice, at, slot_bit}
use titan_hft.PinNode.Fifo.{IsFifo}
use titan_hft.PinNode.Refine.{count_lem, Inserted, insert_refines, remove_refines, slot_bit_lem}

at_lem :
    (n : PinNode) (xs : List ℕ)
    → IsFifo n xs
    → (s : ℕ) → at n s ≡ (if has s xs then some (n.slots s) else none)
unfolding at
at_lem n xs f s = elim (Bool-cases (leb capacity s)) [
  | inl big ↦ rw big (ground (arith, f.small s))
  | inr lt ↦
      let b : slot_bit n.occupancy_mask s ≡ has s xs = slot_bit_lem n xs f s (ground arith) in
      rw (lt, b) (ground arith)
]

module _ (n : PinNode) (xs : List ℕ) (f : IsFifo n xs) where
  insert-slots :
      (o : Order)
      → full n ≡ false
      → (k : ℕ) → (insert n o).0.slots k ≡ (if k == (insert n o).1 then o else n.slots k)
  unfolding insert place
  insert-slots o e k = rw e (ground arith)

  inserted :
      (o : Order) (k : ℕ)
      → full n ≡ false
      → Inserted n xs o (insert n o).1 (insert n o).0
      → at (insert n o).0 k ≡ (if k == (insert n o).1 then some o else at n k)
  inserted o k e i =
      let s = (insert n o).1 in
      let here = at_lem (insert n o).0 (xs ++ s ∷ []) i.fifo k in
      let slots = ap some (insert-slots o e k) in
      let before = at_lem n xs f k in
      let mem = has-append k xs (s ∷ []) in
      elim (Bool-cases (k == s)) [
        | inl h ↦
            let occupied : has k (xs ++ s ∷ []) ≡ true = ground (arith, mem, h) in
            here
            ∙ ap (λ b. if b then some ((insert n o).0.slots k) else none) occupied
            ∙ slots
            ∙ ap (λ b. some (if b then o else n.slots k)) h
            ∙ sym (ap (λ b. if b then some o else at n k) h)
        | inr h ↦
            let as_before : has k (xs ++ s ∷ []) ≡ has k xs = ground (arith, mem, h) in
            here
            ∙ ap (λ b. if b then some ((insert n o).0.slots k) else none) as_before
            ∙ ap (λ z. if has k xs then z else none)
                (slots ∙ ap (λ b. some (if b then o else n.slots k)) h)
            ∙ sym before
            ∙ sym (ap (λ b. if b then some o else at n k) h)
      ]

  remove-slots : (s : ℕ) → (remove n s).0.slots ≡ n.slots
  unfolding remove splice
  remove-slots s = ground arith

  -- Without the slot `s`, where it is one, `at` finds nothing there.
  removed :
      (s k : ℕ) (m : PinNode) (ys : List ℕ)
      → IsFifo m ys
      → m.slots ≡ n.slots
      → has k ys ≡ (if k == s then false else has k xs)
      → at m k ≡ (if k == s then none else at n k)
  removed s k m ys g same e =
      let here =
        at_lem m ys g k
        ∙ ap (λ (z : ℕ → Order). if has k ys then some (z k) else none) same
        ∙ ap (λ b. if b then some (n.slots k) else none) e in
      elim (Bool-cases (k == s)) [
        | inl h ↦
            here
            ∙ ap (λ c. if (if c then false else has k xs) then some (n.slots k) else none) h
            ∙ sym (ap (λ c. if c then none else at n k) h)
        | inr h ↦
            here
            ∙ ap (λ c. if (if c then false else has k xs) then some (n.slots k) else none) h
            ∙ sym (at_lem n xs f k)
            ∙ sym (ap (λ c. if c then none else at n k) h)
      ]

  -- In a node with room, `at` finds an inserted order in the slot that `insert` returns, and in
  -- every other slot what was there before; and after a `remove` it finds nothing in that slot and
  -- in every other what was there, whether the slot was occupied, empty or out of range.
  pub lookup :
      (o : Order) (s : ℕ)
      → full n ≡ false
      → ((k : ℕ) → at (insert n o).0 k ≡ (if k == (insert n o).1 then some o else at n k))
        × ((k : ℕ) → at (remove n s).0 k ≡ (if k == s then none else at n k))
  lookup o s e = (
    λ k. elim (insert_refines n xs f o) [
      | inl (all, _) ↦ absurd (ground (arith, (count_lem n xs f).2.1 all, e))
      | inr i ↦ inserted o k e i
    ],
    λ k. elim (remove_refines n xs f s) [
      | inr (free, r) ↦
          ap (λ (q : PinNode × Bool). at q.0 k) r
          ∙ removed s k n xs f refl (elim (Bool-cases (k == s)) [
            | inl h ↦ rw h (subst (λ j. has j xs ≡ false) (sym (==→eq k s h)) free)
            | inr h ↦ rw h refl
          ])
      | inl (used, _, g, _) ↦
          removed s k (remove n s).0 (erase s xs) g (remove-slots s) (elim (Bool-cases (k == s)) [
            | inl h ↦ rw h (
                subst (λ j. has j (erase s xs) ≡ false) (sym (==→eq k s h))
                  (has-erase_self s xs f.distinct))
            | inr h ↦ rw h (has-erase s k xs (λ q. ground (arith, h, q)))
          ])
    ],
  )
