-- ===== src/PinNode/Fifo.antt =====
-- The representation invariant of a PIN node: the arrival-order links thread exactly the
-- occupied slots, each once. Every operation keeps it.
use titan_hft.Common.{
  ℕ, ◌^◌, ◌<◌, ◌≡◌, refl, true, false, List, [], ◌∷◌, ◌++◌, arith, ◌==◌, if◌then◌else◌, has,
  Distinct, erase, last_or, Seg, Seg-append_last, Seg-unlink, append-Distinct, erase-Distinct,
  has-append, has-erase, has-erase_self, last_or-append, test_bit, lowest_clear, lowest_clear_lem,
  test_bit-set_bit, test_bit-clear_bit, test_bit-zero, set_bit-lt, clear_bit-le, subst, update, sym,
  ◌∙◌, append_next, Bool-cases, inl, inr,
}
use titan_hft.Domain.{Order}
use titan_hft.PinNode.{PinNode, nil_slot, reset, full, place, splice}

-- The slots `xs`, oldest first.
pub record IsFifo (n : PinNode) (xs : List ℕ) : Type 0 where
  pub distinct : Distinct xs
  pub chain : Seg n.next_in_time n.prev_in_time nil_slot n.head_slot xs nil_slot
  pub last : n.tail_slot ≡ last_or nil_slot xs
  pub mask : n.occupancy_mask < 2 ^ 64
  pub occupied : (s : ℕ) → s < 64 → test_bit n.occupancy_mask s ≡ has s xs
  pub small : (s : ℕ) → has s xs ≡ true → s < 64

pub nil-not-mem : {n : PinNode} {xs : List ℕ} → IsFifo n xs → has nil_slot xs ≡ false
nil-not-mem {n} {xs} f = elim (Bool-cases (has nil_slot xs)) [
  | inl e ↦ absurd (omega (arith, f.small nil_slot e))
  | inr e ↦ e
]

pub reset-IsFifo : (n : PinNode) → IsFifo (reset n) []
unfolding reset
reset-IsFifo n = record {
  distinct = tt;
  chain = refl;
  last = refl;
  mask = omega arith;
  occupied = λ s h. test_bit-zero s;
  small = λ s h. cc;
}

module _ (n : PinNode) (xs : List ℕ) (f : IsFifo n xs) where
  pub free_slot :
      full n ≡ false
      → (lowest_clear 64 n.occupancy_mask < 64)
        × (has (lowest_clear 64 n.occupancy_mask) xs ≡ false)
  unfolding full
  free_slot h =
      let m = n.occupancy_mask in
      let (lt, clear) = lowest_clear_lem 64 m f.mask (ground arith) in
      (lt, sym (f.occupied _ lt) ∙ clear)

  pub place-IsFifo :
      (o : Order) (s : ℕ) → s < 64 → has s xs ≡ false → IsFifo (place n o s) (xs ++ s ∷ [])
  unfolding place
  place-IsFifo o s lt out = record {
    distinct = append-Distinct xs s f.distinct out;
    chain =
        subst
          (λ t.
            Seg (append_next n.next_in_time nil_slot t s) (update n.prev_in_time s t) nil_slot
              (if t == nil_slot then s else n.head_slot) (xs ++ s ∷ []) nil_slot)
          (sym f.last)
          (Seg-append_last n.next_in_time n.prev_in_time nil_slot n.head_slot xs s f.distinct
            (nil-not-mem f) out f.chain);
    last = sym (last_or-append nil_slot xs s);
    mask = set_bit-lt 64 n.occupancy_mask s f.mask lt;
    occupied = λ t h.
        ground
          (arith, test_bit-set_bit n.occupancy_mask s t, f.occupied t h, has-append t xs (s ∷ []));
    small = λ t h. ground (arith, f.small t, has-append t xs (s ∷ []));
  }

  pub splice-IsFifo :
      (s : ℕ)
      → has s xs ≡ true
      → IsFifo (splice n s (n.prev_in_time s) (n.next_in_time s)) (erase s xs)
  unfolding splice
  splice-IsFifo s h =
      let (chain, last) =
        Seg-unlink n.next_in_time n.prev_in_time nil_slot n.head_slot xs s n.tail_slot f.distinct
          (nil-not-mem f) h f.last f.chain in
      record {
        distinct = erase-Distinct s xs f.distinct;
        chain = chain;
        last = last;
        mask = omega (arith, clear_bit-le n.occupancy_mask s, f.mask);
        occupied = λ t lt. ground (
          arith,
          test_bit-clear_bit n.occupancy_mask s t,
          f.occupied t lt,
          has-erase s t xs,
          has-erase_self s xs f.distinct,
        );
        small = λ t e. ground (arith, f.small t, has-erase s t xs, has-erase_self s xs f.distinct);
      }
