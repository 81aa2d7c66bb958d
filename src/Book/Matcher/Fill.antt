-- ===== src/Book/Matcher/Fill.antt =====
-- One round of `sweep_level`: the fill of the oldest order of a node, against the queue of the
-- node's orders.
pub mod Frame
use titan_hft.Common.{
  ℕ, ◌-◌, ◌≤◌, ◌<◌, min, ◌≡◌, sym, ap, ap₂, ◌∙◌, subst, ◌⊎◌, inl, inr, Bool, true, false, List, [],
  ◌∷◌, ◌++◌, arith, ltb, ◌==◌, Bool-cases, update, erase,
}
use titan_hft.Domain.{Order}
use titan_hft.PinNode.{PinNode, remove}
use titan_hft.PinNode.Fifo.{IsFifo}
use titan_hft.PinNode.Refine.{orders, remove_refines, map-update_of_not_mem}
use titan_hft.Book.Pool.{Pool, erase_id, note_partial_fill, set_node}
use titan_hft.Book.Matcher.Sweep.{SweepState, fill_event, fill_front, drop_maker}

nodes-erase_id : (p : Pool) (id : ℕ) → (erase_id p id).nodes ≡ p.nodes
unfolding erase_id
nodes-erase_id p id = ground arith

nodes-note_partial_fill : (p : Pool) (id r : ℕ) → (note_partial_fill p id r).nodes ≡ p.nodes
unfolding note_partial_fill
nodes-note_partial_fill p id r = ground arith

-- A write to the slots leaves the arrival order.
IsFifo-slots :
    (n : PinNode) (xs : List ℕ) (slots : ℕ → Order)
    → IsFifo n xs
    → IsFifo (record n { slots = slots }) xs
IsFifo-slots n xs slots f = record {
  distinct = f.distinct;
  chain = f.chain;
  last = f.last;
  mask = f.mask;
  occupied = f.occupied;
  small = f.small;
}

remove-head :
    (n : PinNode) (s : ℕ) (xs : List ℕ)
    → IsFifo n (s ∷ xs)
    → IsFifo (remove n s).0 xs × (orders (remove n s).0 xs ≡ orders n xs)
remove-head n s xs f =
    let same : erase s (s ∷ xs) ≡ xs = ground arith in
    elim (remove_refines n (s ∷ xs) f s) [
      | inr (out, _) ↦ absurd (ground arith)
      | inl (_, _, g, o) ↦
          subst (λ l. IsFifo (remove n s).0 l × (orders (remove n s).0 l ≡ orders n l)) same (g, o)
    ]

abbrev written : PinNode → ℕ → Order → PinNode
written n s o = record n { slots = update n.slots s o }

update_self {ℓ} : {A : Type ℓ} (g : ℕ → A) (n : ℕ) (x : A) → update g n x n ≡ x
update_self g n x = ground arith

-- A write of the order at the front.
front_written :
    (n : PinNode) (s : ℕ) (xs : List ℕ) (o : Order)
    → IsFifo n (s ∷ xs)
    → IsFifo (written n s o) (s ∷ xs) × (orders (written n s o) (s ∷ xs) ≡ o ∷ orders n xs)
front_written n s xs o f = (
  IsFifo-slots n (s ∷ xs) (update n.slots s o) f,
  ap₂ ◌∷◌ (update_self n.slots s o) (map-update_of_not_mem n.slots s o xs f.distinct.0),
)

-- What a fill of `q` makes of the taker, the events and the node's queue, whose oldest order is
-- the maker in `slot`.
pub record Filled (buy : Bool) (s : SweepState) (n slot : ℕ) (xs : List ℕ) (s' : SweepState)
    : Type 0 where
  pub taker : s'.taker ≡ record (s.taker) {
    remaining = s.taker.remaining - min s.taker.remaining ((s.pool.nodes n).slots slot).remaining;
  }
  pub event :
      let maker = (s.pool.nodes n).slots slot in
      let q = min s.taker.remaining maker.remaining in
      s'.events
      ≡ s.events
        ++ fill_event (record maker { remaining = maker.remaining - q }) s'.taker buy q ∷ []
  pub queue :
      let node = s.pool.nodes n in
      let node' = s'.pool.nodes n in
      let maker = node.slots slot in
      ((maker.remaining ≤ s.taker.remaining) × IsFifo node' xs × (orders node' xs ≡ orders node xs))
      ⊎ ((s.taker.remaining < maker.remaining)
          × IsFifo node' (slot ∷ xs)
          × (orders node' (slot ∷ xs)
              ≡ record maker { remaining = maker.remaining - s.taker.remaining } ∷ orders node xs))

-- A round with a taker and a maker that both have something left fills the oldest order of the
-- node, by the smaller of the two quantities, and emits that one fill: a maker that is used up
-- leaves the queue, any other stays at its front with the rest, and no other order changes.
pub fill_front_refines :
    (buy : Bool) (s : SweepState) (n slot : ℕ) (xs : List ℕ)
    → IsFifo (s.pool.nodes n) (slot ∷ xs)
    → 0 < s.taker.remaining
    → 0 < ((s.pool.nodes n).slots slot).remaining
    → Filled buy s n slot xs (fill_front buy s n slot)
unfolding fill_front drop_maker
fill_front_refines buy s n slot xs f h k =
    let node = s.pool.nodes n in
    let maker = node.slots slot in
    let t = s.taker.remaining in
    let m = maker.remaining in
    let live : (m == 0) ≡ false = ground arith in
    elim (Bool-cases (ltb t m)) [
      | inl e ↦
          let left : (m - t == 0) ≡ false = ground arith in
          let maker1 : Order = record maker { remaining = m - t } in
          let q : t ≡ min t m = ground arith in
          let p1 = set_node s.pool n (written node slot maker1) in
          let (g, o) =
            subst (λ z. IsFifo z (slot ∷ xs) × (orders z (slot ∷ xs) ≡ maker1 ∷ orders node xs))
              (sym (
                ap (λ g. g n) (nodes-note_partial_fill p1 maker.id (m - t))
                ∙ update_self (s.pool.nodes) n _))
              (front_written node slot xs maker1 f) in
          rw (live, e, left)
            (record {
              taker = ap (λ k. record (s.taker) { remaining = t - k }) q;
              event =
                  ap
                    (λ k.
                      s.events
                      ++ fill_event (record maker { remaining = m - k })
                          (record (s.taker) { remaining = t - t }) buy k
                        ∷ [])
                    q;
              queue = inr (ground arith, g, o);
            })
      | inr e ↦
          let used : (m - m == 0) ≡ true = ground arith in
          let maker1 : Order = record maker { remaining = m - m } in
          let q : m ≡ min t m = ground arith in
          let p1 = set_node s.pool n (written node slot maker1) in
          let at : (erase_id p1 maker.id).nodes n ≡ written node slot maker1 =
            ap (λ g. g n) (nodes-erase_id p1 maker.id) ∙ update_self (s.pool.nodes) n _ in
          let (g, o) =
            remove-head (written node slot maker1) slot xs (IsFifo-slots node (slot ∷ xs) _ f) in
          let (g', o') =
            subst (λ z. IsFifo z xs × (orders z xs ≡ orders node xs))
              (sym
                (update_self ((erase_id p1 maker.id).nodes) n _ ∙ ap (λ z. (remove z slot).0) at))
              (g, o ∙ map-update_of_not_mem node.slots slot maker1 xs f.distinct.0) in
          rw (live, e, used)
            (record {
              taker = ap (λ k. record (s.taker) { remaining = t - k }) q;
              event =
                  ap
                    (λ k.
                      s.events
                      ++ fill_event (record maker { remaining = m - k })
                          (record (s.taker) { remaining = t - m }) buy k
                        ∷ [])
                    q;
              queue = inl (ground arith, g', o');
            })
    ]
