-- ===== src/Book/Matcher/Fill/Frame.antt =====
-- What a round of the sweep leaves as it was: the rest of the pool, of the level and of the node.
use titan_hft.Common.{
  ℕ, ◌+◌, ◌-◌, ◌^◌, ◌≤◌, ◌<◌, min, ◌≡◌, refl, ap, ◌∙◌, inl, inr, Bool, true, false, not, ◌&&◌,
  arith, ltb, leb, ◌==◌, if◌then◌else◌, Bool-cases, update, u32,
}
use titan_hft.Domain.{Order}
use titan_hft.PinNode.{PinNode, remove}
use titan_hft.Book.Pool.{Pool, erase_id, note_partial_fill, set_node}
use titan_hft.Book.Matcher.Sweep.{SweepState, fill_front, drop_maker}

pub record Untouched (s : SweepState) (n : ℕ) (s' : SweepState) : Type 0 where
  pub free : s'.pool.free_nodes ≡ s.pool.free_nodes
  pub node_count : s'.pool.node_count ≡ s.pool.node_count
  pub id_capacity : s'.pool.id_capacity ≡ s.pool.id_capacity
  pub price : s'.lvl.price ≡ s.lvl.price
  pub head : s'.lvl.head ≡ s.lvl.head
  pub tail : s'.lvl.tail ≡ s.lvl.tail
  pub next : (s'.pool.nodes n).next ≡ (s.pool.nodes n).next
  pub frame : (k : ℕ) → (k == n) ≡ false → s'.pool.nodes k ≡ s.pool.nodes k
  pub trades : s'.result ≡ record (s.result) { trades = u32 (s.result.trades + 1) }

-- The counters after a maker of `m` was filled from a taker of `t`.
pub record Counted (s : SweepState) (t m : ℕ) (s' : SweepState) : Type 0 where
  pub total_qty : s'.lvl.total_qty ≡ s.lvl.total_qty - min t m
  pub order_count :
      s'.lvl.order_count ≡ (if leb m t then s.lvl.order_count - 1 else s.lvl.order_count)
  pub live : s.pool.live_count ≤ s'.pool.live_count + (if leb m t then 1 else 0)
  pub bounded : s'.pool.live_count < 2 ^ 64

next-remove : (n : PinNode) (s : ℕ) → (remove n s).0.next ≡ n.next
unfolding remove
next-remove n s = ground arith

written_next : (g : ℕ → PinNode) (n : ℕ) (x : PinNode) → (update g n x n).next ≡ x.next
written_next g n x = ground arith

record SamePool (p q : Pool) : Type 0 where
  nodes : q.nodes ≡ p.nodes
  free : q.free_nodes ≡ p.free_nodes
  node_count : q.node_count ≡ p.node_count
  id_capacity : q.id_capacity ≡ p.id_capacity
  live : p.live_count ≤ q.live_count + 1
  bounded : q.live_count < 2 ^ 64

erase_id_lem : (p : Pool) (id : ℕ) → p.live_count < 2 ^ 64 → SamePool p (erase_id p id)
unfolding erase_id
erase_id_lem p id w =
    elim (Bool-cases (ltb id p.id_capacity && not ((p.locators id).node == 0xFFFFFFFF))) [
      | inl e ↦ rw e (record {
        nodes = refl;
        free = refl;
        node_count = refl;
        id_capacity = refl;
        live = omega arith;
        bounded = omega arith;
      })
      | inr e ↦ rw e (record {
        nodes = refl;
        free = refl;
        node_count = refl;
        id_capacity = refl;
        live = omega arith;
        bounded = omega arith;
      })
    ]

note_partial_fill_lem :
    (p : Pool) (id r : ℕ)
    → p.live_count < 2 ^ 64
    → SamePool p (note_partial_fill p id r) × ((note_partial_fill p id r).live_count ≡ p.live_count)
unfolding note_partial_fill
note_partial_fill_lem p id r w = elim (Bool-cases (ltb id p.id_capacity)) [
  | inl e ↦ rw e (
    record {
      nodes = refl;
      free = refl;
      node_count = refl;
      id_capacity = refl;
      live = omega arith;
      bounded = omega arith;
    },
    refl,
  )
  | inr e ↦ rw e (
    record {
      nodes = refl;
      free = refl;
      node_count = refl;
      id_capacity = refl;
      live = omega arith;
      bounded = omega arith;
    },
    refl,
  )
]

module _ (buy : Bool) (s : SweepState) (n slot : ℕ) where
  pub fill_front_keeps :
      s.pool.live_count < 2 ^ 64
      → 0 < s.taker.remaining
      → 0 < ((s.pool.nodes n).slots slot).remaining
      → Untouched s n (fill_front buy s n slot)
        × Counted s s.taker.remaining
            ((s.pool.nodes n).slots slot).remaining
            (fill_front buy s n slot)
  unfolding fill_front drop_maker
  fill_front_keeps w h k =
      let node = s.pool.nodes n in
      let maker = node.slots slot in
      let t = s.taker.remaining in
      let m = maker.remaining in
      let live : (m == 0) ≡ false = ground arith in
      elim (Bool-cases (ltb t m)) [
        | inl e ↦
            let left : (m - t == 0) ≡ false = ground arith in
            let p1 = set_node s.pool n (record node {
              slots = update node.slots slot (record maker { remaining = m - t });
            }) in
            let (u, l) = note_partial_fill_lem p1 maker.id (m - t) w in
            let nodes = λ (k : ℕ). ap (λ f. f k) u.nodes in
            rw (live, e, left)
              (
                record {
                  free = u.free;
                  node_count = u.node_count;
                  id_capacity = u.id_capacity;
                  price = refl;
                  head = refl;
                  tail = refl;
                  next = ap (λ (b : PinNode). b.next) (nodes n) ∙ ground arith;
                  frame = λ k d. nodes k ∙ ground arith;
                  trades = refl;
                },
                record {
                  total_qty = ground arith;
                  order_count = ground arith;
                  live = omega (arith, l);
                  bounded = u.bounded;
                },
              )
        | inr e ↦
            let used : (m - m == 0) ≡ true = ground arith in
            let maker1 : Order = record maker { remaining = m - m } in
            let p1 = set_node s.pool n (record node { slots = update node.slots slot maker1 }) in
            let u = erase_id_lem p1 maker.id w in
            let nodes = λ (k : ℕ). ap (λ f. f k) u.nodes in
            rw (live, e, used)
              (
                record {
                  free = u.free;
                  node_count = u.node_count;
                  id_capacity = u.id_capacity;
                  price = refl;
                  head = refl;
                  tail = refl;
                  next =
                      written_next ((erase_id p1 maker.id).nodes) n
                        (remove ((erase_id p1 maker.id).nodes n) slot).0
                      ∙ next-remove ((erase_id p1 maker.id).nodes n) slot
                      ∙ ap (λ (b : PinNode). b.next) (nodes n)
                      ∙ ground arith;
                  frame = λ k d. ground (arith, nodes k);
                  trades = refl;
                },
                record {
                  total_qty = ground arith;
                  order_count = ground arith;
                  live = ground (arith, u.live);
                  bounded = u.bounded;
                },
              )
      ]
