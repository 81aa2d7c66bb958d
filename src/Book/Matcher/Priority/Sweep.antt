-- ===== src/Book/Matcher/Priority/Sweep.antt =====
-- `sweep_level` refines price-time priority at one price, and its fuel is enough.
use titan_hft.Common.{
  ℕ, zero, suc, ◌^◌, ◌<◌, ◌≡◌, refl, ap, ◌∙◌, subst, inl, inr, Bool, true, false, Option, none,
  some, List, [], ◌∷◌, arith, ◌==◌, ==→eq, eq_refl, Bool-cases, length, has,
}
use titan_hft.Domain.{Order}
use titan_hft.PinNode.{PinNode, nil_slot}
use titan_hft.PinNode.Fifo.{IsFifo}
use titan_hft.Book.Level.{PriceLevel}
use titan_hft.Book.Pool.{Pool}
use titan_hft.Book.Queue.{Chain, ids}
use titan_hft.Book.Queue.Front.{SameElse, IsFront, Fronted, front_node_lem}
use titan_hft.Book.Matcher.Sweep.{SweepState, fill_front, sweep_level, front_node}
use titan_hft.Book.Matcher.Priority.Swept.{Swept, idle, used_up, cut_short, fronted, dry}
use titan_hft.Book.Matcher.Priority.Round.{IsLevel, round_lem}

-- The sweep ends, and well.
pub record Sweeps (buy : Bool) (s : SweepState) (ns : Chain) (others : List ℕ) (os : List Order)
    (r : Option SweepState) : Type 0 where
  pub state : SweepState
  pub nodes : Chain
  pub returned : r ≡ some state
  pub swept : Swept buy s ns others os state nodes

-- The level after `front_node`.
front_node-IsLevel :
    (p : Pool) (l : PriceLevel) (ns : Chain) (others : List ℕ) (os : List Order)
    (r : Option (Pool × PriceLevel × Option ℕ))
    → IsLevel p l ns others os
    → (f : Fronted p l ns others r) → IsLevel f.pool f.level f.rest others os
front_node-IsLevel p l ns others os r v f = record {
  linked = f.linked;
  holds = f.kept ∙ v.holds;
  counted = f.same.order_count ∙ v.counted;
  summed = f.same.total_qty ∙ v.summed;
  live = v.live;
}

stopped :
    (fuel : ℕ) (buy : Bool) (s : SweepState)
    → 0 < fuel
    → s.taker.remaining ≡ 0
    → sweep_level fuel buy s ≡ some s
unfolding sweep_level
stopped zero buy s h e = absurd (omega arith)
stopped (suc fuel) buy s h e =
    let none_left : (s.taker.remaining == 0) ≡ true = rw e refl in rw (sweep_level, none_left) refl

-- The ways through a round of `sweep_level`.
module _ (fuel : ℕ) (buy : Bool) (s : SweepState) (p : Pool) (l : PriceLevel) where
  sweep_empty :
      (s.taker.remaining == 0) ≡ false
      → front_node s.pool s.lvl ≡ some (p, l, none)
      → sweep_level (suc fuel) buy s ≡ some (record s { pool = p; lvl = l })
  unfolding sweep_level
  sweep_empty e f = rw (sweep_level, e, f) refl

  sweep_round :
      (n x : ℕ)
      → (s.taker.remaining == 0) ≡ false
      → front_node s.pool s.lvl ≡ some (p, l, some n)
      → (p.nodes n).head_slot ≡ x
      → x < 64
      → sweep_level (suc fuel) buy s
        ≡ sweep_level fuel buy (fill_front buy (record s { pool = p; lvl = l }) n x)
  unfolding sweep_level
  sweep_round n x e f g h =
      let first : (x == nil_slot) ≡ false = ground arith in rw (sweep_level, e, f, g, first) refl

head-bounded :
    (n : PinNode) (x : ℕ) (xs : List ℕ) → IsFifo n (x ∷ xs) → (n.head_slot ≡ x) × (x < 64)
head-bounded n x xs f = (f.chain.0, f.small x (ground (arith, eq_refl x)))

-- A round at the oldest order of the level, given the sweep of what is left.
module _ (fuel : ℕ) (buy : Bool) (s : SweepState) (n x : ℕ) (xs : List ℕ) (rest : Chain)
    (others : List ℕ) (o : Order) (os : List Order) where
  fill_front-Sweeps :
      length os < fuel
      → s.pool.live_count < 2 ^ 64
      → 0 < s.taker.remaining
      → IsLevel s.pool s.lvl ((n, x ∷ xs) ∷ rest) others (o ∷ os)
      → ((m : SweepState)
          → m.pool.live_count < 2 ^ 64
          → IsLevel m.pool m.lvl ((n, xs) ∷ rest) others os
          → Sweeps buy m ((n, xs) ∷ rest) others os (sweep_level fuel buy m))
      → Sweeps buy s
          ((n, x ∷ xs) ∷ rest)
          others
          (o ∷ os)
          (sweep_level fuel buy (fill_front buy s n x))
  fill_front-Sweeps h w k v on =
      let m = fill_front buy s n x in
      elim (round_lem buy s n x xs rest others o os v w k) [
        | inl (e, r) ↦
            let z = on m r.bounded r.level in
            record {
              state = z.state;
              nodes = z.nodes;
              returned = z.returned;
              swept = used_up buy s n x xs rest others o os m z.state z.nodes k e r z.swept;
            }
        | inr (e, r) ↦ record {
          state = m;
          nodes = (n, x ∷ xs) ∷ rest;
          returned =
              stopped fuel buy m (omega arith)
                (omega (arith, ap (λ (t : Order). t.remaining) r.taker));
          swept = cut_short buy s n x xs rest others o os m k e r;
        }
      ]

-- What is left to do once `front_node` has returned.
module _ (fuel : ℕ) (buy : Bool) (s : SweepState) (ns : Chain) (others : List ℕ) (p : Pool)
    (l : PriceLevel) where
  ends :
      (os : List Order)
      → s.pool.live_count < 2 ^ 64
      → 0 < s.taker.remaining
      → front_node s.pool s.lvl ≡ some (p, l, none)
      → SameElse s.pool s.lvl ns p l
      → IsLevel p l [] others os
      → Sweeps buy s ns others os (sweep_level (suc fuel) buy s)
  ends [] w k e same v = record {
    state = record s { pool = p; lvl = l };
    nodes = [];
    returned = sweep_empty fuel buy s p l (ground arith) e;
    swept =
        fronted buy s ns others [] p l [] (record s { pool = p; lvl = l }) [] same (λ k h. refl)
          (dry buy (record s { pool = p; lvl = l }) [] others (omega (arith, same.live_count)) v);
  }
  ends (o ∷ os) w k e same v = absurd (omega (arith, ap length v.holds))

  goes_on :
      (n x : ℕ) (xs : List ℕ) (rest : Chain) (os : List Order)
      → length os < suc fuel
      → s.pool.live_count < 2 ^ 64
      → 0 < s.taker.remaining
      → front_node s.pool s.lvl ≡ some (p, l, some n)
      → SameElse s.pool s.lvl ns p l
      → ((k : ℕ) → has k (ids ns) ≡ false → has k (ids ((n, x ∷ xs) ∷ rest)) ≡ false)
      → IsLevel p l ((n, x ∷ xs) ∷ rest) others os
      → ((m : SweepState) (ns' : Chain) (os' : List Order)
          → length os' < fuel
          → m.pool.live_count < 2 ^ 64
          → IsLevel m.pool m.lvl ns' others os'
          → Sweeps buy m ns' others os' (sweep_level fuel buy m))
      → Sweeps buy s ns others os (sweep_level (suc fuel) buy s)
  goes_on n x xs rest [] h w k e same d v on = absurd (omega (arith, ap length v.holds))
  goes_on n x xs rest (o ∷ os) h w k e same d v on =
      let s1 = record s { pool = p; lvl = l } in
      let (first, lt) = head-bounded (p.nodes n) x xs v.linked.chain.1 in
      let z =
        fill_front-Sweeps fuel buy s1 n x xs rest others o os (omega arith)
          (omega (arith, same.live_count)) k v
          (λ m b u. on m ((n, xs) ∷ rest) os (omega arith) b u) in
      record {
        state = z.state;
        nodes = z.nodes;
        returned = sweep_round fuel buy s p l n x (ground arith) e first lt ∙ z.returned;
        swept =
            fronted buy s ns others (o ∷ os) p l ((n, x ∷ xs) ∷ rest) z.state z.nodes same d
              z.swept;
      }

  after_front :
      (node : Option ℕ) (rest : Chain) (os : List Order)
      → length os < suc fuel
      → s.pool.live_count < 2 ^ 64
      → 0 < s.taker.remaining
      → front_node s.pool s.lvl ≡ some (p, l, node)
      → SameElse s.pool s.lvl ns p l
      → ((k : ℕ) → has k (ids ns) ≡ false → has k (ids rest) ≡ false)
      → IsFront node rest
      → IsLevel p l rest others os
      → ((m : SweepState) (ns' : Chain) (os' : List Order)
          → length os' < fuel
          → m.pool.live_count < 2 ^ 64
          → IsLevel m.pool m.lvl ns' others os'
          → Sweeps buy m ns' others os' (sweep_level fuel buy m))
      → Sweeps buy s ns others os (sweep_level (suc fuel) buy s)
  after_front none rest os h w k e same d f v on =
      ends os w k e same (subst (λ r. IsLevel p l r others os) f v)
  after_front (some n) rest os h w k e same d (x, xs, tl, f) v on =
      goes_on n x xs tl os h w k e same (λ j b. subst (λ r. has j (ids r) ≡ false) f (d j b))
        (subst (λ r. IsLevel p l r others os) f v) on

-- With more fuel than the level has orders, sweep_level returns, on a well-formed level in a pool
-- whose count is below 2^64: it fills the orders of the level by arrival, each in full but for
-- the last, until the taker or the level is used up, emits those fills and no others, and leaves
-- a well-formed level with what is left, the other nodes as they were.
pub sweep_level_total :
    (fuel : ℕ) (buy : Bool) (s : SweepState) (ns : Chain) (others : List ℕ) (os : List Order)
    → length os < fuel
    → s.pool.live_count < 2 ^ 64
    → IsLevel s.pool s.lvl ns others os
    → Sweeps buy s ns others os (sweep_level fuel buy s)
sweep_level_total zero buy s ns others os h w v = absurd (omega arith)
sweep_level_total (suc fuel) buy s ns others os h w v = elim (Bool-cases (s.taker.remaining == 0)) [
  | inl e ↦
      let spent = ==→eq s.taker.remaining 0 e in
      record {
        state = s;
        nodes = ns;
        returned = stopped (suc fuel) buy s (omega arith) spent;
        swept = idle buy s ns others os spent w v;
      }
  | inr e ↦
      let f = front_node_lem s.pool s.lvl ns others v.linked in
      after_front fuel buy s ns others f.pool f.level f.node f.rest os h w (ground arith) f.returned
        f.same f.within f.front
        (front_node-IsLevel s.pool s.lvl ns others os (front_node s.pool s.lvl) v f)
        (λ m ns' os' b w' v'. sweep_level_total fuel buy m ns' others os' b w' v')
]
