-- ===== src/Book/Queue/Front.antt =====
-- `front_node`: the nodes that it takes off a level go back to the pool, and the queue stays.
use titan_hft.Common.{
  ℕ, zero, suc, ◌+◌, ◌<◌, ◌≡◌, refl, sym, ap, ◌∙◌, subst, inl, inr, true, false, not, Option, none,
  some, List, [], ◌∷◌, ◌++◌, arith, leb, ◌==◌, ==→eq, eq_refl, Bool-cases, update, length,
  length-append, has, last_or,
}
use titan_hft.Domain.{invalid_index}
use titan_hft.PinNode.{PinNode, empty}
use titan_hft.PinNode.Refine.{count_lem}
use titan_hft.Book.Level.{PriceLevel}
use titan_hft.Book.Pool.{Pool, free_node}
use titan_hft.Book.Matcher.Sweep.{drop_front, front_from, front_node}
use titan_hft.Book.Queue.{
  Chain, ids, IsChain, queue, IsPool, body, IsChain-frame, used-le-count, used_bounded, IsPool-free,
  IsPool-freed,
}

-- The level has the nodes `ns`, and other levels have the nodes `others`.
pub record IsLinked (p : Pool) (l : PriceLevel) (ns : Chain) (others : List ℕ) : Type 0 where
  pub chain : IsChain p.nodes l.head ns
  pub last : l.tail ≡ last_or invalid_index (ids ns)
  pub pool : IsPool p (ids ns ++ others)

-- What `front_node` leaves as it was.
pub record SameElse (p : Pool) (l : PriceLevel) (ns : Chain) (p' : Pool) (l' : PriceLevel)
    : Type 0 where
  pub price : l'.price ≡ l.price
  pub total_qty : l'.total_qty ≡ l.total_qty
  pub order_count : l'.order_count ≡ l.order_count
  pub locators : p'.locators ≡ p.locators
  pub node_count : p'.node_count ≡ p.node_count
  pub id_capacity : p'.id_capacity ≡ p.id_capacity
  pub live_count : p'.live_count ≡ p.live_count
  pub frame : (k : ℕ) → has k (ids ns) ≡ false → p'.nodes k ≡ p.nodes k

freed :
    (p : Pool) (nodes : ℕ → PinNode) (l : PriceLevel) (n : ℕ) (used : List ℕ)
    → l.head ≡ n
    → IsPool p (n ∷ used)
    → IsPool (record p { nodes = nodes; free_nodes = l.head ∷ p.free_nodes }) used
freed p nodes l n used e v =
    subst (λ h. IsPool (record p { nodes = nodes; free_nodes = h ∷ p.free_nodes }) used) (sym e)
      (IsPool-free p nodes n used v)

-- The level after one empty node is dropped.
drop_front_lem :
    (p : Pool) (l : PriceLevel) (n : ℕ) (xs : List ℕ) (ns : Chain) (others : List ℕ)
    → IsLinked p l ((n, xs) ∷ ns) others
    → let (p', l') = drop_front p l in
      IsLinked p' l' ns others
      × SameElse p l ((n, xs) ∷ ns) p' l'
      × (queue p'.nodes ns ≡ queue p.nodes ns)
unfolding drop_front free_node
drop_front_lem p l n xs [] others v =
    let lt = used_bounded p (n ∷ others) v.pool n (ground (arith, eq_refl n)) in
    let next : (p.nodes l.head).next ≡ invalid_index =
      ap (λ h. (p.nodes h).next) v.chain.0 ∙ v.chain.2 in
    let owned : leb p.node_count l.head ≡ false = ground (arith, v.chain.0) in
    let end : ((p.nodes l.head).next == invalid_index) ≡ true = rw next (eq_refl invalid_index) in
    rw (owned, end)
      (
        record { chain = next; last = refl; pool = freed p p.nodes l n others v.chain.0 v.pool },
        record {
          price = refl;
          total_qty = refl;
          order_count = refl;
          locators = refl;
          node_count = refl;
          id_capacity = refl;
          live_count = refl;
          frame = λ k h. refl;
        },
        refl,
      )
drop_front_lem p l n xs ((m, ys) ∷ ns) others v =
    let lt = used_bounded p (n ∷ m ∷ ids ns ++ others) v.pool n (ground (arith, eq_refl n)) in
    let lt' = used_bounded p (n ∷ m ∷ ids ns ++ others) v.pool m (ground (arith, eq_refl m)) in
    let next : (p.nodes l.head).next ≡ m = ap (λ h. (p.nodes h).next) v.chain.0 ∙ v.chain.2.0 in
    let owned : leb p.node_count l.head ≡ false = ground (arith, v.chain.0) in
    let more : ((p.nodes l.head).next == invalid_index) ≡ false =
      ground (arith, v.pool.few, next) in
    let nodes' =
      update p.nodes (p.nodes l.head).next
        (record (p.nodes (p.nodes l.head).next) { prev = invalid_index }) in
    let spared : (k : ℕ) → body (nodes' k) ≡ body (p.nodes k) = λ k.
      elim (Bool-cases (k == (p.nodes l.head).next)) [
        | inl e ↦ rw e (ap (λ j. body (p.nodes j)) (sym (==→eq k (p.nodes l.head).next e)))
        | inr e ↦ rw e refl
      ] in
    let (c, q) =
      IsChain-frame p.nodes nodes' (p.nodes n).next ((m, ys) ∷ ns) (λ k h. spared k) v.chain.2 in
    let dropped : drop_front p l ≡ (
      record p { nodes = nodes'; free_nodes = l.head ∷ p.free_nodes },
      record l { head = (p.nodes l.head).next },
    ) =
      rw (owned, more) refl in
    subst
      (λ r.
        IsLinked r.0 r.1 ((m, ys) ∷ ns) others
        × SameElse p l ((n, xs) ∷ (m, ys) ∷ ns) r.0 r.1
        × (queue r.0.nodes ((m, ys) ∷ ns) ≡ queue p.nodes ((m, ys) ∷ ns)))
      (sym dropped)
      (
        record {
          chain = subst (λ j. IsChain nodes' j ((m, ys) ∷ ns)) (v.chain.2.0 ∙ sym next) c;
          last = v.last;
          pool = freed p nodes' l n (m ∷ ids ns ++ others) v.chain.0 v.pool;
        },
        record {
          price = refl;
          total_qty = refl;
          order_count = refl;
          locators = refl;
          node_count = refl;
          id_capacity = refl;
          live_count = refl;
          frame = λ k h. ground (arith, next);
        },
        q,
      )

-- What `front_node` returns: no node if the queue is empty, or else the head, which is not empty.
abbrev pub IsFront : Option ℕ → Chain → Type 0
IsFront none ns = ns ≡ []
IsFront (some n) ns = (x : ℕ) × (xs : List ℕ) × (rest : Chain) × (ns ≡ (n, x ∷ xs) ∷ rest)

pub record Fronted (p : Pool) (l : PriceLevel) (ns : Chain) (others : List ℕ)
    (r : Option (Pool × PriceLevel × Option ℕ)) : Type 0 where
  pub pool : Pool
  pub level : PriceLevel
  pub node : Option ℕ
  pub rest : Chain
  pub returned : r ≡ some (pool, level, node)
  pub linked : IsLinked pool level rest others
  pub same : SameElse p l ns pool level
  pub kept : queue pool.nodes rest ≡ queue p.nodes ns
  pub front : IsFront node rest
  pub within : (k : ℕ) → has k (ids ns) ≡ false → has k (ids rest) ≡ false
  pub freed :
      (k : ℕ) → has k (ids ns) ≡ true → has k (ids rest) ≡ false → has k pool.free_nodes ≡ true

stays :
    (p : Pool) (l : PriceLevel) (ns : Chain) (others : List ℕ) (node : Option ℕ)
    → IsLinked p l ns others
    → IsFront node ns
    → Fronted p l ns others (some (p, l, node))
stays p l ns others node v f = record {
  pool = p;
  level = l;
  node = node;
  rest = ns;
  returned = refl;
  linked = v;
  same = record {
    price = refl;
    total_qty = refl;
    order_count = refl;
    locators = refl;
    node_count = refl;
    id_capacity = refl;
    live_count = refl;
    frame = λ k h. refl;
  };
  kept = refl;
  front = f;
  within = λ k h. h;
  freed = λ k h g. absurd (ground (arith, h, g));
}

SameElse-trans :
    (p : Pool) (l : PriceLevel) (n : ℕ) (xs : List ℕ) (ns : Chain) (q : Pool) (m : PriceLevel)
    (r : Pool) (o : PriceLevel)
    → SameElse p l ((n, xs) ∷ ns) q m
    → SameElse q m ns r o
    → SameElse p l ((n, xs) ∷ ns) r o
SameElse-trans p l n xs ns q m r o a b = record {
  price = b.price ∙ a.price;
  total_qty = b.total_qty ∙ a.total_qty;
  order_count = b.order_count ∙ a.order_count;
  locators = b.locators ∙ a.locators;
  node_count = b.node_count ∙ a.node_count;
  id_capacity = b.id_capacity ∙ a.id_capacity;
  live_count = b.live_count ∙ a.live_count;
  frame = λ k h. b.frame k (ground arith) ∙ a.frame k h;
}

pub length-ids : (ns : Chain) → length (ids ns) ≡ length ns
length-ids [] = refl
length-ids ((n, xs) ∷ ns) = ap suc (length-ids ns)

front_from_lem :
    (fuel : ℕ) (p : Pool) (l : PriceLevel) (ns : Chain) (others : List ℕ)
    → length ns < fuel
    → IsLinked p l ns others
    → Fronted p l ns others (front_from fuel p l)
unfolding front_from
front_from_lem zero p l ns others h v = absurd (omega arith)
front_from_lem (suc fuel) p l [] others h v =
    let end : (l.head == invalid_index) ≡ true = rw (v.chain) (eq_refl invalid_index) in
    rw end (stays p l [] others none v refl)
front_from_lem (suc fuel) p l ((n, []) ∷ ns) others h v =
    let lt = used_bounded p (n ∷ ids ns ++ others) v.pool n (ground (arith, eq_refl n)) in
    let more : (l.head == invalid_index) ≡ false = ground (arith, v.pool.few, v.chain.0) in
    let owned : leb p.node_count l.head ≡ false = ground (arith, v.chain.0) in
    let bare : empty (p.nodes l.head) ≡ true =
      ap (λ k. empty (p.nodes k)) v.chain.0 ∙ (count_lem (p.nodes n) [] v.chain.1).1.1 refl in
    let (d, s, q) = drop_front_lem p l n [] ns others v in
    let r = front_from_lem fuel (drop_front p l).0 (drop_front p l).1 ns others (omega arith) d in
    rw (more, owned, bare, not)
      (record {
        pool = r.pool;
        level = r.level;
        node = r.node;
        rest = r.rest;
        returned = r.returned;
        linked = r.linked;
        same =
            SameElse-trans p l n [] ns (drop_front p l).0 (drop_front p l).1 r.pool r.level s
              r.same;
        kept = r.kept ∙ q;
        front = r.front;
        within = λ k e. r.within k (ground arith);
        freed =
            IsPool-freed p r.pool (n ∷ ids ns) (ids r.rest) others v.pool r.linked.pool
              (r.same.node_count ∙ s.node_count);
      })
front_from_lem (suc fuel) p l ((n, x ∷ xs) ∷ ns) others h v =
    let lt = used_bounded p (n ∷ ids ns ++ others) v.pool n (ground (arith, eq_refl n)) in
    let more : (l.head == invalid_index) ≡ false = ground (arith, v.pool.few, v.chain.0) in
    let owned : leb p.node_count l.head ≡ false = ground (arith, v.chain.0) in
    let full : empty (p.nodes l.head) ≡ false = elim (Bool-cases (empty (p.nodes l.head))) [
      | inr e ↦ e
      | inl e ↦ absurd (
          omega (
            arith,
            (count_lem (p.nodes n) (x ∷ xs) v.chain.1).1.0
                (sym (ap (λ k. empty (p.nodes k)) v.chain.0) ∙ e),
          ))
    ] in
    rw (more, owned, full, not)
      (stays p l ((n, x ∷ xs) ∷ ns) others (some l.head) v
        (x, xs, ns, ap (λ k. (k, x ∷ xs) ∷ ns) (sym v.chain.0)))

-- front_node returns, on a well-formed level: the nodes that leave it are then free nodes of the
-- pool, the orders of the level and their arrival stay as they were, and it returns the head,
-- which then has an order, or none just when no order is left. No other node changes.
pub front_node_lem :
    (p : Pool) (l : PriceLevel) (ns : Chain) (others : List ℕ)
    → IsLinked p l ns others
    → Fronted p l ns others (front_node p l)
unfolding front_node
front_node_lem p l ns others v =
    front_from_lem (p.node_count + 1) p l ns others
      (omega (
        arith,
        length-ids ns,
        length-append (ids ns) others,
        used-le-count p (ids ns ++ others) v.pool,
      ))
      v
