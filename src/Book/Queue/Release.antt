-- ===== src/Book/Queue/Release.antt =====
-- `free_level_nodes`: every node of a level goes back to the pool.
use titan_hft.Common.{
  ℕ, zero, suc, ◌+◌, ◌<◌, ◌≡◌, refl, sym, subst, true, false, some, List, [], ◌∷◌, ◌++◌, arith, ltb,
  leb, ◌==◌, eq_refl, length, length-append, has,
}
use titan_hft.Domain.{invalid_index}
use titan_hft.Book.Level.{PriceLevel}
use titan_hft.Book.Pool.{Pool, free_node, free_chain, free_level_nodes}
use titan_hft.Book.Queue.{
  Chain, ids, IsChain, IsPool, used-le-count, used_bounded, IsPool-free, IsPool-freed,
}
use titan_hft.Book.Queue.Front.{IsLinked, length-ids}

-- The pool after a level's nodes went back: the nodes `others` are still in use.
pub record Released (p : Pool) (others : List ℕ) (q : Pool) : Type 0 where
  pub pool : IsPool q others
  pub nodes : q.nodes ≡ p.nodes
  pub node_count : q.node_count ≡ p.node_count
  pub locators : q.locators ≡ p.locators
  pub id_capacity : q.id_capacity ≡ p.id_capacity
  pub live_count : q.live_count ≡ p.live_count

free_chain_lem :
    (fuel : ℕ) (p : Pool) (i : ℕ) (ns : Chain) (others : List ℕ)
    → length ns < fuel
    → IsChain p.nodes i ns
    → IsPool p (ids ns ++ others)
    → (q : Pool) × (free_chain fuel p i ≡ some q) × Released p others q
unfolding free_chain free_node
free_chain_lem zero p i ns others h c v = absurd (omega arith)
free_chain_lem (suc fuel) p i [] others h c v =
    let end : (i == invalid_index) ≡ true = rw c (eq_refl invalid_index) in
    (
      p,
      rw end refl,
      record {
        pool = v;
        nodes = refl;
        node_count = refl;
        locators = refl;
        id_capacity = refl;
        live_count = refl;
      },
    )
free_chain_lem (suc fuel) p i ((n, xs) ∷ ns) others h c v =
    let lt = used_bounded p (n ∷ ids ns ++ others) v n (ground (arith, eq_refl n)) in
    let more : (i == invalid_index) ≡ false = ground (arith, v.few, c.0) in
    let owned : ltb i p.node_count ≡ true = ground (arith, c.0) in
    let shut : leb p.node_count i ≡ false = ground (arith, c.0) in
    let q = record p { free_nodes = i ∷ p.free_nodes } in
    let free : IsPool q (ids ns ++ others) =
      subst (λ j. IsPool (record p { free_nodes = j ∷ p.free_nodes }) (ids ns ++ others)) (sym c.0)
        (IsPool-free p p.nodes n (ids ns ++ others) v) in
    let on : IsChain p.nodes (p.nodes i).next ns =
      subst (λ j. IsChain p.nodes (p.nodes j).next ns) (sym c.0) c.2 in
    let (r, e, k) = free_chain_lem fuel q (p.nodes i).next ns others (omega arith) on free in
    (
      r,
      rw (free_chain, more, owned, shut) e,
      record {
        pool = k.pool;
        nodes = k.nodes;
        node_count = k.node_count;
        locators = k.locators;
        id_capacity = k.id_capacity;
        live_count = k.live_count;
      },
    )

-- free_level_nodes returns, on a well-formed level: every node of it is then a free node of the
-- pool, the nodes of the other levels are still the only ones in use, and the contents of the
-- pool do not change.
pub free_level_nodes_lem :
    (p : Pool) (l : PriceLevel) (ns : Chain) (others : List ℕ)
    → IsLinked p l ns others
    → (q : Pool) × (free_level_nodes p l
        ≡ some (q, record l { head = invalid_index; tail = invalid_index }))
      × Released p others q
      × ((k : ℕ) → has k (ids ns) ≡ true → has k q.free_nodes ≡ true)
unfolding free_level_nodes
free_level_nodes_lem p l ns others v =
    let (q, e, r) =
      free_chain_lem (p.node_count + 1) p l.head ns others
        (omega (
          arith,
          length-ids ns,
          length-append (ids ns) others,
          used-le-count p (ids ns ++ others) v.pool,
        ))
        v.chain v.pool in
    (
      q,
      rw e refl,
      r,
      λ k h. IsPool-freed p q (ids ns) [] others v.pool r.pool r.node_count k h refl,
    )
