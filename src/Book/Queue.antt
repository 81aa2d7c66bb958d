-- ===== src/Book/Queue.antt =====
-- A price level as a queue: the chain of PIN nodes from its head, each with its slots in order of
-- arrival, and the pool that the nodes come from.
pub mod Front
pub mod Release
use titan_hft.Common.{
  ℕ, zero, suc, ◌+◌, ◌-◌, ◌*◌, ◌/◌, ◌%◌, ◌^◌, ◌≤◌, ◌<◌, min, ◌≡◌, ◌≢◌, refl, sym, ap, ap₂, ◌∙◌,
  subst, subst₂, ◌↔◌, ◌⊎◌, inl, inr, Bool, true, false, not, ◌&&◌, ◌||◌, Option, none, some, List,
  [], ◌∷◌, ◌++◌, map, map-append, append-nil, append_assoc, arith, ltb, leb, ◌==◌, if◌then◌else◌,
  ==→eq, eq_refl, Bool-cases, Option-cases, update, length, get_elem?, take, drop, length-append,
  take-append-drop, length-take, length-drop, has, Distinct, erase, last_or, head_or, All,
  All-append, has-append, has-erase, has-erase_self, erase-Distinct, length-erase, append-Distinct,
  u32, u64, sub64, test_bit, set_bit, clear_bit, lowest_clear, popcount, test_bit-set_bit,
  test_bit-clear_bit, test_bit-zero, lowest_clear_lem, set_bit-lt, clear_bit-le, popcount-le,
  popcount-none, popcount-clear_bit, popcount-full_iff, popcount-eq-zero, ℤ, pos, negsuc, ◌≤ℤ◌,
  ◌<ℤ◌, leb_ℤ, ltb_ℤ, eqb_ℤ, cast_u64, eq_of_parts, eqb_ℤ→eq, eqb_ℤ_refl, Distinct-apart,
  Distinct-append, Distinct-front, Distinct-back, length-le_of_bounded, Seg, Seg-frame, Seg-split,
  Seg-join, last_or-append, has-last_or, has-split, Distinct-split, append_next, unlink_next,
  unlink_prev, Seg-append_last, Seg-unlink,
}
use titan_hft.Domain.{Order, invalid_index}
use titan_hft.PinNode.{PinNode}
use titan_hft.PinNode.Fifo.{IsFifo}
use titan_hft.PinNode.Refine.{orders}
use titan_hft.Book.Level.{PriceLevel}
use titan_hft.Book.Pool.{Pool}

-- Each node of a chain by its index, with its occupied slots, oldest first.
abbrev pub Chain : Type 0
Chain = List (ℕ × List ℕ)

abbrev pub ids : Chain → List ℕ
ids [] = []
ids ((n, xs) ∷ ns) = n ∷ ids ns

-- From index `i` the `next` links lead through the nodes.
abbrev pub IsChain : (ℕ → PinNode) → ℕ → Chain → Type 0
IsChain nodes i [] = i ≡ invalid_index
IsChain nodes i ((n, xs) ∷ ns) = (i ≡ n) × IsFifo (nodes n) xs × IsChain nodes (nodes n).next ns

-- The resting orders, oldest first.
abbrev pub queue : (ℕ → PinNode) → Chain → List Order
queue nodes [] = []
queue nodes ((n, xs) ∷ ns) = orders (nodes n) xs ++ queue nodes ns

-- Every node of the pool is free or used, and only once, no other index is, and there are few
-- enough for their indices.
pub record IsPool (p : Pool) (used : List ℕ) : Type 0 where
  pub distinct : Distinct (p.free_nodes ++ used)
  pub bounded : (k : ℕ) → has k (p.free_nodes ++ used) ≡ true → k < p.node_count
  pub covered : (k : ℕ) → k < p.node_count → has k (p.free_nodes ++ used) ≡ true
  pub few : p.node_count ≤ invalid_index

-- The node but for its link backwards, which no code reads.
abbrev pub body : PinNode → PinNode
body n = record n { prev = 0 }

pub IsFifo-body : {m n : PinNode} {xs : List ℕ} → body m ≡ body n → IsFifo n xs → IsFifo m xs
IsFifo-body {m} {n} {xs} e f =
    let g : IsFifo (body n) xs = record {
      distinct = f.distinct;
      chain = f.chain;
      last = f.last;
      mask = f.mask;
      occupied = f.occupied;
      small = f.small;
    } in
    let h : IsFifo (body m) xs = subst (λ k. IsFifo k xs) (sym e) g in
    record {
      distinct = h.distinct;
      chain = h.chain;
      last = h.last;
      mask = h.mask;
      occupied = h.occupied;
      small = h.small;
    }

-- A chain outlives any change that spares its nodes.
pub IsChain-frame :
    (nodes nodes' : ℕ → PinNode) (i : ℕ) (ns : Chain)
    → ((k : ℕ) → has k (ids ns) ≡ true → body (nodes' k) ≡ body (nodes k))
    → IsChain nodes i ns
    → IsChain nodes' i ns × (queue nodes' ns ≡ queue nodes ns)
IsChain-frame nodes nodes' i [] same c = (c, refl)
IsChain-frame nodes nodes' i ((n, xs) ∷ ns) same (e, f, c) =
    let here = same n (ground (arith, eq_refl n)) in
    let (c', q) = IsChain-frame nodes nodes' (nodes n).next ns (λ k h. same k (ground arith)) c in
    (
      (
        e,
        IsFifo-body here f,
        subst (λ j. IsChain nodes' j ns) (sym (ap (λ (b : PinNode). b.next) here)) c',
      ),
      ap₂ ◌++◌ (ap (λ (b : PinNode). map b.slots xs) here) q,
    )

module _ (p : Pool) (used : List ℕ) (v : IsPool p used) where
  pub used-le-count : length used ≤ p.node_count
  used-le-count =
      let (_, d, _) = Distinct-apart p.free_nodes used v.distinct in
      length-le_of_bounded p.node_count used d
        (λ k h. v.bounded k (ground (arith, has-append k p.free_nodes used)))

  pub used_bounded : (k : ℕ) → has k used ≡ true → k < p.node_count
  used_bounded k h = v.bounded k (ground (arith, has-append k p.free_nodes used))

-- A used node is freed, and a free one is used.
pub IsPool-free :
    (p : Pool) (nodes : ℕ → PinNode) (n : ℕ) (used : List ℕ)
    → IsPool p (n ∷ used)
    → IsPool (record p { nodes = nodes; free_nodes = n ∷ p.free_nodes }) used
IsPool-free p nodes n used v = record {
  distinct = Distinct-front p.free_nodes used n v.distinct;
  bounded = λ k h.
      v.bounded k
        (ground (arith, has-append k p.free_nodes (n ∷ used), has-append k p.free_nodes used));
  covered = λ k h.
      ground (
        arith,
        v.covered k h,
        has-append k p.free_nodes (n ∷ used),
        has-append k p.free_nodes used,
      );
  few = v.few;
}

pub IsPool-use :
    (p : Pool) (nodes : ℕ → PinNode) (n : ℕ) (rest used : List ℕ)
    → p.free_nodes ≡ n ∷ rest
    → IsPool p used
    → IsPool (record p { nodes = nodes; free_nodes = rest }) (n ∷ used)
IsPool-use p nodes n rest used e v =
    let d : Distinct (n ∷ rest ++ used) = subst (λ l. Distinct (l ++ used)) e v.distinct in
    record {
      distinct = Distinct-back rest used n d;
      bounded = λ k h. v.bounded k (
          subst (λ l. has k (l ++ used) ≡ true) (sym e)
            (ground (arith, has-append k rest (n ∷ used), has-append k rest used)));
      covered = λ k h. ground (
        arith,
        subst (λ l. has k (l ++ used) ≡ true) e (v.covered k h),
        has-append k rest (n ∷ used),
        has-append k rest used,
      );
      few = v.few;
    }

-- A node that is no longer used is free.
pub IsPool-freed :
    (p q : Pool) (ns rest others : List ℕ)
    → IsPool p (ns ++ others)
    → IsPool q (rest ++ others)
    → q.node_count ≡ p.node_count
    → (k : ℕ) → has k ns ≡ true
    → has k rest ≡ false
    → has k q.free_nodes ≡ true
IsPool-freed p q ns rest others v w e k used out =
    let (_, d, _) = Distinct-apart p.free_nodes (ns ++ others) v.distinct in
    let (_, _, apart) = Distinct-apart ns others d in
    let lt = used_bounded p (ns ++ others) v k (ground (arith, has-append k ns others)) in
    ground (
      arith,
      w.covered k (omega (arith, lt, e)),
      apart k used,
      has-append k q.free_nodes (rest ++ others),
      has-append k rest others,
    )
