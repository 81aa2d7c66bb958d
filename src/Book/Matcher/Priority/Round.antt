-- ===== src/Book/Matcher/Priority/Round.antt =====
-- One round of `sweep_level`: the oldest order of a level is filled, and the level stays a level.
use titan_hft.Common.{
  ℕ, ◌+◌, ◌-◌, ◌^◌, ◌≤◌, ◌<◌, min, ◌≡◌, sym, ap, ap₂, ◌∙◌, subst, ◌⊎◌, inl, inr, Bool, true, List,
  [], ◌∷◌, ◌++◌, arith, length, drop, has, Distinct, head_or, has-append, Distinct-apart,
}
use titan_hft.Domain.{Order, invalid_index}
use titan_hft.PinNode.Fifo.{IsFifo}
use titan_hft.PinNode.Refine.{orders}
use titan_hft.Book.Level.{PriceLevel}
use titan_hft.Book.Pool.{Pool}
use titan_hft.Book.Queue.{Chain, ids, IsChain, queue, IsPool, IsChain-frame, body}
use titan_hft.Book.Queue.Front.{IsLinked}
use titan_hft.Book.Matcher.Sweep.{SweepState, fill_event, fill_front}
use titan_hft.Book.Matcher.Fill.{fill_front_refines}
use titan_hft.Book.Matcher.Fill.Frame.{Untouched, fill_front_keeps}
use titan_hft.Book.Matcher.Priority.{total_remaining, IsLive}

-- A level with its queue `os`: its nodes, its counters, its orders all live.
pub record IsLevel (p : Pool) (l : PriceLevel) (ns : Chain) (others : List ℕ) (os : List Order)
    : Type 0 where
  pub linked : IsLinked p l ns others
  pub holds : queue p.nodes ns ≡ os
  pub counted : l.order_count ≡ length os
  pub summed : l.total_qty ≡ total_remaining os
  pub live : IsLive os

IsPool-same :
    (p q : Pool) (used : List ℕ)
    → q.free_nodes ≡ p.free_nodes
    → q.node_count ≡ p.node_count
    → IsPool p used
    → IsPool q used
IsPool-same p q used f c v = record {
  distinct = subst (λ l. Distinct (l ++ used)) (sym f) v.distinct;
  bounded =
      λ k h. subst (λ m. k < m) (sym c) (v.bounded k (subst (λ l. has k (l ++ used) ≡ true) f h));
  covered =
      λ k h. subst (λ l. has k (l ++ used) ≡ true) (sym f) (v.covered k (subst (λ m. k < m) c h));
  few = subst (λ m. m ≤ invalid_index) (sym c) v.few;
}

-- A level whose first node alone was written keeps the chain.
relinked :
    (s : SweepState) (n : ℕ) (xs ys : List ℕ) (rest : Chain) (others : List ℕ) (s' : SweepState)
    → IsLinked s.pool s.lvl ((n, xs) ∷ rest) others
    → Untouched s n s'
    → IsFifo (s'.pool.nodes n) ys
    → IsLinked s'.pool s'.lvl ((n, ys) ∷ rest) others
      × (queue s'.pool.nodes rest ≡ queue s.pool.nodes rest)
relinked s n xs ys rest others s' v u f =
    let used = n ∷ ids rest ++ others in
    let (_, d, _) = Distinct-apart s.pool.free_nodes used v.pool.distinct in
    let (c, q) =
      IsChain-frame s.pool.nodes s'.pool.nodes (s.pool.nodes n).next rest
        (λ k h. ap body (u.frame k (ground (arith, d.0, has-append k (ids rest) others))))
        v.chain.2 in
    (
      record {
        chain = (u.head ∙ v.chain.0, f, subst (λ j. IsChain s'.pool.nodes j rest) (sym u.next) c);
        last = u.tail ∙ v.last;
        pool = IsPool-same s.pool s'.pool used u.free u.node_count v.pool;
      },
      q,
    )

-- A round at the oldest order `o` of the level.
module _ (buy : Bool) (s : SweepState) (n x : ℕ) (xs : List ℕ) (rest : Chain) (others : List ℕ)
    (o : Order) (os : List Order) where
  pub record Round (s' : SweepState) (ns' : Chain) (os' : List Order) : Type 0 where
    pub level : IsLevel s'.pool s'.lvl ns' others os'
    pub untouched : Untouched s n s'
    pub taker : s'.taker ≡ record (s.taker) { remaining = s.taker.remaining - o.remaining }
    pub events :
        s'.events ≡ s.events ++ fill_event o s.taker buy (min s.taker.remaining o.remaining) ∷ []
    pub live_count : s.pool.live_count + length os' ≤ s'.pool.live_count + length (o ∷ os)
    pub bounded : s'.pool.live_count < 2 ^ 64

  pub round_lem :
      IsLevel s.pool s.lvl ((n, x ∷ xs) ∷ rest) others (o ∷ os)
      → s.pool.live_count < 2 ^ 64
      → 0 < s.taker.remaining
      → let s' = fill_front buy s n x in
        ((o.remaining ≤ s.taker.remaining) × Round s' ((n, xs) ∷ rest) os)
        ⊎ ((s.taker.remaining < o.remaining)
            × Round s'
                ((n, x ∷ xs) ∷ rest)
                (record o { remaining = o.remaining - s.taker.remaining } ∷ os))
  unfolding fill_event
  round_lem v w h =
      let s' = fill_front buy s n x in
      let maker = (s.pool.nodes n).slots x in
      let oldest : maker ≡ o = ap (head_or o) v.holds in
      let younger : orders (s.pool.nodes n) xs ++ queue s.pool.nodes rest ≡ os =
        ap (drop 1) v.holds in
      let same : maker.remaining ≡ o.remaining = ap (λ (a : Order). a.remaining) oldest in
      let alive : 0 < maker.remaining = subst (λ r. 0 < r) (sym same) v.live.0 in
      let f = fill_front_refines buy s n x xs v.linked.chain.1 h alive in
      let (u, c) = fill_front_keeps buy s n x w h alive in
      let taker : s'.taker ≡ record (s.taker) { remaining = s.taker.remaining - o.remaining } =
        f.taker ∙ ap (λ r. record (s.taker) { remaining = r }) (omega (arith, same)) in
      let events : s'.events
          ≡ s.events ++ fill_event o s.taker buy (min s.taker.remaining o.remaining) ∷ [] =
        f.event
        ∙ ap₂
            (λ (a t : Order).
              s.events ++ fill_event a t buy (min s.taker.remaining a.remaining) ∷ [])
            oldest taker in
      elim f.queue [
        | inl (e, g, q) ↦
            let (l, k) = relinked s n (x ∷ xs) xs rest others s' v.linked u g in
            inl (
              omega (arith, same),
              record {
                level = record {
                  linked = l;
                  holds = ap₂ ◌++◌ q k ∙ younger;
                  counted = ground (arith, c.order_count, v.counted, same);
                  summed = omega (arith, c.total_qty, v.summed, same);
                  live = v.live.1;
                };
                untouched = u;
                taker = taker;
                events = events;
                live_count = ground (arith, c.live);
                bounded = c.bounded;
              },
            )
        | inr (e, g, q) ↦
            let (l, k) = relinked s n (x ∷ xs) (x ∷ xs) rest others s' v.linked u g in
            inr (
              omega (arith, same),
              record {
                level = record {
                  linked = l;
                  holds =
                      ap₂ ◌++◌ q k
                      ∙ ap₂ ◌∷◌
                          (ap
                            (λ (a : Order). record a {
                              remaining = a.remaining - s.taker.remaining;
                            })
                            oldest)
                          younger;
                  counted = ground (arith, c.order_count, v.counted, same);
                  summed = omega (arith, c.total_qty, v.summed, same);
                  live = (omega (arith, same), v.live.1);
                };
                untouched = u;
                taker = taker;
                events = events;
                live_count = ground (arith, c.live);
                bounded = c.bounded;
              },
            )
      ]
