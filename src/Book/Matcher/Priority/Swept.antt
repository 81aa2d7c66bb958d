-- ===== src/Book/Matcher/Priority/Swept.antt =====
-- What a sweep of a level does to it, and how its rounds add up.
use titan_hft.Common.{
  ℕ, ◌+◌, ◌-◌, ◌^◌, ◌≤◌, ◌<◌, min, ◌≡◌, refl, sym, ap, ap₂, ◌∙◌, subst, Bool, false, List, [], ◌∷◌,
  ◌++◌, append-nil, append_assoc, arith, length, has, u32,
}
use titan_hft.Domain.{Order}
use titan_hft.Book.Level.{PriceLevel}
use titan_hft.Book.Pool.{Pool}
use titan_hft.Book.Queue.{Chain, ids}
use titan_hft.Book.Queue.Front.{SameElse}
use titan_hft.Book.Matcher.Sweep.{MatchResult, SweepState, fill_event}
use titan_hft.Book.Matcher.Priority.{
  takes, leaves, total_remaining, fill_events, takes_zero, bumped, bumped_one, takes_used,
  takes_part,
}
use titan_hft.Book.Matcher.Priority.Round.{IsLevel, Round}

-- A sweep of the queue `os` by a taker, from `s` to `s'`, where the level has the nodes `ns'`.
pub record Swept (buy : Bool) (s : SweepState) (ns : Chain) (others : List ℕ) (os : List Order)
    (s' : SweepState) (ns' : Chain) : Type 0 where
  pub level : IsLevel s'.pool s'.lvl ns' others (leaves s.taker.remaining os)
  pub taker : s'.taker ≡ record (s.taker) { remaining = s.taker.remaining - total_remaining os }
  pub events : s'.events ≡ s.events ++ fill_events s.taker buy (takes s.taker.remaining os)
  pub result :
      s'.result
      ≡ record (s.result) { trades = bumped s.result.trades (length (takes s.taker.remaining os)) }
  pub price : s'.lvl.price ≡ s.lvl.price
  pub node_count : s'.pool.node_count ≡ s.pool.node_count
  pub id_capacity : s'.pool.id_capacity ≡ s.pool.id_capacity
  pub live_count :
      s.pool.live_count + length (leaves s.taker.remaining os) ≤ s'.pool.live_count + length os
  pub frame : (k : ℕ) → has k (ids ns) ≡ false → s'.pool.nodes k ≡ s.pool.nodes k
  pub within : (k : ℕ) → has k (ids ns) ≡ false → has k (ids ns') ≡ false
  pub bounded : s'.pool.live_count < 2 ^ 64

no_trades :
    (r : MatchResult) (fs : List (Order × ℕ))
    → fs ≡ []
    → r ≡ record r { trades = bumped r.trades (length fs) }
unfolding bumped
no_trades r fs f = ap (λ gs. record r { trades = bumped r.trades (length gs) }) (sym f)

pub more_trades :
    (r r' : MatchResult) (fs gs : List (Order × ℕ)) (f : Order × ℕ)
    → r' ≡ record r { trades = u32 (r.trades + 1) }
    → f ∷ fs ≡ gs
    → record r' { trades = bumped r'.trades (length fs) }
      ≡ record r { trades = bumped r.trades (length gs) }
unfolding bumped
more_trades r r' fs gs f e g =
    ap (λ (a : MatchResult). record a { trades = bumped a.trades (length fs) }) e
    ∙ ap (λ hs. record r { trades = bumped r.trades (length hs) }) g

-- A sweep that takes nothing.
pub idle :
    (buy : Bool) (s : SweepState) (ns : Chain) (others : List ℕ) (os : List Order)
    → s.taker.remaining ≡ 0
    → s.pool.live_count < 2 ^ 64
    → IsLevel s.pool s.lvl ns others os
    → Swept buy s ns others os s ns
idle buy s ns others os e w v =
    let (t, l) = takes_zero os in
    let took : takes s.taker.remaining os ≡ [] = ap (λ q. takes q os) e ∙ t in
    let left : leaves s.taker.remaining os ≡ os = ap (λ q. leaves q os) e ∙ l in
    record {
      level = subst (λ k. IsLevel s.pool s.lvl ns others k) (sym left) v;
      taker = ap (λ q. record (s.taker) { remaining = q }) (omega (arith, e));
      events = sym (ap (λ k. s.events ++ fill_events s.taker buy k) took ∙ append-nil s.events);
      result = no_trades s.result (takes s.taker.remaining os) took;
      price = refl;
      node_count = refl;
      id_capacity = refl;
      live_count = omega (arith, ap length left);
      frame = λ k h. refl;
      within = λ k h. h;
      bounded = w;
    }

-- The taker of a round stays whom the events name.
pub same_events :
    (taker taker' : Order) (r : ℕ) (buy : Bool) (fs : List (Order × ℕ))
    → taker' ≡ record taker { remaining = r }
    → fill_events taker' buy fs ≡ fill_events taker buy fs
same_events taker taker' r buy fs e = ap (λ t. fill_events t buy fs) e

module _ (buy : Bool) (s : SweepState) (n x : ℕ) (xs : List ℕ) (rest : Chain) (others : List ℕ)
    (o : Order) (os : List Order) (m : SweepState) where
  -- The oldest order is used up, and the sweep goes on.
  pub used_up :
      (s' : SweepState) (ns' : Chain)
      → 0 < s.taker.remaining
      → o.remaining ≤ s.taker.remaining
      → Round buy s n x xs rest others o os m ((n, xs) ∷ rest) os
      → Swept buy m ((n, xs) ∷ rest) others os s' ns'
      → Swept buy s ((n, x ∷ xs) ∷ rest) others (o ∷ os) s' ns'
  unfolding fill_event
  used_up s' ns' h e r v =
      let left : m.taker.remaining ≡ s.taker.remaining - o.remaining =
        ap (λ (t : Order). t.remaining) r.taker in
      let (t, l) = takes_used s.taker.remaining o os h e in
      let next : leaves m.taker.remaining os ≡ leaves s.taker.remaining (o ∷ os) =
        ap (λ q. leaves q os) left ∙ sym l in
      let took : (o, o.remaining) ∷ takes m.taker.remaining os ≡ takes s.taker.remaining (o ∷ os) =
        ap (λ q. (o, o.remaining) ∷ takes q os) left ∙ sym t in
      let first : min s.taker.remaining o.remaining ≡ o.remaining = omega arith in
      record {
        level = subst (λ k. IsLevel s'.pool s'.lvl ns' others k) next v.level;
        taker =
            v.taker
            ∙ ap₂ (λ (t : Order) q. record t { remaining = q }) r.taker (omega (arith, left));
        events =
            v.events
            ∙ ap₂ ◌++◌ r.events (
                same_events s.taker m.taker (s.taker.remaining - o.remaining) buy
                  (takes m.taker.remaining os) r.taker)
            ∙ append_assoc s.events _ _
            ∙ ap
                (λ q.
                  s.events
                  ++ fill_event o s.taker buy q
                    ∷ fill_events s.taker buy (takes m.taker.remaining os))
                first
            ∙ ap (λ fs. s.events ++ fill_events s.taker buy fs) took;
        result =
            v.result
            ∙ more_trades s.result m.result (takes m.taker.remaining os)
                (takes s.taker.remaining (o ∷ os)) (o, o.remaining) r.untouched.trades took;
        price = v.price ∙ r.untouched.price;
        node_count = v.node_count ∙ r.untouched.node_count;
        id_capacity = v.id_capacity ∙ r.untouched.id_capacity;
        live_count = omega (arith, ap length next, r.live_count, v.live_count);
        frame = λ k d. v.frame k d ∙ r.untouched.frame k (ground arith);
        within = λ k d. v.within k d;
        bounded = v.bounded;
      }

  -- The oldest order uses the taker up.
  pub cut_short :
      0 < s.taker.remaining
      → s.taker.remaining < o.remaining
      → Round buy s n x xs rest others o os m
          ((n, x ∷ xs) ∷ rest)
          (record o { remaining = o.remaining - s.taker.remaining } ∷ os)
      → Swept buy s ((n, x ∷ xs) ∷ rest) others (o ∷ os) m ((n, x ∷ xs) ∷ rest)
  unfolding fill_event
  cut_short h e r =
      let (t, l) = takes_part s.taker.remaining o os h e in
      record {
        level = subst (λ k. IsLevel m.pool m.lvl ((n, x ∷ xs) ∷ rest) others k) (sym l) r.level;
        taker = r.taker ∙ ap (λ q. record (s.taker) { remaining = q }) (omega arith);
        events =
            r.events
            ∙ ap (λ q. s.events ++ fill_event o s.taker buy q ∷ []) (omega arith)
            ∙ ap (λ fs. s.events ++ fill_events s.taker buy fs) (sym t);
        result =
            r.untouched.trades
            ∙ ap (λ n. record (s.result) { trades = n }) (sym (bumped_one s.result.trades))
            ∙ ap (λ fs. record (s.result) { trades = bumped s.result.trades (length fs) }) (sym t);
        price = r.untouched.price;
        node_count = r.untouched.node_count;
        id_capacity = r.untouched.id_capacity;
        live_count = omega (arith, ap length l, r.live_count);
        frame = λ k d. r.untouched.frame k (ground arith);
        within = λ k d. d;
        bounded = r.bounded;
      }

-- A sweep from the level after `front_node`.
module _ (buy : Bool) (s : SweepState) (ns : Chain) (others : List ℕ) (os : List Order) (p : Pool)
    (l : PriceLevel) (rest : Chain) where
  pub fronted :
      (s' : SweepState) (ns' : Chain)
      → SameElse s.pool s.lvl ns p l
      → ((k : ℕ) → has k (ids ns) ≡ false → has k (ids rest) ≡ false)
      → Swept buy (record s { pool = p; lvl = l }) rest others os s' ns'
      → Swept buy s ns others os s' ns'
  fronted s' ns' e d v = record {
    level = v.level;
    taker = v.taker;
    events = v.events;
    result = v.result;
    price = v.price ∙ e.price;
    node_count = v.node_count ∙ e.node_count;
    id_capacity = v.id_capacity ∙ e.id_capacity;
    live_count = omega (arith, v.live_count, e.live_count);
    frame = λ k h. v.frame k (d k h) ∙ e.frame k h;
    within = λ k h. v.within k (d k h);
    bounded = v.bounded;
  }

-- A sweep of an empty level.
pub dry :
    (buy : Bool) (s : SweepState) (ns : Chain) (others : List ℕ)
    → s.pool.live_count < 2 ^ 64
    → IsLevel s.pool s.lvl ns others []
    → Swept buy s ns others [] s ns
unfolding takes leaves
dry buy s ns others w v = record {
  level = v;
  taker = ap (λ q. record (s.taker) { remaining = q }) (omega arith);
  events = sym (append-nil s.events);
  result = no_trades s.result [] refl;
  price = refl;
  node_count = refl;
  id_capacity = refl;
  live_count = omega arith;
  frame = λ k h. refl;
  within = λ k h. h;
  bounded = w;
}
