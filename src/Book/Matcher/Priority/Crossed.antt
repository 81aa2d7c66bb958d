-- ===== src/Book/Matcher/Priority/Crossed.antt =====
-- What a crossing does to a side of the book, and how its levels add up.
use titan_hft.Common.{
  ℕ, ◌-◌, ◌<◌, ◌≡◌, ◌≢◌, refl, sym, ap, ap₂, ◌∙◌, Bool, true, false, some, List, [], ◌∷◌, ◌++◌,
  map-append, append-nil, append_assoc, arith, ◌==◌, length, length-append, has, has-append,
}
use titan_hft.Domain.{Order}
use titan_hft.Book.Level.{PriceLevel}
use titan_hft.Book.Index.{PriceIndex}
use titan_hft.Book.Index.Listing.{Listing}
use titan_hft.Book.Pool.{Pool, free_level_nodes}
use titan_hft.Book.Queue.{Chain, ids}
use titan_hft.Book.Queue.Release.{Released}
use titan_hft.Book.Matcher.{Cross, settle}
use titan_hft.Book.Matcher.Sweep.{MatchResult, SweepState}
use titan_hft.Book.Matcher.Priority.{
  takes, leaves, takes_side, leaves_side, bumped, bumped-add, reaches, total_remaining, total_taken,
  total_taken-append, side_left, side_gone, fill_events, takes_total,
}
use titan_hft.Book.Matcher.Priority.BookSide.{Row, quotes, row_ids, IsSide}
use titan_hft.Book.Matcher.Priority.Settle.{swept_from, front_left, left_side}
use titan_hft.Book.Matcher.Priority.Swept.{Swept, same_events}

reaches_same :
    (o o' : Order) (n : ℕ) (buy : Bool)
    → o' ≡ record o { remaining = n }
    → reaches o' buy ≡ reaches o buy
unfolding reaches
reaches_same o o' n buy e = ap (λ t. reaches t buy) e

fill_events-append :
    (o : Order) (buy : Bool) (fs gs : List (Order × ℕ))
    → fill_events o buy (fs ++ gs) ≡ fill_events o buy fs ++ fill_events o buy gs
fill_events-append o buy fs gs = map-append _ fs gs

module _ (P : PriceIndex) (L : Listing P) where
  -- What `cross` makes of the side `rs`: the taker and the events go by the quotes alone.
  pub record Crossed (buy : Bool) (c : Cross P) (rs : List Row) (others : List ℕ) (extra : ℕ)
      (c' : Cross P) (rs' : List Row) : Type 0 where
    pub side : IsSide P L c'.pool c'.opp rs' others extra
    pub left : quotes rs' ≡ leaves_side (reaches c.taker buy) c.taker.remaining (quotes rs)
    pub taker : c'.taker ≡ record (c.taker) {
      remaining =
          c.taker.remaining
          - total_taken (takes_side (reaches c.taker buy) c.taker.remaining (quotes rs));
    }
    pub events :
        c'.events
        ≡ c.events
          ++ fill_events c.taker buy
              (takes_side (reaches c.taker buy) c.taker.remaining (quotes rs))
    pub result : c'.result ≡ record (c.result) {
      trades =
          bumped c.result.trades
            (length (takes_side (reaches c.taker buy) c.taker.remaining (quotes rs)));
    }
    pub node_count : c'.pool.node_count ≡ c.pool.node_count
    pub id_capacity : c'.pool.id_capacity ≡ c.pool.id_capacity
    pub frame : (k : ℕ) → has k (row_ids rs) ≡ false → c'.pool.nodes k ≡ c.pool.nodes k

  -- A crossing that takes nothing.
  pub nothing :
      (buy : Bool) (c : Cross P) (rs : List Row) (others : List ℕ) (extra : ℕ)
      → IsSide P L c.pool c.opp rs others extra
      → takes_side (reaches c.taker buy) c.taker.remaining (quotes rs) ≡ []
      → leaves_side (reaches c.taker buy) c.taker.remaining (quotes rs) ≡ quotes rs
      → Crossed buy c rs others extra c rs
  unfolding bumped
  nothing buy c rs others extra v t l = record {
    side = v;
    left = sym l;
    taker = ap (λ q. record (c.taker) { remaining = q }) (omega (arith, ap total_taken t));
    events = sym (ap (λ fs. c.events ++ fill_events c.taker buy fs) t ∙ append-nil c.events);
    result = ap (λ fs. record (c.result) { trades = bumped c.result.trades (length fs) }) (sym t);
    node_count = refl;
    id_capacity = refl;
    frame = λ k h. refl;
  }

  -- Both ways to settle.
  module _ (c : Cross P) (i : ℕ) (s : SweepState) where
    abbrev pub after_left : Cross P
    after_left = record {
      pool = s.pool;
      opp = P.set_level c.opp i s.lvl;
      taker = s.taker;
      result = s.result;
      events = s.events;
    }

    abbrev pub after_gone : Pool → PriceLevel → Cross P
    after_gone q l = record {
      pool = q;
      opp = P.erase (P.set_level c.opp i l) i;
      taker = s.taker;
      result = s.result;
      events = s.events;
    }

    pub settle_left : (s.lvl.order_count == 0) ≡ false → settle P c.opp i s ≡ some after_left
    unfolding settle
    settle_left e = rw e refl

    pub settle_gone :
        (q : Pool) (l : PriceLevel)
        → (s.lvl.order_count == 0) ≡ true
        → free_level_nodes s.pool s.lvl ≡ some (q, l)
        → settle P c.opp i s ≡ some (after_gone q l)
    unfolding settle
    settle_gone q l e f = rw (e, f) refl

  -- The best level uses the taker up.
  module _ (buy : Bool) (c : Cross P) (r : Row) (rs : List Row) (others : List ℕ) (extra : ℕ)
      (s : SweepState) (ns : Chain) where
    pub settle_left-Crossed :
        0 < c.taker.remaining
        → reaches c.taker buy r.price ≡ true
        → leaves c.taker.remaining r.orders ≢ []
        → IsSide P L c.pool c.opp (r ∷ rs) others extra
        → Swept buy (swept_from P L c r.iter) r.chain (row_ids rs ++ others) r.orders s ns
        → Crossed buy c
            (r ∷ rs)
            others
            extra
            (after_left c r.iter s)
            (front_left P L buy c r rs others extra s ns ∷ rs)
    settle_left-Crossed h k ne v w =
        let reach = reaches c.taker buy in
        let q = c.taker.remaining in
        let (t, l, le) = side_left reach q r.price r.orders (quotes rs) h k v.rows.0.live ne in
        let (amount, _, _) = takes_total q r.orders in
        record {
          side = left_side P L buy c r rs others extra s ns v w;
          left = sym l;
          taker =
              w.taker
              ∙ ap (λ n. record (c.taker) { remaining = n })
                  (omega (arith, amount, ap total_taken t));
          events = w.events ∙ ap (λ fs. c.events ++ fill_events c.taker buy fs) (sym t);
          result =
              w.result
              ∙ ap (λ fs. record (c.result) { trades = bumped c.result.trades (length fs) })
                  (sym t);
          node_count = w.node_count;
          id_capacity = w.id_capacity;
          frame = λ n d. w.frame n (ground (arith, has-append n (ids r.chain) (row_ids rs)));
        }

    -- The taker uses the best level up, and goes on.
    pub settle_gone-Crossed :
        (q : Pool) (l : PriceLevel) (c' : Cross P) (rs' : List Row)
        → 0 < c.taker.remaining
        → reaches c.taker buy r.price ≡ true
        → leaves c.taker.remaining r.orders ≡ []
        → Swept buy (swept_from P L c r.iter) r.chain (row_ids rs ++ others) r.orders s ns
        → Released s.pool (row_ids rs ++ others) q
        → Crossed buy (after_gone c r.iter s q l) rs others extra c' rs'
        → Crossed buy c (r ∷ rs) others extra c' rs'
    settle_gone-Crossed q l c' rs' h k e w f v =
        let reach = reaches c.taker buy in
        let n = c.taker.remaining in
        let (t, u, le) = side_gone reach n r.price r.orders (quotes rs) h k e in
        let (amount, _, _) = takes_total n r.orders in
        let first = takes n r.orders in
        let later = takes_side (reaches s.taker buy) s.taker.remaining (quotes rs) in
        let same = reaches_same c.taker s.taker (n - total_remaining r.orders) buy w.taker in
        let left : s.taker.remaining ≡ n - total_remaining r.orders =
          ap (λ (o : Order). o.remaining) w.taker in
        let whole : takes_side reach n (quotes (r ∷ rs)) ≡ first ++ later =
          t ∙ sym (ap₂ (λ g m. first ++ takes_side g m (quotes rs)) same left) in
        let trades = length-append first later in
        record {
          side = v.side;
          left = v.left ∙ ap₂ (λ g m. leaves_side g m (quotes rs)) same left ∙ sym u;
          taker =
              v.taker
              ∙ ap₂ (λ (o : Order) m. record o { remaining = m }) w.taker
                  (omega
                    (arith, left, amount, ap total_taken whole, total_taken-append first later));
          events =
              v.events
              ∙ ap₂ ◌++◌ w.events
                  (same_events c.taker s.taker (n - total_remaining r.orders) buy later w.taker)
              ∙ append_assoc c.events _ _
              ∙ ap (λ es. c.events ++ es) (sym (fill_events-append c.taker buy first later))
              ∙ ap (λ fs. c.events ++ fill_events c.taker buy fs) (sym whole);
          result =
              v.result
              ∙ ap (λ (m : MatchResult). record m { trades = bumped m.trades (length later) })
                  w.result
              ∙ ap (λ k. record (c.result) { trades = k })
                  (sym (bumped-add c.result.trades (length first) (length later))
                    ∙ ap (bumped c.result.trades) (sym trades))
              ∙ ap (λ fs. record (c.result) { trades = bumped c.result.trades (length fs) })
                  (sym whole);
          node_count = v.node_count ∙ f.node_count ∙ w.node_count;
          id_capacity = v.id_capacity ∙ f.id_capacity ∙ w.id_capacity;
          frame = λ j d.
              let out = has-append j (ids r.chain) (row_ids rs) in
              v.frame j (ground (arith, out))
              ∙ ap (λ g. g j) f.nodes
              ∙ w.frame j (ground (arith, out));
        }
