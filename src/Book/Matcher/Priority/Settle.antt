-- ===== src/Book/Matcher/Priority/Settle.antt =====
-- A side of the book after the sweep of its best level: the level stays with what is left, or goes.
use titan_hft.Common.{
  ℕ, ◌≡◌, sym, ap, ◌∙◌, subst, Bool, true, List, [], ◌∷◌, ◌++◌, append_assoc, arith, eq_refl,
  length, has,
}
use titan_hft.Book.Level.{PriceLevel}
use titan_hft.Book.Index.{PriceIndex}
use titan_hft.Book.Index.Listing.{Listing}
use titan_hft.Book.Pool.{Pool}
use titan_hft.Book.Queue.{Chain, ids, IsChain, IsPool}
use titan_hft.Book.Queue.Release.{Released}
use titan_hft.Book.Matcher.{Cross}
use titan_hft.Book.Matcher.Sweep.{SweepState}
use titan_hft.Book.Matcher.Priority.{leaves}
use titan_hft.Book.Matcher.Priority.BookSide.{Row, iters, row_ids, Rows-frame, IsSide, rows_apart}
use titan_hft.Book.Matcher.Priority.Swept.{Swept}

module _ (P : PriceIndex) (L : Listing P) where
  abbrev pub swept_from : Cross P → ℕ → SweepState
  swept_from c it = record {
    pool = c.pool;
    lvl = P.level c.opp it;
    taker = c.taker;
    result = c.result;
    events = c.events;
  }

  -- The best level after its sweep, when orders are left.
  module _ (buy : Bool) (c : Cross P) (r : Row) (rs : List Row) (others : List ℕ) (extra : ℕ)
      (s : SweepState) (ns : Chain) where
    abbrev pub front_left : Row
    front_left = record r { chain = ns; orders = leaves c.taker.remaining r.orders }

    pub left_side :
        IsSide P L c.pool c.opp (r ∷ rs) others extra
        → Swept buy (swept_from c r.iter) r.chain (row_ids rs ++ others) r.orders s ns
        → IsSide P L s.pool (P.set_level c.opp r.iter s.lvl) (front_left ∷ rs) others extra
    left_side v w =
        let level : P.level (P.set_level c.opp r.iter s.lvl) r.iter ≡ s.lvl =
          L.level-set_level c.opp r.iter r.iter s.lvl ∙ ground (arith, eq_refl r.iter) in
        let (nodes, apart) = rows_apart P L c.pool c.opp r rs others extra v in
        let l = w.level.linked in
        record {
          lists = L.set_level c.opp (r.iter ∷ iters rs) r.iter s.lvl v.lists;
          rows = (
            record {
              price = ap (λ (a : PriceLevel). a.price) level ∙ w.price ∙ v.rows.0.price;
              chain =
                  subst (λ (a : PriceLevel). IsChain s.pool.nodes a.head ns) (sym level) l.chain;
              last = ap (λ (a : PriceLevel). a.tail) level ∙ l.last;
              holds = w.level.holds;
              counted = ap (λ (a : PriceLevel). a.order_count) level ∙ w.level.counted;
              summed = ap (λ (a : PriceLevel). a.total_qty) level ∙ w.level.summed;
              live = w.level.live;
            },
            Rows-frame c.pool.nodes s.pool.nodes (P.level c.opp)
                (P.level (P.set_level c.opp r.iter s.lvl)) rs (λ k h. w.frame k (nodes k h))
                (λ i h. L.level-set_level c.opp r.iter i s.lvl ∙ ground (arith, apart i h))
                v.rows.1,
          );
          pool = subst (IsPool s.pool) (sym (append_assoc (ids ns) (row_ids rs) others)) l.pool;
          enough = omega (arith, v.enough, w.live_count);
          bounded = w.bounded;
        }

    -- The same when none is left: the nodes go back, and the level goes.
    pub gone_side :
        (q : Pool) (l : PriceLevel)
        → leaves c.taker.remaining r.orders ≡ []
        → IsSide P L c.pool c.opp (r ∷ rs) others extra
        → Swept buy (swept_from c r.iter) r.chain (row_ids rs ++ others) r.orders s ns
        → Released s.pool (row_ids rs ++ others) q
        → IsSide P L q (P.erase (P.set_level c.opp r.iter l) r.iter) rs others extra
    gone_side q l e v w f =
        let (nodes, apart) = rows_apart P L c.pool c.opp r rs others extra v in
        let m = P.set_level c.opp r.iter l in
        let is = r.iter ∷ iters rs in
        let listed = L.set_level c.opp is r.iter l v.lists in
        let here : has r.iter is ≡ true = ground (arith, eq_refl r.iter) in
        record {
          lists =
              subst (L.Lists (P.erase m r.iter)) (ground (arith, eq_refl r.iter))
                (L.erase m is r.iter listed here);
          rows =
              Rows-frame c.pool.nodes q.nodes (P.level c.opp) (P.level (P.erase m r.iter)) rs
                (λ k h. ap (λ g. g k) f.nodes ∙ w.frame k (nodes k h))
                (λ i h.
                  L.level-erase m is r.iter i listed here
                  ∙ L.level-set_level c.opp r.iter i l
                  ∙ ground (arith, apart i h))
                v.rows.1;
          pool = f.pool;
          enough = omega (arith, v.enough, w.live_count, f.live_count, ap length e);
          bounded = omega (arith, w.bounded, f.live_count);
        }
