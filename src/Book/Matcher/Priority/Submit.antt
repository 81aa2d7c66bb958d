-- ===== src/Book/Matcher/Priority/Submit.antt =====
-- `submit` refines price-time priority over the book, and it always returns.
use titan_hft.Common.{
  ℕ, ◌≡◌, refl, sym, subst, ◌⊎◌, inl, inr, Bool, true, false, not, ◌&&◌, Option, some, List, [],
  ◌++◌, arith, ◌==◌, if◌then◌else◌, ==→eq, Bool-cases, has, Distinct, has-append, Distinct-apart,
  Distinct-append,
}
use titan_hft.Domain.{Order, is_limit, is_cancel, is_buy, is_admissible}
use titan_hft.Book.Index.{PriceIndex}
use titan_hft.Book.Index.Listing.{Listing}
use titan_hft.Book.Pool.{Pool}
use titan_hft.Book.OrderBook.{Book}
use titan_hft.Book.Queue.{IsPool}
use titan_hft.Book.Matcher.{Cross, Submitted, submit, finish, cross_asks, cross_bids}
use titan_hft.Book.Matcher.Sweep.{no_result}
use titan_hft.Book.Matcher.Priority.{leaves_side, reaches, side_spent}
use titan_hft.Book.Matcher.Priority.Report.{Reported, reported, start}
use titan_hft.Book.Matcher.Priority.BookSide.{
  Row, quotes, row_ids, total_orders, Rows-frame, IsSide,
}
use titan_hft.Book.Matcher.Priority.Crossed.{Crossed, nothing}
use titan_hft.Book.Matcher.Priority.Cross.{cross_lem}

Distinct-swap : (xs ys zs : List ℕ) → Distinct (xs ++ (ys ++ zs)) → Distinct (xs ++ (zs ++ ys))
Distinct-swap xs ys zs d =
    let (a, b, c) = Distinct-apart xs (ys ++ zs) d in
    let (e, f, g) = Distinct-apart ys zs b in
    Distinct-append xs (zs ++ ys) a
      (Distinct-append zs ys f e (λ k h. elim (Bool-cases (has k ys)) [
        | inr n ↦ n
        | inl n ↦ absurd (ground (arith, g k n))
      ]))
      (λ k h. ground (arith, c k h, has-append k ys zs, has-append k zs ys))

IsPool-swap : (p : Pool) (xs ys : List ℕ) → IsPool p (xs ++ ys) → IsPool p (ys ++ xs)
IsPool-swap p xs ys v = record {
  distinct = Distinct-swap p.free_nodes xs ys v.distinct;
  bounded = λ k h. v.bounded k (
      ground (
        arith,
        has-append k p.free_nodes (xs ++ ys),
        has-append k p.free_nodes (ys ++ xs),
        has-append k xs ys,
        has-append k ys xs,
      ));
  covered = λ k h. ground (
    arith,
    v.covered k h,
    has-append k p.free_nodes (xs ++ ys),
    has-append k p.free_nodes (ys ++ xs),
    has-append k xs ys,
    has-append k ys xs,
  );
  few = v.few;
}

-- The other side outlives a crossing.
module _ (P Q : PriceIndex) (L : Listing P) (M : Listing Q) where
  other_side :
      (buy : Bool) (c c' : Cross P) (rs rs' : List Row) (m : Q.Index) (qs : List Row)
      → IsSide Q M c.pool m qs (row_ids rs) (total_orders rs)
      → Crossed P L buy c rs (row_ids qs) (total_orders qs) c' rs'
      → IsSide Q M c'.pool m qs (row_ids rs') (total_orders rs')
  other_side buy c c' rs rs' m qs v x =
      let (_, d, _) = Distinct-apart c.pool.free_nodes (row_ids qs ++ row_ids rs) v.pool.distinct in
      let (_, _, apart) = Distinct-apart (row_ids qs) (row_ids rs) d in
      record {
        lists = v.lists;
        rows =
            Rows-frame c.pool.nodes c'.pool.nodes (Q.level m) (Q.level m) qs
              (λ k h. x.frame k (apart k h)) (λ i h. refl) v.rows;
        pool = IsPool-swap c'.pool (row_ids rs') (row_ids qs) x.side.pool;
        enough = omega (arith, x.side.enough);
        bounded = x.side.bounded;
      }

module _ (B A : PriceIndex) (LB : Listing B) (LA : Listing A) where
  -- A well-formed book, with the levels of its two sides.
  pub record IsBook (b : Book B A) (bs ss : List Row) : Type 0 where
    pub bids : IsSide B LB b.pool b.bids bs (row_ids ss) (total_orders ss)
    pub asks : IsSide A LA b.pool b.asks ss (row_ids bs) (total_orders bs)

or_else : {X : Type 0} → (c : Bool) → (c ≡ false → X) → (c ≡ true) ⊎ X
or_else true f = inl refl
or_else false f = inr (f refl)

-- The rows of the side that a taker trades against, and of its own side.
abbrev pub against : Bool → (bs ss : List Row) → List Row
against buy bs ss = if buy then ss else bs

abbrev pub along : Bool → (bs ss : List Row) → List Row
along buy bs ss = if buy then bs else ss

module _ (B A : PriceIndex) (LB : Listing B) (LA : Listing A) where
  -- The outcome of `submit` for an order that is no cancel and is admissible.
  pub record Submits (buy : Bool) (o : Order) (bs ss : List Row) (res : Option (Submitted B A))
      : Type 0 where
    pub outcome : Submitted B A
    pub returned : res ≡ some outcome
    pub reported_by : Reported o buy (quotes (against buy bs ss)) outcome.result outcome.events
    pub book :
        ((not (outcome.result.residual == 0) && is_limit o.type) ≡ true)
        ⊎ ((bs' : List Row) × (ss' : List Row) × IsBook B A LB LA outcome.book bs' ss'
            × (along buy bs' ss' ≡ along buy bs ss)
            × (quotes (against buy bs' ss')
                ≡ leaves_side (reaches o buy) o.remaining (quotes (against buy bs ss))))

  submit_buy :
      (b : Book B A) (bs ss : List Row) (o : Order)
      → IsBook B A LB LA b bs ss
      → Submits true o bs ss (cross_asks B A b o)
  unfolding cross_asks
  submit_buy b bs ss o v =
      let y =
        cross_lem A LA true (start A b.pool b.asks o) ss (row_ids bs) (total_orders bs) v.asks in
      let c = y.state in
      let b1 : Book B A = record b { pool = c.pool; asks = c.opp } in
      let (t, k) =
        reported B A A LA b1 o true b.pool b.asks c ss (row_ids bs) (total_orders bs) y.rows
          y.crossed in
      record {
        outcome = finish B A b1 o.remaining c.taker c.result c.events;
        returned = rw (y.returned) refl;
        reported_by = t;
        book =
            or_else
              (not ((finish B A b1 o.remaining c.taker c.result c.events).result.residual == 0)
                && is_limit o.type)
              (λ h. (
                bs,
                y.rows,
                subst (λ z. IsBook B A LB LA z bs y.rows) (sym (k h))
                    (record {
                      bids =
                          other_side A B LA LB true (start A b.pool b.asks o) c ss y.rows b.bids bs
                            v.bids y.crossed;
                      asks = y.crossed.side;
                    }),
                refl,
                y.crossed.left,
              ));
      }

  submit_sell :
      (b : Book B A) (bs ss : List Row) (o : Order)
      → IsBook B A LB LA b bs ss
      → Submits false o bs ss (cross_bids B A b o)
  unfolding cross_bids
  submit_sell b bs ss o v =
      let y =
        cross_lem B LB false (start B b.pool b.bids o) bs (row_ids ss) (total_orders ss) v.bids in
      let c = y.state in
      let b1 : Book B A = record b { pool = c.pool; bids = c.opp } in
      let (t, k) =
        reported B A B LB b1 o false b.pool b.bids c bs (row_ids ss) (total_orders ss) y.rows
          y.crossed in
      record {
        outcome = finish B A b1 o.remaining c.taker c.result c.events;
        returned = rw (y.returned) refl;
        reported_by = t;
        book =
            or_else
              (not ((finish B A b1 o.remaining c.taker c.result c.events).result.residual == 0)
                && is_limit o.type)
              (λ h. (
                y.rows,
                ss,
                subst (λ z. IsBook B A LB LA z y.rows ss) (sym (k h))
                    (record {
                      bids = y.crossed.side;
                      asks =
                          other_side B A LB LA false (start B b.pool b.bids o) c bs y.rows b.asks ss
                            v.asks y.crossed;
                    }),
                refl,
                y.crossed.left,
              ));
      }

  -- An order of nothing.
  submit_nothing :
      (buy : Bool) (b : Book B A) (bs ss : List Row) (o : Order)
      → o.remaining ≡ 0
      → IsBook B A LB LA b bs ss
      → Submits buy o bs ss (some (finish B A b o.remaining o no_result []))
  submit_nothing true b bs ss o e v =
      let (t, l) = side_spent (reaches o true) o.remaining (quotes ss) e in
      let c = start A b.pool b.asks o in
      let x = nothing A LA true c ss (row_ids bs) (total_orders bs) v.asks t l in
      let (r, k) =
        reported B A A LA b o true b.pool b.asks c ss (row_ids bs) (total_orders bs) ss x in
      record {
        outcome = finish B A b o.remaining o no_result [];
        returned = refl;
        reported_by = r;
        book =
            or_else
              (not ((finish B A b o.remaining o no_result []).result.residual == 0)
                && is_limit o.type)
              (λ h. (bs, ss, subst (λ z. IsBook B A LB LA z bs ss) (sym (k h)) v, refl, sym l));
      }
  submit_nothing false b bs ss o e v =
      let (t, l) = side_spent (reaches o false) o.remaining (quotes bs) e in
      let c = start B b.pool b.bids o in
      let x = nothing B LB false c bs (row_ids ss) (total_orders ss) v.bids t l in
      let (r, k) =
        reported B A B LB b o false b.pool b.bids c bs (row_ids ss) (total_orders ss) bs x in
      record {
        outcome = finish B A b o.remaining o no_result [];
        returned = refl;
        reported_by = r;
        book =
            or_else
              (not ((finish B A b o.remaining o no_result []).result.residual == 0)
                && is_limit o.type)
              (λ h. (bs, ss, subst (λ z. IsBook B A LB LA z bs ss) (sym (k h)) v, refl, sym l));
      }

  -- submit of an admissible order that is no CANCEL returns, on a well-formed book over indexes
  -- that keep their promises. The taker is filled against the quotes of the other side in the
  -- order of its index, down to the last price that it reaches, and by arrival at each price; the
  -- reported quantities and the events are those of these fills, with one rejection at the end
  -- just when a LIMIT order has something left that does not rest. Unless a LIMIT order has
  -- something left, the book stays well-formed: its own side keeps its levels, and the other side
  -- has the quotes that the fills leave.
  pub submit_total :
      (b : Book B A) (bs ss : List Row) (o : Order)
      → IsBook B A LB LA b bs ss
      → is_cancel o.type ≡ false
      → is_admissible o ≡ true
      → Submits (is_buy o.side) o bs ss (submit B A b o)
  unfolding submit
  submit_total b bs ss o v c a = elim (Bool-cases (o.remaining == 0)) [
    | inl e ↦
        let nil : submit B A b o ≡ some (finish B A b o.remaining o no_result []) =
          rw (c, a, e) refl in
        subst (Submits (is_buy o.side) o bs ss) (sym nil)
          (submit_nothing (is_buy o.side) b bs ss o (==→eq o.remaining 0 e) v)
    | inr e ↦ elim (Bool-cases (is_buy o.side)) [
      | inl k ↦ rw (c, a, e, k) (submit_buy b bs ss o v)
      | inr k ↦ rw (c, a, e, k) (submit_sell b bs ss o v)
    ]
  ]
