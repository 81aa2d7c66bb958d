-- ===== src/Book/Matcher/Priority/Cross.antt =====
-- `cross` refines price-time priority over one side of the book, and its fuel is enough.
use titan_hft.Common.{
  ℕ, zero, suc, ◌+◌, ◌<◌, ◌≡◌, ◌≢◌, refl, ap, ◌∙◌, inl, inr, Bool, true, false, Option, some, List,
  [], ◌∷◌, ◌++◌, map, arith, ◌==◌, ==→eq, Bool-cases, length,
}
use mathlib.Core.Option
use titan_hft.Domain.{Order, invalid_index}
use titan_hft.Book.Level.{PriceLevel}
use titan_hft.Book.Index.{PriceIndex}
use titan_hft.Book.Index.Listing.{Listing}
use titan_hft.Book.Queue.Release.{free_level_nodes_lem}
use titan_hft.Book.Matcher.{Cross, crosses, settle, cross_level, cross_from, cross}
use titan_hft.Book.Matcher.Sweep.{SweepState, sweep_level}
use titan_hft.Book.Matcher.Priority.{leaves, reaches, side_empty, side_spent, side_out, side_left}
use titan_hft.Book.Matcher.Priority.BookSide.{Row, iters, quotes, row_ids, IsSide, best_level}
use titan_hft.Book.Matcher.Priority.Settle.{swept_from, front_left, gone_side}
use titan_hft.Book.Matcher.Priority.Crossed.{
  Crossed, nothing, after_left, after_gone, settle_left, settle_gone, settle_left-Crossed,
  settle_gone-Crossed,
}
use titan_hft.Book.Matcher.Priority.Sweep.{sweep_level_total}

crosses-reaches :
    (o : Order) (buy : Bool) (l : PriceLevel) → crosses o buy l ≡ reaches o buy l.price
unfolding crosses reaches
crosses-reaches o buy l = ground arith

length-map : (f : Row → ℕ) (rs : List Row) → length (map f rs) ≡ length rs
length-map f [] = refl
length-map f (r ∷ rs) = ap suc (length-map f rs)

no_orders : (os : List Order) → length os ≡ 0 → os ≡ []
no_orders [] e = refl
no_orders (o ∷ os) e = absurd (omega (arith, e))

module _ (P : PriceIndex) (L : Listing P) where
  pub record Crosses (buy : Bool) (c : Cross P) (rs : List Row) (others : List ℕ) (extra : ℕ)
      (r : Option (Cross P)) : Type 0 where
    pub state : Cross P
    pub rows : List Row
    pub returned : r ≡ some state
    pub crossed : Crossed P L buy c rs others extra state rows

  module _ (fuel : ℕ) (buy : Bool) (c : Cross P) where
    cross_spent : (c.taker.remaining == 0) ≡ true → cross_from P (suc fuel) buy c ≡ some c
    unfolding cross_from
    cross_spent e = rw (cross_from, e) refl

    cross_empty :
        (c.taker.remaining == 0) ≡ false → P.size c.opp ≡ 0 → cross_from P (suc fuel) buy c ≡ some c
    unfolding cross_from
    cross_empty e f =
        let none_left : (P.size c.opp == 0) ≡ true = rw f refl in rw (cross_from, e, none_left) refl

    module _ (i : ℕ) (is : List ℕ) where
      cross_out :
          (c.taker.remaining == 0) ≡ false
          → P.size c.opp ≡ length (i ∷ is)
          → P.begin c.opp ≡ i
          → crosses c.taker buy (P.level c.opp i) ≡ false
          → cross_from P (suc fuel) buy c ≡ some c
      unfolding cross_from
      cross_out e f b k =
          let some_left : (P.size c.opp == 0) ≡ false = ground (arith, f) in
          let out : crosses c.taker buy (P.level c.opp (P.begin c.opp)) ≡ false =
            ap (λ j. crosses c.taker buy (P.level c.opp j)) b ∙ k in
          rw (cross_from, e, some_left, out) refl

      cross_round :
          (s : SweepState) (c' : Cross P)
          → (c.taker.remaining == 0) ≡ false
          → P.size c.opp ≡ length (i ∷ is)
          → P.begin c.opp ≡ i
          → crosses c.taker buy (P.level c.opp i) ≡ true
          → sweep_level (c.pool.live_count + 2) buy (swept_from P L c i) ≡ some s
          → settle P c.opp i s ≡ some c'
          → cross_from P (suc fuel) buy c ≡ cross_from P fuel buy c'
      unfolding cross_from cross_level Option.bind
      cross_round s c' e f b k w z =
          let some_left : (P.size c.opp == 0) ≡ false = ground (arith, f) in
          let within : crosses c.taker buy (P.level c.opp (P.begin c.opp)) ≡ true =
            ap (λ j. crosses c.taker buy (P.level c.opp j)) b ∙ k in
          let round : cross_level P buy c ≡ some c' =
            ap
              (λ j.
                Option.bind (sweep_level (c.pool.live_count + 2) buy (swept_from P L c j))
                  (settle P c.opp j))
              b
            ∙ ap (λ o. Option.bind o (settle P c.opp i)) w
            ∙ z in
          rw (cross_from, e, some_left, within)
            (ap (λ o. Option.bind o (cross_from P fuel buy)) round)

  -- A taker with nothing P L left stops.
  spent_stops :
      (fuel : ℕ) (buy : Bool) (c : Cross P)
      → 0 < fuel
      → c.taker.remaining ≡ 0
      → cross_from P fuel buy c ≡ some c
  spent_stops zero buy c h e = absurd (omega arith)
  spent_stops (suc fuel) buy c h e = cross_spent fuel buy c (rw e refl)

  -- A round at a level that the taker reaches, given the crossing of what is left.
  module _ (fuel : ℕ) (buy : Bool) (c : Cross P) (r : Row) (rs : List Row) (others : List ℕ)
      (extra : ℕ) where
    reached :
        length rs < fuel
        → 0 < c.taker.remaining
        → reaches c.taker buy r.price ≡ true
        → IsSide P L c.pool c.opp (r ∷ rs) others extra
        → ((m : Cross P)
            → IsSide P L m.pool m.opp rs others extra
            → Crosses buy m rs others extra (cross_from P fuel buy m))
        → Crosses buy c (r ∷ rs) others extra (cross_from P (suc fuel) buy c)
    reached h k e v on =
        let z =
          sweep_level_total (c.pool.live_count + 2) buy (swept_from P L c r.iter) r.chain
            (row_ids rs ++ others) r.orders (omega (arith, v.enough)) v.bounded
            (best_level P L c.pool c.opp r rs others extra v) in
        let s = z.state in
        let w = z.swept in
        let live : (c.taker.remaining == 0) ≡ false = ground arith in
        let size = L.size c.opp (r.iter ∷ iters rs) v.lists in
        let begin = L.begin c.opp (r.iter ∷ iters rs) v.lists in
        let crossing : crosses c.taker buy (P.level c.opp r.iter) ≡ true =
          crosses-reaches c.taker buy (P.level c.opp r.iter)
          ∙ ap (reaches c.taker buy) v.rows.0.price
          ∙ e in
        elim (Bool-cases (s.lvl.order_count == 0)) [
          | inr b ↦
              let c' = after_left P L c r.iter s in
              let some_left : leaves c.taker.remaining r.orders ≢ [] =
                λ n. ground (arith, w.level.counted, ap length n) in
              let x = settle_left-Crossed P L buy c r rs others extra s z.nodes k e some_left v w in
              let (_, _, le) =
                side_left (reaches c.taker buy) c.taker.remaining r.price r.orders (quotes rs) k e
                  v.rows.0.live some_left in
              record {
                state = c';
                rows = front_left P L buy c r rs others extra s z.nodes ∷ rs;
                returned =
                    cross_round fuel buy c r.iter (iters rs) s c' live size begin crossing
                      z.returned (settle_left P L c r.iter s b)
                    ∙ spent_stops fuel buy c' (omega arith)
                        (omega (arith, le, ap (λ (o : Order). o.remaining) w.taker));
                crossed = x;
              }
          | inl b ↦
              let none_left : leaves c.taker.remaining r.orders ≡ [] =
                no_orders (leaves c.taker.remaining r.orders) (ground (arith, w.level.counted)) in
              let (q, f, g, _) =
                free_level_nodes_lem s.pool s.lvl z.nodes (row_ids rs ++ others) w.level.linked in
              let l = record (s.lvl) { head = invalid_index; tail = invalid_index } in
              let c' = after_gone P L c r.iter s q l in
              let y = on c' (gone_side P L buy c r rs others extra s z.nodes q l none_left v w g) in
              record {
                state = y.state;
                rows = y.rows;
                returned =
                    cross_round fuel buy c r.iter (iters rs) s c' live size begin crossing
                      z.returned (settle_gone P L c r.iter s q l b f)
                    ∙ y.returned;
                crossed =
                    settle_gone-Crossed P L buy c r rs others extra s z.nodes q l y.state y.rows k e
                      none_left w g y.crossed;
              }
        ]

  cross_from_lem :
      (fuel : ℕ) (buy : Bool) (c : Cross P) (rs : List Row) (others : List ℕ) (extra : ℕ)
      → length rs < fuel
      → IsSide P L c.pool c.opp rs others extra
      → Crosses buy c rs others extra (cross_from P fuel buy c)
  cross_from_lem zero buy c rs others extra h v = absurd (omega arith)
  cross_from_lem (suc fuel) buy c [] others extra h v =
      let (t, l) = side_empty (reaches c.taker buy) c.taker.remaining in
      let crossed = nothing P L buy c [] others extra v t l in
      elim (Bool-cases (c.taker.remaining == 0)) [
        | inl e ↦ record {
          state = c;
          rows = [];
          returned = cross_spent fuel buy c e;
          crossed = crossed;
        }
        | inr e ↦ record {
          state = c;
          rows = [];
          returned = cross_empty fuel buy c e (L.size c.opp [] v.lists);
          crossed = crossed;
        }
      ]
  cross_from_lem (suc fuel) buy c (r ∷ rs) others extra h v =
      elim (Bool-cases (c.taker.remaining == 0)) [
        | inl e ↦
            let (t, l) =
              side_spent (reaches c.taker buy) c.taker.remaining (quotes (r ∷ rs))
                (==→eq c.taker.remaining 0 e) in
            record {
              state = c;
              rows = r ∷ rs;
              returned = cross_spent fuel buy c e;
              crossed = nothing P L buy c (r ∷ rs) others extra v t l;
            }
        | inr e ↦ elim (Bool-cases (reaches c.taker buy r.price)) [
          | inl k ↦
              reached fuel buy c r rs others extra (omega arith) (ground arith) k v
                (λ m u. cross_from_lem fuel buy m rs others extra (omega arith) u)
          | inr k ↦
              let (t, l) =
                side_out (reaches c.taker buy) c.taker.remaining r.price r.orders (quotes rs) k in
              record {
                state = c;
                rows = r ∷ rs;
                returned =
                    cross_out fuel buy c r.iter (iters rs) e
                      (L.size c.opp (r.iter ∷ iters rs) v.lists)
                      (L.begin c.opp (r.iter ∷ iters rs) v.lists)
                      (crosses-reaches c.taker buy (P.level c.opp r.iter)
                        ∙ ap (reaches c.taker buy) v.rows.0.price
                        ∙ k);
                crossed = nothing P L buy c (r ∷ rs) others extra v t l;
              }
        ]
      ]

  -- cross returns, on a well-formed side over an index that keeps its promises: the taker, the
  -- events and the trade count are those of the fills of price-time priority against its quotes,
  -- taken in the order of the index, and the side stays well-formed with the quotes that these
  -- fills leave, the other nodes as they were.
  pub cross_lem :
      (buy : Bool) (c : Cross P) (rs : List Row) (others : List ℕ) (extra : ℕ)
      → IsSide P L c.pool c.opp rs others extra
      → Crosses buy c rs others extra (cross P buy c)
  unfolding cross
  cross_lem buy c rs others extra v =
      cross_from_lem (P.size c.opp + 2) buy c rs others extra
        (omega (arith, L.size c.opp (iters rs) v.lists, length-map (λ (r : Row). r.iter) rs)) v
