-- ===== src/Book/Matcher/Priority/Report.antt =====
-- What the taker of a crossing is told: `finish` against the fills of price-time priority.
use titan_hft.Common.{
  ℕ, ◌-◌, ◌≡◌, refl, sym, ap, ap₂, ◌∙◌, subst, inl, inr, Bool, false, not, ◌&&◌, ◌||◌, List, [],
  ◌∷◌, ◌++◌, append-nil, arith, ◌==◌, if◌then◌else◌, Bool-cases, length, u32,
}
use titan_hft.Domain.{Order, TradeEvent, is_limit}
use titan_hft.Book.Index.{PriceIndex}
use titan_hft.Book.Index.Listing.{Listing}
use titan_hft.Book.Pool.{Pool}
use titan_hft.Book.OrderBook.{Book, add}
use titan_hft.Book.Matcher.{Cross, Submitted, finish, emit_reject, reject_event}
use titan_hft.Book.Matcher.Sweep.{MatchResult, no_result}
use titan_hft.Book.Matcher.Priority.{
  takes_side, bumped_lem, reaches, Quotes, total_taken, fill_events, takes_side_bounded,
}
use titan_hft.Book.Matcher.Priority.BookSide.{Row, quotes}
use titan_hft.Book.Matcher.Priority.Crossed.{Crossed}

-- What a taker is told: its fills against the quotes of the other side, in their order and oldest
-- first at each, what is left, and whether that rests or is turned down.
pub record Reported (o : Order) (buy : Bool) (qs : Quotes) (r : MatchResult) (evs : List TradeEvent)
    : Type 0 where
  pub filled : r.filled ≡ total_taken (takes_side (reaches o buy) o.remaining qs)
  pub residual : r.residual ≡ o.remaining - total_taken (takes_side (reaches o buy) o.remaining qs)
  pub trades : r.trades ≡ u32 (length (takes_side (reaches o buy) o.remaining qs))
  pub canceled : r.canceled ≡ false
  pub settled : (not (r.residual == 0) && is_limit o.type) ≡ (r.rested || r.rejected)
  pub either : (r.rested && r.rejected) ≡ false
  pub events :
      evs
      ≡ fill_events o buy (takes_side (reaches o buy) o.remaining qs)
        ++ (if r.rejected then reject_event o ∷ [] else [])

-- Where a crossing by the taker `o` starts.
abbrev pub start : (P : PriceIndex) → Pool → P.Index → Order → Cross P
start P p m o = record { pool = p; opp = m; taker = o; result = no_result; events = [] }

module _ (B A : PriceIndex) where
  -- The end of a submission, for a taker with `left` of `original` left after the fills `es`.
  record Finished (b : Book B A) (original left t : ℕ) (o : Order) (es : List TradeEvent)
      (r : Submitted B A) : Type 0 where
    filled : r.result.filled ≡ original - left
    residual : r.result.residual ≡ left
    trades : r.result.trades ≡ t
    canceled : r.result.canceled ≡ false
    settled : (not (left == 0) && is_limit o.type) ≡ (r.result.rested || r.result.rejected)
    either : (r.result.rested && r.result.rejected) ≡ false
    events : r.events ≡ es ++ (if r.result.rejected then reject_event o ∷ [] else [])
    book : (not (left == 0) && is_limit o.type) ≡ false → r.book ≡ b

  finish_lem :
      (b : Book B A) (original left t : ℕ) (o : Order) (es : List TradeEvent)
      → Finished b original left t o es (
          finish B A b original
            (record o { remaining = left })
            (record no_result { trades = t })
            es)
  unfolding finish emit_reject reject_event
  finish_lem b original left t o es =
      let o1 = record o { remaining = left } in
      elim (Bool-cases (not (left == 0) && is_limit o.type)) [
        | inr e ↦ rw e (record {
          filled = refl;
          residual = refl;
          trades = refl;
          canceled = refl;
          settled = e;
          either = refl;
          events = sym (append-nil es);
          book = λ k. refl;
        })
        | inl e ↦ elim (Bool-cases (add B A b o1).1) [
          | inl k ↦
              rw (e, k)
                (record {
                  filled = refl;
                  residual = refl;
                  trades = refl;
                  canceled = refl;
                  settled = e;
                  either = refl;
                  events = sym (append-nil es);
                  book = λ n. ground (arith, e, n);
                })
          | inr k ↦
              rw (e, k)
                (record {
                  filled = refl;
                  residual = refl;
                  trades = refl;
                  canceled = refl;
                  settled = e;
                  either = refl;
                  events = refl;
                  book = λ n. ground (arith, e, n);
                })
        ]
      ]

  -- What the taker is told after a crossing.
  pub reported :
      (P : PriceIndex) (L : Listing P) (b : Book B A) (o : Order) (buy : Bool) (p : Pool)
      (m : P.Index) (c' : Cross P) (rs : List Row) (others : List ℕ) (extra : ℕ) (rs' : List Row)
      → Crossed P L buy (start P p m o) rs others extra c' rs'
      → let r = finish B A b o.remaining c'.taker c'.result c'.events in
        Reported o buy (quotes rs) r.result r.events
        × ((not (r.result.residual == 0) && is_limit o.type) ≡ false → r.book ≡ b)
  reported P L b o buy p m c' rs others extra rs' x =
      let fs = takes_side (reaches o buy) o.remaining (quotes rs) in
      let left = o.remaining - total_taken fs in
      let t = u32 (length fs) in
      let es = fill_events o buy fs in
      let f = finish_lem b o.remaining left t o es in
      let r = finish B A b o.remaining c'.taker c'.result c'.events in
      let same : finish B A b o.remaining (record o { remaining = left })
            (record no_result { trades = t }) es
          ≡ r =
        ap₂ (λ (a : Order) e. finish B A b o.remaining a (record no_result { trades = t }) e)
          (sym x.taker) (sym x.events)
        ∙ ap (λ (z : MatchResult). finish B A b o.remaining c'.taker z c'.events)
            (ap (λ n. record no_result { trades = n })
                (sym (bumped_lem 0 (length fs) (omega arith) ∙ ap u32 (omega arith)))
              ∙ sym x.result) in
      subst
        (λ (z : Submitted B A).
          Reported o buy (quotes rs) z.result z.events
          × ((not (z.result.residual == 0) && is_limit o.type) ≡ false → z.book ≡ b))
        same
        (
          record {
            filled =
                f.filled
                ∙ omega (arith, takes_side_bounded (reaches o buy) o.remaining (quotes rs));
            residual = f.residual;
            trades = f.trades;
            canceled = f.canceled;
            settled = ap (λ n. not (n == 0) && is_limit o.type) f.residual ∙ f.settled;
            either = f.either;
            events = f.events;
          },
          λ h. f.book (sym (ap (λ n. not (n == 0) && is_limit o.type) f.residual) ∙ h),
        )
