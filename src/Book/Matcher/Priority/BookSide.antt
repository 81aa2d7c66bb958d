-- ===== src/Book/Matcher/Priority/BookSide.antt =====
-- A side of the order book: the levels of a price index, each with its chain of nodes.
use titan_hft.Common.{
  ℕ, ◌+◌, ◌^◌, ◌≤◌, ◌<◌, ◌≡◌, sym, ap, ◌∙◌, subst, inl, inr, true, false, List, [], ◌∷◌, ◌++◌, map,
  append_assoc, arith, ◌==◌, ==→eq, eq_refl, Bool-cases, length, has, last_or, All, has-append,
  Distinct-apart,
}
use titan_hft.Domain.{PriceTick, Order, invalid_index}
use titan_hft.PinNode.{PinNode}
use titan_hft.Book.Level.{PriceLevel}
use titan_hft.Book.Index.{PriceIndex}
use titan_hft.Book.Index.Listing.{Listing}
use titan_hft.Book.Pool.{Pool}
use titan_hft.Book.Queue.{Chain, ids, IsChain, queue, IsPool, body, IsChain-frame}
use titan_hft.Book.Matcher.Priority.{Quotes, total_remaining, IsLive}
use titan_hft.Book.Matcher.Priority.Round.{IsLevel}

-- A level with its iterator, the nodes of its chain and its orders, oldest first.
pub record Row : Type 0 where
  pub iter : ℕ
  pub price : PriceTick
  pub chain : Chain
  pub orders : List Order

abbrev pub iters : List Row → List ℕ
iters rs = map (λ (r : Row). r.iter) rs

abbrev pub quotes : List Row → Quotes
quotes rs = map (λ (r : Row). (r.price, r.orders)) rs

abbrev pub row_ids : List Row → List ℕ
row_ids [] = []
row_ids (r ∷ rs) = ids r.chain ++ row_ids rs

abbrev pub total_orders : List Row → ℕ
total_orders [] = 0
total_orders (r ∷ rs) = length r.orders + total_orders rs

pub record IsRow (nodes : ℕ → PinNode) (l : PriceLevel) (r : Row) : Type 0 where
  pub price : l.price ≡ r.price
  pub chain : IsChain nodes l.head r.chain
  pub last : l.tail ≡ last_or invalid_index (ids r.chain)
  pub holds : queue nodes r.chain ≡ r.orders
  pub counted : l.order_count ≡ length r.orders
  pub summed : l.total_qty ≡ total_remaining r.orders
  pub live : IsLive r.orders

abbrev pub Rows : (ℕ → PinNode) → (ℕ → PriceLevel) → List Row → Type 0
Rows nodes level rs = All (λ (r : Row). IsRow nodes (level r.iter) r) rs

IsRow-frame :
    (nodes nodes' : ℕ → PinNode) (l : PriceLevel) (r : Row)
    → ((k : ℕ) → has k (ids r.chain) ≡ true → nodes' k ≡ nodes k)
    → IsRow nodes l r
    → IsRow nodes' l r
IsRow-frame nodes nodes' l r same v =
    let (c, q) = IsChain-frame nodes nodes' l.head r.chain (λ k h. ap body (same k h)) v.chain in
    record {
      price = v.price;
      chain = c;
      last = v.last;
      holds = q ∙ v.holds;
      counted = v.counted;
      summed = v.summed;
      live = v.live;
    }

-- The levels outlive any change that spares their nodes and their entries in the index.
pub Rows-frame :
    (nodes nodes' : ℕ → PinNode) (level level' : ℕ → PriceLevel) (rs : List Row)
    → ((k : ℕ) → has k (row_ids rs) ≡ true → nodes' k ≡ nodes k)
    → ((i : ℕ) → has i (iters rs) ≡ true → level' i ≡ level i)
    → Rows nodes level rs
    → Rows nodes' level' rs
Rows-frame nodes nodes' level level' [] same kept v = tt
Rows-frame nodes nodes' level level' (r ∷ rs) same kept v = (
  subst (λ l. IsRow nodes' l r) (sym (kept r.iter (ground (arith, eq_refl r.iter))))
      (IsRow-frame nodes nodes' (level r.iter) r
        (λ k h. same k (ground (arith, has-append k (ids r.chain) (row_ids rs)))) v.0),
  Rows-frame nodes nodes' level level' rs
      (λ k h. same k (ground (arith, has-append k (ids r.chain) (row_ids rs))))
      (λ i h. kept i (ground arith)) v.1,
)

module _ (P : PriceIndex) (L : Listing P) where
  -- The index `m` lists the levels `rs`. The pool has `extra` more live orders, and
  -- `others` are the nodes of the other side.
  pub record IsSide (p : Pool) (m : P.Index) (rs : List Row) (others : List ℕ) (extra : ℕ)
      : Type 0 where
    pub lists : L.Lists m (iters rs)
    pub rows : Rows p.nodes (P.level m) rs
    pub pool : IsPool p (row_ids rs ++ others)
    pub enough : total_orders rs + extra ≤ p.live_count
    pub bounded : p.live_count < 2 ^ 64

  -- The best level, by itself.
  pub best_level :
      (p : Pool) (m : P.Index) (r : Row) (rs : List Row) (others : List ℕ) (extra : ℕ)
      → IsSide p m (r ∷ rs) others extra
      → IsLevel p (P.level m r.iter) r.chain (row_ids rs ++ others) r.orders
  best_level p m r rs others extra v =
      let (row, rest) = v.rows in
      record {
        linked = record {
          chain = row.chain;
          last = row.last;
          pool = subst (IsPool p) (append_assoc (ids r.chain) (row_ids rs) others) v.pool;
        };
        holds = row.holds;
        counted = row.counted;
        summed = row.summed;
        live = row.live;
      }

  -- The best level and the others have no node and no iterator in common.
  pub rows_apart :
      (p : Pool) (m : P.Index) (r : Row) (rs : List Row) (others : List ℕ) (extra : ℕ)
      → IsSide p m (r ∷ rs) others extra
      → ((k : ℕ) → has k (row_ids rs) ≡ true → has k (ids r.chain) ≡ false)
        × ((i : ℕ) → has i (iters rs) ≡ true → (i == r.iter) ≡ false)
  rows_apart p m r rs others extra v =
      let used = ids r.chain ++ (row_ids rs ++ others) in
      let (_, d, _) =
        Distinct-apart p.free_nodes used
          (best_level p m r rs others extra v).linked.pool.distinct in
      let (_, _, apart) = Distinct-apart (ids r.chain) (row_ids rs ++ others) d in
      let d' = L.distinct m (r.iter ∷ iters rs) v.lists in
      (
        λ k h. elim (Bool-cases (has k (ids r.chain))) [
          | inr e ↦ e
          | inl e ↦ absurd (ground (arith, apart k e, has-append k (row_ids rs) others))
        ],
        λ i h. elim (Bool-cases (i == r.iter)) [
          | inr e ↦ e
          | inl e ↦
              absurd
                (ground (arith, d'.0, subst (λ j. has j (iters rs) ≡ true) (==→eq i r.iter e) h))
        ],
      )
