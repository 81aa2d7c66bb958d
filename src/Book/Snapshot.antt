-- ===== src/Book/Snapshot.antt =====
-- serialize_l2 of include/titan/book/order_book.hpp, with the records of book/snapshot.hpp: the
-- image of the best levels of a book, bids first.
use titan_hft.Common.{
  ℕ, zero, suc, ◌+◌, ◌*◌, ◌/◌, ◌≤◌, ◌≡◌, refl, sym, ap, subst, inl, inr, List, [], ◌∷◌, ◌++◌, arith,
  ◌==◌, if◌then◌else◌, Bool-cases, length, take, drop, length-append, All, u32, u64, cast_u64,
}
use titan_hft.Domain.{PriceTick}
use titan_hft.Book.Level.{PriceLevel}
use titan_hft.Book.Index.{nil, PriceIndex}
use titan_hft.Book.OrderBook.{Book}

abbrev pub snapshot_magic : ℕ
snapshot_magic = 0x544954414E534E50

abbrev pub snapshot_version : ℕ
snapshot_version = 1

pub record SnapshotLevel : Type 0 where
  pub price : PriceTick
  pub total_qty : ℕ
  pub order_count : ℕ
  pub side : ℕ

pub record SnapshotHeader : Type 0 where
  pub magic : ℕ
  pub version : ℕ
  pub level_count : ℕ
  pub feed_seq : ℕ
  pub bid_levels : ℕ
  pub ask_levels : ℕ
  pub checksum : ℕ

-- The levels up to `level_count`; those behind keep what they held.
pub record SnapshotBuffer : Type 0 where
  pub header : SnapshotHeader
  pub levels : List SnapshotLevel

emit_level : PriceLevel → ℕ → SnapshotLevel
emit_level l side = record {
  price = l.price;
  total_qty = l.total_qty;
  order_count = l.order_count;
  side = side;
}

-- What a level adds to the checksum.
level_sum : SnapshotLevel → ℕ
level_sum l = cast_u64 l.price + l.total_qty + l.order_count + l.side

unfoldable pub checksum : List SnapshotLevel → ℕ
unfolding level_sum
checksum [] = 0
checksum (l ∷ ls) = u64 (level_sum l + checksum ls)

-- At most `n` levels of one side, from the iterator `it` on.
unfoldable pub emit_side : (P : PriceIndex) → P.Index → (side n it : ℕ) → List SnapshotLevel
unfolding emit_level
emit_side P m side zero it = []
emit_side P m side (suc n) it =
    let rest = emit_side P m side n (P.succ m it) in
    if it == nil then [] else emit_level (P.level m it) side ∷ rest

unfoldable pub serialize_l2 :
    (B A : PriceIndex) → Book B A → (max_levels feed_seq : ℕ) → SnapshotBuffer
unfolding emit_side checksum
serialize_l2 B A b max_levels feed_seq =
    let half = u32 (max_levels / 2) in
    let bids = emit_side B b.bids 0 half (B.begin b.bids) in
    let asks = emit_side A b.asks 1 half (A.begin b.asks) in
    record {
      header = record {
        magic = snapshot_magic;
        version = snapshot_version;
        level_count = length (bids ++ asks);
        feed_seq = feed_seq;
        bid_levels = length bids;
        ask_levels = length asks;
        checksum = checksum (bids ++ asks);
      };
      levels = bids ++ asks;
    }

length-emit_side-le :
    (P : PriceIndex) (m : P.Index) (side n it : ℕ) → length (emit_side P m side n it) ≤ n
unfolding emit_side
length-emit_side-le P m side zero it = omega arith
length-emit_side-le P m side (suc n) it =
    ground (arith, length-emit_side-le P m side n (P.succ m it))

sides-emit_side :
    (P : PriceIndex) (m : P.Index) (side n it : ℕ)
    → All (λ l. SnapshotLevel.side l ≡ side) (emit_side P m side n it)
unfolding emit_side emit_level
sides-emit_side P m side zero it = tt
sides-emit_side P m side (suc n) it = elim (Bool-cases (it == nil)) [
  | inl e ↦ rw e tt
  | inr e ↦ rw e (refl, sides-emit_side P m side n (P.succ m it))
]

take-append_length : (xs ys : List SnapshotLevel) → take (length xs) (xs ++ ys) ≡ xs
take-append_length [] ys = refl
take-append_length (x ∷ xs) ys = ap (λ l. x ∷ l) (take-append_length xs ys)

drop-append_length : (xs ys : List SnapshotLevel) → drop (length xs) (xs ++ ys) ≡ ys
drop-append_length [] ys = refl
drop-append_length (x ∷ xs) ys = drop-append_length xs ys

-- An image of a buffer of 56 levels fits into a datagram of 1440 bytes, header included, and
-- lists its bids before its asks, at most half of the levels each.
pub serialize_l2_fits :
    (B A : PriceIndex) (b : Book B A) (feed_seq : ℕ)
    → let s = serialize_l2 B A b 56 feed_seq in
      (64 + 24 * s.header.level_count ≤ 1440)
      × (s.header.bid_levels ≤ 28)
      × (s.header.ask_levels ≤ 28)
      × (s.header.level_count ≡ s.header.bid_levels + s.header.ask_levels)
      × (s.header.level_count ≡ length s.levels)
      × (All (λ l. SnapshotLevel.side l ≡ 0) (take s.header.bid_levels s.levels))
      × (All (λ l. SnapshotLevel.side l ≡ 1) (drop s.header.bid_levels s.levels))
unfolding serialize_l2
serialize_l2_fits B A b feed_seq =
    let bids = emit_side B b.bids 0 28 (B.begin b.bids) in
    let asks = emit_side A b.asks 1 28 (A.begin b.asks) in
    let n = length-emit_side-le B b.bids 0 28 (B.begin b.bids) in
    let m = length-emit_side-le A b.asks 1 28 (A.begin b.asks) in
    let k = length-append bids asks in
    (
      omega (arith, n, m, k),
      n,
      m,
      k,
      refl,
      subst (All _) (sym (take-append_length bids asks))
          (sides-emit_side B b.bids 0 28 (B.begin b.bids)),
      subst (All _) (sym (drop-append_length bids asks))
          (sides-emit_side A b.asks 1 28 (A.begin b.asks)),
    )
