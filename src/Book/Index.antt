-- ===== src/Book/Index.antt =====
-- The container interface that book/order_book.hpp and book/matcher.hpp take as the template
-- parameters BidMapT and AskMapT: a std::map-like index of price levels. An iterator is a node
-- number, and `nil` is end().
pub mod Listing
use titan_hft.Common.{ℕ, Bool, Option, ◌==◌}
use titan_hft.Domain.{PriceTick}
use titan_hft.Book.Level.{PriceLevel}

abbrev pub nil : ℕ
nil = 0

pub record PriceIndex : Type 1 where
  pub Index : Type 0
  pub begin : Index → ℕ
  pub succ : Index → ℕ → ℕ  -- ++it
  pub size : Index → ℕ
  pub find : Index → PriceTick → ℕ
  -- `none` is std::bad_alloc; else the index, the iterator and whether it is new.
  pub try_emplace : Index → PriceTick → Option (Index × ℕ × Bool)
  pub erase : Index → ℕ → Index
  pub level : Index → ℕ → PriceLevel  -- it->second
  pub set_level : Index → ℕ → PriceLevel → Index  -- a write through it->second

abbrev pub is_empty : (P : PriceIndex) → P.Index → Bool
is_empty P m = P.size m == 0
