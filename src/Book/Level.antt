-- ===== src/Book/Level.antt =====
-- include/titan/book/price_level.hpp: one price level, a chain of PIN nodes by pool index with
-- its aggregates.
use titan_hft.Common.{ℕ, Bool, ◌==◌, pos}
use titan_hft.Domain.{PriceTick, invalid_index}

pub record PriceLevel : Type 0 where
  pub price : PriceTick
  pub head : ℕ
  pub tail : ℕ
  pub total_qty : ℕ
  pub order_count : ℕ

abbrev pub default_level : PriceLevel
default_level = record {
  price = pos 0;
  head = invalid_index;
  tail = invalid_index;
  total_qty = 0;
  order_count = 0;
}

unfoldable pub empty : PriceLevel → Bool
empty l = l.order_count == 0
