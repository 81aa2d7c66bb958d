-- ===== src/Domain.antt =====
-- include/titan/domain/types.hpp, book/order.hpp and book/trade_event.hpp: the scalar types, the
-- order envelope and the trade event, with the admissibility gate on prices.
use titan_hft.Common.{ℕ, ◌^◌, ℤ, pos, Bool, true, false, ◌&&◌, ◌||◌, leb_ℤ}

-- `int64_t` ticks.
abbrev pub PriceTick : Type 0
PriceTick = ℤ

pub data Side : Type 0 where
  buy sell : Side

pub data OrderType : Type 0 where
  limit market ioc cancel : OrderType

abbrev pub invalid_index : ℕ
invalid_index = 0xFFFFFFFF

abbrev pub min_valid_price : PriceTick
min_valid_price = pos 1

abbrev pub max_valid_price : PriceTick
max_valid_price = pos (2 ^ 20)

unfoldable pub is_valid_price : PriceTick → Bool
is_valid_price p = leb_ℤ min_valid_price p && leb_ℤ p max_valid_price

-- The padding bytes carry nothing and are left out.
pub record Order : Type 0 where
  pub id : ℕ
  pub seq : ℕ
  pub price : PriceTick
  pub quantity : ℕ
  pub remaining : ℕ
  pub side : Side
  pub type : OrderType

abbrev pub is_market : OrderType → Bool
is_market OrderType.market = true
is_market _ = false

abbrev pub is_limit : OrderType → Bool
is_limit OrderType.limit = true
is_limit _ = false

abbrev pub is_cancel : OrderType → Bool
is_cancel OrderType.cancel = true
is_cancel _ = false

abbrev pub is_buy : Side → Bool
is_buy Side.buy = true
is_buy Side.sell = false

unfoldable pub is_admissible : Order → Bool
unfolding is_valid_price
is_admissible o = is_market o.type || is_cancel o.type || is_valid_price o.price

pub data TradeStatus : Type 0 where
  fill rejected : TradeStatus

pub record TradeEvent : Type 0 where
  pub taker_id : ℕ
  pub maker_id : ℕ
  pub price : PriceTick
  pub feed_seq : ℕ
  pub quantity : ℕ
  pub taker_side : Side
  pub status : TradeStatus
