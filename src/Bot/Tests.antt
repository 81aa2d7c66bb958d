-- ===== src/Bot/Tests.antt =====
-- The bot with fixed-point numbers in place of doubles.
use titan_hft.Common.{
  ℕ, ◌+◌, ◌*◌, ◌≤◌, ◌≡◌, refl, true, List, [], ◌∷◌, ◌==◌, if◌then◌else◌, ℤ, pos, diff, pos_part,
  neg_part, ltb_ℤ, ◌+ℤ◌, ◌-ℤ◌,
}
use titan_hft.Domain.{Side, TradeEvent, TradeStatus}
use titan_hft.Book.Snapshot.{SnapshotHeader, snapshot_magic}
use titan_hft.Bot.{Doubles, Net, trade, snapshot, fresh_bot, fire, take_id, cancel_order}
use titan_hft.Bot.Cycle.{round, heard, Maker, Input, cycle, run, fresh_maker}
use titan_hft.Bot.Halt.{IsStuck, halted_forever}
use titan_hft.Bot.Tidy.{count_side}
use titan_hft.Bot.Quotes.{one_quote_a_side}

abbrev ticks : Doubles
ticks = record {
  Double = ℤ;
  of_int = λ a. a;
  plus = λ a b. a +ℤ b;
  minus = λ a b. a -ℤ b;
  times = λ a b.
      diff (pos_part a * pos_part b + neg_part a * neg_part b)
        (pos_part a * neg_part b + neg_part a * pos_part b);
  gtb = λ a b. ltb_ℤ b a;
  zero_double = pos 0;
  skew_per_unit = pos 1;
  llround = λ a. a;
}

abbrev long : Maker ticks
long = record (fresh_maker ticks) {
  bot = record (fresh_bot ticks) {
    inventory = pos 600;
    orders = (1000000, record { side = Side.sell; price = pos 100; remaining = 5 }) ∷ [];
    next_id = 1000001;
  };
}

abbrev sold : ℕ → TradeEvent
sold id = record {
  taker_id = id;
  maker_id = 7;
  price = pos 80;
  feed_seq = 3;
  quantity = 50;
  taker_side = Side.sell;
  status = TradeStatus.fill;
}

abbrev header : SnapshotHeader
header = record {
  magic = snapshot_magic;
  version = 1;
  level_count = 2;
  feed_seq = 1;
  bid_levels = 1;
  ask_levels = 1;
  checksum = 0;
}

-- All sends succeed; a fill of the live order comes with the first.
abbrev net : Net
net = record { sent = λ _. true; feed = λ n. if n == 0 then trade (sold 1000000) ∷ [] else [] }

abbrev later : List (Input ticks)
later = heard (trade (sold 1000001)) ∷ round (trade (sold 5) ∷ []) true 200 200 ∷ []

-- The fill of the IOC order leaves the position.
halted_forever_example :
    let k1 = cycle ticks net [] true 0 0 long in
    (k1.bot.orders ≡ []) × IsStuck ticks net (pos 595) (run ticks net k1 later)
unfolding cycle fire take_id cancel_order ◌-ℤ◌
halted_forever_example = halted_forever ticks net [] true 0 0 long later refl refl (λ n. refl) refl

one_quote_a_side_example :
    count_side true
      (run ticks net (fresh_maker ticks) (
        round [] true 0 1
        ∷ heard (snapshot 112 header (λ _. pos 100))
        ∷ round (trade (sold 1000000) ∷ []) true 200 201
        ∷ [])).bot.orders
    ≤ 1
one_quote_a_side_example =
    one_quote_a_side ticks net (λ n. refl) true
      (round [] true 0 1
        ∷ heard (snapshot 112 header (λ _. pos 100))
        ∷ round (trade (sold 1000000) ∷ []) true 200 201
        ∷ [])
