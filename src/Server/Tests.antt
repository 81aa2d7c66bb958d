-- ===== src/Server/Tests.antt =====
-- A sink and a publisher that already hold a trade.
use titan_hft.Common.{ℕ, true, ◌+◌, ◌^◌, ◌<◌, ◌≡◌, refl, List, [], ◌∷◌, ◌++◌, arith, length, pos}
use mathlib.Core.List.{foldl}
use titan_hft.Domain.{TradeEvent, TradeStatus, Side, Order, OrderType}
use titan_hft.Server.{
  EgressSink, sink_publish, sink_flush, Publisher, publisher_take, publisher_flush,
}
use titan_hft.Server.Cascade.{
  Move, push, join, report, sequence, match, multicast, run, fresh_pipeline, is_reported,
}
use titan_hft.Server.Drain.{process}
use titan_hft.Journal
use titan_hft.Journal.{Journaler, append}
use titan_hft.Journal.Records.{records}
use titan_hft.Sequencer.{create, publish, stop}
use titan_hft.Sequencer.Stamp.{stamp}
use titan_hft.Server.Shutdown.{shutdown_complete}
use titan_hft.Server.Buffers.{concat, sink_lem, publisher_lem}

abbrev trade : ℕ → TradeEvent
trade id = record {
  taker_id = id;
  maker_id = 1;
  price = pos 100;
  feed_seq = id;
  quantity = 2;
  taker_side = Side.buy;
  status = TradeStatus.rejected;
}

abbrev trades : List TradeEvent
trades = trade 3 ∷ trade 4 ∷ []

abbrev sink : EgressSink
sink = record { egress = trade 1 ∷ []; buf = trade 2 ∷ [] }

sink_lem_example :
    (length (foldl sink_publish sink trades).buf < 2 ^ 14)
    × ((sink_flush (foldl sink_publish sink trades)).egress ≡ (sink.egress ++ sink.buf) ++ trades)
    × ((sink_flush (foldl sink_publish sink trades)).buf ≡ [])
sink_lem_example = sink_lem sink trades (omega arith)

abbrev publisher : Publisher
publisher = record { batch = trade 2 ∷ []; total = 1; chk = 7; published = (trade 1 ∷ []) ∷ [] }

publisher_lem_example :
    let p' = publisher_flush (foldl publisher_take publisher trades) in
    (concat p'.published ≡ trade 1 ∷ trade 2 ∷ trades)
    × (p'.total ≡ 2 + length trades)
    × (p'.batch ≡ [])
publisher_lem_example =
    publisher_lem publisher (trade 1 ∷ trade 2 ∷ []) trades
      (record { passed = refl; counted = refl; bounded = omega arith }) (omega arith)

abbrev an_order : Order
an_order = record {
  id = 1;
  seq = 0;
  price = pos 100;
  quantity = 5;
  remaining = 5;
  side = Side.buy;
  type = OrderType.limit;
}

abbrev told : ℕ → Order → ℕ × List TradeEvent
told s o = (
  s + 1,
  record {
    taker_id = o.id;
    maker_id = s;
    price = o.price;
    feed_seq = o.seq;
    quantity = o.quantity;
    taker_side = o.side;
    status = TradeStatus.fill;
  }
      ∷ [],
)

abbrev log : Journaler
log = Journal.create (λ i. an_order) 2

-- One order, the end of the gateways, and then each thread to its end.
abbrev moves : List (Move ℕ 4096 log told)
moves =
    push an_order
    ∷ join
    ∷ report
    ∷ sequence true
    ∷ sequence true
    ∷ sequence true
    ∷ sequence true
    ∷ sequence true
    ∷ sequence true
    ∷ sequence true
    ∷ match true
    ∷ match true
    ∷ match true
    ∷ match true
    ∷ match true
    ∷ match true
    ∷ match true
    ∷ multicast true
    ∷ multicast true
    ∷ multicast true
    ∷ multicast true
    ∷ multicast true
    ∷ multicast true
    ∷ multicast true
    ∷ []

shutdown_complete_example :
    let p = run ℕ 4096 log told (fresh_pipeline ℕ 4096 log told 0 1 0) moves in
    (concat p.publishing.published ≡ (process ℕ 4096 log told 0 (stamp 0 p.accepted)).1)
    × (records p.seq.journal ≡ records log ++ stamp 0 p.accepted)
    × (p.inbound ≡ [])
    × (p.seq.ingress ≡ [])
    × (p.publishing.batch ≡ [])
    × (is_reported p.gateways ≡ true)
unfolding run sink_publish sink_flush Journal.create create publish append stop
shutdown_complete_example = shutdown_complete ℕ 4096 log told 0 1 0 moves (omega arith) refl
