-- ===== src/Udp/Tests.antt =====
-- A batch of three trades, of which the one datagram is sent at the second call.
use titan_hft.Common.{ℕ, ◌≡◌, some, List, [], ◌∷◌, arith, pos}
use titan_hft.Domain.{TradeEvent, TradeStatus, Side}
use titan_hft.Udp.{UdpPublisher, whole, interrupted, publish}
use titan_hft.Udp.Datagrams.{answers, Published, publish_done}

abbrev trade : ℕ → TradeEvent
trade id = record {
  taker_id = id;
  maker_id = 1;
  price = pos 100;
  feed_seq = id;
  quantity = 2;
  taker_side = Side.buy;
  status = TradeStatus.fill;
}

abbrev used : UdpPublisher
used = record { sent = 1; dropped = 2; datagrams = 1; drops = 1; wire = (trade 9 ∷ []) ∷ [] }

abbrev batch : List TradeEvent
batch = trade 1 ∷ trade 2 ∷ trade 3 ∷ []

publish_done_example :
    (u' : UdpPublisher) × (publish used (interrupted ∷ whole ∷ []) batch ≡ some u')
    × Published used (answers (interrupted ∷ whole ∷ [])) batch u'
publish_done_example =
    publish_done used (interrupted ∷ whole ∷ []) batch (omega arith) (omega arith) (omega arith)
