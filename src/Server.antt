-- ===== src/Server.antt =====
-- src/main.cpp: the buffer between the matcher and the egress ring, and the publisher's batches
-- and totals. The egress ring is the list of the trades that it has taken (publish_batch spins
-- until it has taken all), and `published` is the list of the calls of UdpPublisher::publish.
pub mod Buffers
pub mod Cascade
pub mod Drain
pub mod Phase
pub mod Shutdown
mod Tests
use titan_hft.Common.{
  ℕ, zero, suc, ◌+◌, ◌-◌, ◌*◌, ◌/◌, ◌%◌, ◌^◌, ◌≤◌, ◌<◌, min, ◌≡◌, ◌≢◌, refl, sym, ap, ap₂, ◌∙◌,
  subst, subst₂, ◌↔◌, ◌⊎◌, inl, inr, Bool, true, false, not, ◌&&◌, ◌||◌, Option, none, some, List,
  [], ◌∷◌, ◌++◌, map, map-append, append-nil, append_assoc, arith, ltb, leb, ◌==◌, if◌then◌else◌,
  ==→eq, eq_refl, Bool-cases, Option-cases, update, length, get_elem?, take, drop, length-append,
  take-append-drop, length-take, length-drop, has, Distinct, erase, last_or, head_or, All,
  All-append, has-append, has-erase, has-erase_self, erase-Distinct, length-erase, append-Distinct,
  u32, u64, sub64, test_bit, set_bit, clear_bit, lowest_clear, popcount, test_bit-set_bit,
  test_bit-clear_bit, test_bit-zero, lowest_clear_lem, set_bit-lt, clear_bit-le, popcount-le,
  popcount-none, popcount-clear_bit, popcount-full_iff, popcount-eq-zero, ℤ, pos, negsuc, ◌≤ℤ◌,
  ◌<ℤ◌, leb_ℤ, ltb_ℤ, eqb_ℤ, cast_u64, eq_of_parts, eqb_ℤ→eq, eqb_ℤ_refl, Seg, Seg-frame, Seg-split,
  Seg-join, last_or-append, has-last_or, has-split, Distinct-split, append_next, unlink_next,
  unlink_prev, Seg-append_last, Seg-unlink,
}
use titan_hft.Domain.{TradeEvent, TradeStatus}

-- EgressSink::HWM and PUB_HWM
abbrev pub sink_hwm : ℕ
sink_hwm = 2 ^ 14

abbrev pub pub_hwm : ℕ
pub_hwm = 2 ^ 12

pub record EgressSink : Type 0 where
  pub egress : List TradeEvent
  pub buf : List TradeEvent

unfoldable pub sink_publish : EgressSink → TradeEvent → EgressSink
sink_publish s t =
    let buf = s.buf ++ t ∷ [] in
    if leb sink_hwm (length buf)
    then record { egress = s.egress ++ buf; buf = [] }
    else record s { buf = buf }

unfoldable pub sink_flush : EgressSink → EgressSink
sink_flush s = if length s.buf == 0 then s else record { egress = s.egress ++ s.buf; buf = [] }

abbrev status_code : TradeStatus → ℕ
status_code TradeStatus.fill = 0
status_code TradeStatus.rejected = 1

unfoldable pub hash_trade : TradeEvent → ℕ
hash_trade t = u64 (t.taker_id + t.maker_id + cast_u64 t.price + t.quantity + status_code t.status)

pub record Publisher : Type 0 where
  pub batch : List TradeEvent
  pub total : ℕ
  pub chk : ℕ
  pub published : List (List TradeEvent)

unfoldable pub publisher_flush : Publisher → Publisher
publisher_flush p = if length p.batch == 0 then p else record p {
  published = p.published ++ p.batch ∷ [];
  total = u64 (p.total + length p.batch);
  batch = [];
}

-- The handler of a drained trade, without its progress line.
unfoldable pub publisher_take : Publisher → TradeEvent → Publisher
unfolding publisher_flush hash_trade
publisher_take p t =
    let q = record p { chk = u64 (p.chk + hash_trade t); batch = p.batch ++ t ∷ [] } in
    if leb pub_hwm (length q.batch) then publisher_flush q else q
