-- ===== src/Udp.antt =====
-- include/titan/net/udp_publisher.hpp: the datagrams of a batch of trades and the counters. What
-- sendto(2) returns, call by call, is an argument.
pub mod Datagrams
mod Tests
use titan_hft.Common.{
  ℕ, zero, suc, ◌+◌, ◌-◌, ◌*◌, ◌/◌, ◌%◌, ◌^◌, ◌≤◌, ◌<◌, min, ◌≡◌, ◌≢◌, refl, sym, ap, ap₂, ◌∙◌,
  subst, subst₂, ◌↔◌, ◌⊎◌, inl, inr, Bool, true, false, not, ◌&&◌, ◌||◌, Option, none, some, List,
  [], ◌∷◌, ◌++◌, map, map-append, append-nil, append_assoc, arith, ltb, leb, ◌==◌, if◌then◌else◌,
  ==→eq, eq_refl, Bool-cases, Option-cases, update, length, get_elem?, take, drop, length-append,
  take-append-drop, length-take, length-drop, has, Distinct, erase, last_or, head_or, All,
  All-append, has-append, has-erase, has-erase_self, erase-Distinct, length-erase, append-Distinct,
  u32, u64, sub64, test_bit, set_bit, clear_bit, lowest_clear, popcount, test_bit-set_bit,
  test_bit-clear_bit, test_bit-zero, lowest_clear_lem, set_bit-lt, clear_bit-le, popcount-le,
  popcount-none, popcount-clear_bit, popcount-full_iff, popcount-eq-zero, ℤ, pos, negsuc, ◌≤ℤ◌,
  ◌<ℤ◌, leb_ℤ, ltb_ℤ, eqb_ℤ, cast_u64, eq_of_parts, eqb_ℤ→eq, eqb_ℤ_refl, Seg, Seg-frame, Seg-split,
  Seg-join, last_or-append, has-last_or, has-split, Distinct-split, append_next, unlink_next,
  unlink_prev, Seg-append_last, Seg-unlink,
}
use titan_hft.Domain.{TradeEvent}

-- TRADES_PER_DGRAM, 1440 bytes of 40
abbrev pub trades_per_dgram : ℕ
trades_per_dgram = 36

-- The whole datagram is sent; EINTR; anything else, EAGAIN and a short write included.
pub data SendTo : Type 0 where
  whole interrupted lost : SendTo

-- `wire` is the payload of the datagrams sent so far.
pub record UdpPublisher : Type 0 where
  pub sent : ℕ
  pub dropped : ℕ
  pub datagrams : ℕ
  pub drops : ℕ
  pub wire : List (List TradeEvent)

-- The chunk after the call.
account : UdpPublisher → List TradeEvent → Bool → UdpPublisher
account u chunk true = record u {
  datagrams = u64 (u.datagrams + 1);
  sent = u64 (u.sent + length chunk);
  wire = u.wire ++ chunk ∷ [];
}
account u chunk false = record u {
  drops = u64 (u.drops + 1);
  dropped = u64 (u.dropped + length chunk);
}

-- The loop of `publish` on the rest of the batch; `none` is a call that has not returned.
unfoldable pub publish : UdpPublisher → List SendTo → List TradeEvent → Option UdpPublisher
unfolding account
publish u [] [] = some u
publish u [] (t ∷ ts) = none
publish u (interrupted ∷ rs) [] = some u
publish u (whole ∷ rs) [] = some u
publish u (lost ∷ rs) [] = some u
publish u (interrupted ∷ rs) (t ∷ ts) = publish u rs (t ∷ ts)
publish u (whole ∷ rs) (t ∷ ts) =
    publish (account u (take trades_per_dgram (t ∷ ts)) true) rs (drop trades_per_dgram (t ∷ ts))
publish u (lost ∷ rs) (t ∷ ts) =
    publish (account u (take trades_per_dgram (t ∷ ts)) false) rs (drop trades_per_dgram (t ∷ ts))

-- The loop of `send_raw` over the results for its one datagram, which does not join `wire`; `none`
-- is a call that has not returned.
unfoldable pub send_raw : UdpPublisher → List SendTo → Option (UdpPublisher × Bool)
send_raw u [] = none
send_raw u (interrupted ∷ rs) = send_raw u rs
send_raw u (whole ∷ rs) = some (record u { datagrams = u64 (u.datagrams + 1) }, true)
send_raw u (lost ∷ rs) = some (record u { drops = u64 (u.drops + 1) }, false)
