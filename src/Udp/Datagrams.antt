-- ===== src/Udp/Datagrams.antt =====
-- Each datagram of a batch is sent as it is or dropped, by what sendto(2) answers, and the counters
-- agree with the wire.
use titan_hft.Common.{
  ◌+◌, ◌-◌, ◌*◌, ◌^◌, ◌≤◌, ◌<◌, ◌≡◌, refl, sym, ap, ◌∙◌, Bool, true, false, some, List, [], ◌∷◌,
  ◌++◌, append-nil, append_assoc, arith, length, take, drop, length-append, length-take,
  length-drop, take-append-drop, All, u64,
}
use titan_hft.Domain.{TradeEvent}
use titan_hft.Udp.{
  SendTo, UdpPublisher, whole, interrupted, lost, trades_per_dgram, publish, account,
}

-- The calls that end the fate of a datagram: whether it went out.
abbrev pub answers : List SendTo → List Bool
answers [] = []
answers (interrupted ∷ rs) = answers rs
answers (whole ∷ rs) = true ∷ answers rs
answers (lost ∷ rs) = false ∷ answers rs

abbrev pub joined : List (List TradeEvent) → List TradeEvent
joined [] = []
joined (c ∷ cs) = c ++ joined cs

-- The datagrams that went out, and those that did not; without an answer a datagram is neither.
abbrev pub gone_out : List Bool → List (List TradeEvent) → List (List TradeEvent)
gone_out (true ∷ oks) (c ∷ cs) = c ∷ gone_out oks cs
gone_out (false ∷ oks) (c ∷ cs) = gone_out oks cs
gone_out _ [] = []
gone_out [] (c ∷ cs) = []

abbrev pub given_up : List Bool → List (List TradeEvent) → List (List TradeEvent)
given_up (true ∷ oks) (c ∷ cs) = given_up oks cs
given_up (false ∷ oks) (c ∷ cs) = c ∷ given_up oks cs
given_up _ [] = []
given_up [] (c ∷ cs) = []

-- A datagram has a trade and at most 36.
abbrev pub IsMtuSafe : List (List TradeEvent) → Type 0
IsMtuSafe w = All (λ c. (0 < length c) × (length c ≤ 36)) w

-- The batch is cut into datagrams, which are sent or dropped as the answers say.
pub record Published (u : UdpPublisher) (oks : List Bool) (ts : List TradeEvent) (u' : UdpPublisher)
    : Type 0 where
  pub cut : List (List TradeEvent)
  pub whole_batch : joined cut ≡ ts
  pub safe : IsMtuSafe cut
  pub answered : length cut ≤ length oks
  pub on_wire : u'.wire ≡ u.wire ++ gone_out oks cut
  pub sent : u'.sent ≡ u.sent + length (joined (gone_out oks cut))
  pub dropped : u'.dropped ≡ u.dropped + length (joined (given_up oks cut))
  pub datagrams : u'.datagrams ≡ u.datagrams + length (gone_out oks cut)
  pub drops : u'.drops ≡ u.drops + length (given_up oks cut)

module _ (u : UdpPublisher) (t : TradeEvent) (ts : List TradeEvent) where
  chunk_lem :
      let c = take trades_per_dgram (t ∷ ts) in
      let r = drop trades_per_dgram (t ∷ ts) in
      (length c + length r ≡ length (t ∷ ts))
      × (0 < length c)
      × (length c ≤ 36)
      × (36 * 1 + length r ≤ 36 * 1 + (length (t ∷ ts) - 36))
  chunk_lem =
      let a = length-take 36 (t ∷ ts) in
      let b = length-drop 36 (t ∷ ts) in
      (omega (arith, a, b), omega (arith, a), omega (arith, a), omega (arith, b))

unsent :
    (u : UdpPublisher) (oks : List Bool)
    → (u' : UdpPublisher) × (some u ≡ some u') × Published u oks [] u'
unsent u oks = (
  u,
  refl,
  record {
    cut = [];
    whole_batch = refl;
    safe = tt;
    answered = omega arith;
    on_wire = sym (append-nil u.wire);
    sent = omega arith;
    dropped = omega arith;
    datagrams = omega arith;
    drops = omega arith;
  },
)

-- If sendto(2) answers often enough and the counters have room, the batch is done with: it is cut, in
-- order and without loss, into datagrams of 1 to 36 trades; just those that sendto(2) took whole
-- are on the wire, each as it was cut and in order, behind those of before; and the four counters
-- count the trades and the datagrams that went out and those that were dropped.
pub publish_done :
    (u : UdpPublisher) (rs : List SendTo) (ts : List TradeEvent)
    → u.sent + u.dropped + length ts < 2 ^ 64
    → u.datagrams + u.drops + length ts < 2 ^ 64
    → length ts ≤ 36 * length (answers rs)
    → (u' : UdpPublisher) × (publish u rs ts ≡ some u') × Published u (answers rs) ts u'
unfolding publish account
publish_done u [] [] w d e = unsent u (answers [])
publish_done u [] (t ∷ ts) w d e = absurd (omega arith)
publish_done u (interrupted ∷ rs) [] w d e = unsent u (answers rs)
publish_done u (whole ∷ rs) [] w d e = unsent u (true ∷ answers rs)
publish_done u (lost ∷ rs) [] w d e = unsent u (false ∷ answers rs)
publish_done u (interrupted ∷ rs) (t ∷ ts) w d e = publish_done u rs (t ∷ ts) w d e
publish_done u (whole ∷ rs) (t ∷ ts) w d e =
    let c = take trades_per_dgram (t ∷ ts) in
    let (l, p, m, f) = chunk_lem u t ts in
    let a : u64 (u.datagrams + 1) ≡ u.datagrams + 1 = omega arith in
    let b : u64 (u.sent + length c) ≡ u.sent + length c = omega (arith, l) in
    let (u', q, r) =
      publish_done (account u c true) rs (drop trades_per_dgram (t ∷ ts)) (omega (arith, l, b))
        (omega (arith, a, l, p)) (omega (arith, f, l)) in
    (
      u',
      q,
      record {
        cut = c ∷ r.cut;
        whole_batch = ap (λ l. c ++ l) r.whole_batch ∙ take-append-drop trades_per_dgram (t ∷ ts);
        safe = ((p, m), r.safe);
        answered = omega (arith, r.answered);
        on_wire = r.on_wire ∙ append_assoc u.wire (c ∷ []) (gone_out (answers rs) r.cut);
        sent = omega (arith, r.sent, b, length-append c (joined (gone_out (answers rs) r.cut)));
        dropped = r.dropped;
        datagrams = omega (arith, r.datagrams, a);
        drops = r.drops;
      },
    )
publish_done u (lost ∷ rs) (t ∷ ts) w d e =
    let c = take trades_per_dgram (t ∷ ts) in
    let (l, p, m, f) = chunk_lem u t ts in
    let a : u64 (u.drops + 1) ≡ u.drops + 1 = omega arith in
    let b : u64 (u.dropped + length c) ≡ u.dropped + length c = omega (arith, l) in
    let (u', q, r) =
      publish_done (account u c false) rs (drop trades_per_dgram (t ∷ ts)) (omega (arith, l, b))
        (omega (arith, a, l, p)) (omega (arith, f, l)) in
    (
      u',
      q,
      record {
        cut = c ∷ r.cut;
        whole_batch = ap (λ l. c ++ l) r.whole_batch ∙ take-append-drop trades_per_dgram (t ∷ ts);
        safe = ((p, m), r.safe);
        answered = omega (arith, r.answered);
        on_wire = r.on_wire;
        sent = r.sent;
        dropped =
            omega (arith, r.dropped, b, length-append c (joined (given_up (answers rs) r.cut)));
        datagrams = r.datagrams;
        drops = omega (arith, r.drops, a);
      },
    )
