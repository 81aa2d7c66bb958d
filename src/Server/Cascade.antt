-- ===== src/Server/Cascade.antt =====
-- src/main.cpp: the shutdown that cascades down the pipeline. A move is one access of a thread: the
-- load of a flag, a look at the ring, one item of a batch, or the store of its own flag. Each ring
-- is the list of what is in it; the one between the sequencer and the matcher is `ingress` of the
-- sequencer. What the publisher hands to UdpPublisher::publish is in its `published`.
use titan_hft.Common.{
  ℕ, Bool, true, false, not, ◌&&◌, List, [], ◌∷◌, ◌++◌, none, some, if◌then◌else◌,
}
use mathlib.Core.List.{foldl}
use titan_hft.Domain.{Order, TradeEvent}
use titan_hft.Journal.{Journaler}
use titan_hft.Sequencer.{Sequencer, create, publish, stop}
use titan_hft.Server.{
  EgressSink, sink_publish, sink_flush, Publisher, publisher_take, publisher_flush,
}

-- Where a thread stands in `while (!flag || !ring.empty_approx()) consume_batch`; `finished` is
-- after the store of its own flag.
pub data Pc : Type 0 where
  check_flag check_ring drain leave finished : Pc

-- The gateways run, have all been joined, or have been reported by `gateway_stopped`.
pub data Gateways : Type 0 where
  running joined reported : Gateways

abbrev pub is_finished : Pc → Bool
is_finished Pc.finished = true
is_finished _ = false

abbrev pub is_reported : Gateways → Bool
is_reported Gateways.reported = true
is_reported _ = false

abbrev pub is_nil {ℓ} : {A : Type ℓ} → List A → Bool
is_nil [] = true
is_nil (x ∷ xs) = false

-- The next access; a batch ends when the ring is empty or when `more` says so.
abbrev pub advance : (flag nil more : Bool) → Pc → Pc
advance flag nil more Pc.check_flag = if flag then Pc.check_ring else Pc.drain
advance flag nil more Pc.check_ring = if nil then Pc.leave else Pc.drain
advance flag nil more Pc.drain = if more && not nil then Pc.drain else Pc.check_flag
advance flag nil more Pc.leave = Pc.finished
advance flag nil more Pc.finished = Pc.finished

abbrev pub is_taking : (nil more : Bool) → Pc → Bool
is_taking nil more Pc.drain = more && not nil
is_taking nil more _ = false

-- The sink is flushed at the end of a batch.
abbrev pub end_batch : Bool → Pc → EgressSink → EgressSink
end_batch taking Pc.drain s = if taking then s else sink_flush s
end_batch taking _ s = s

-- The publisher flushes at the end of a batch and after its loop.
abbrev pub end_publish : Bool → Pc → Publisher → Publisher
end_publish taking Pc.drain u = if taking then u else publisher_flush u
end_publish taking Pc.leave u = publisher_flush u
end_publish taking _ u = u

-- The sequencer takes a last checkpoint after its loop.
abbrev pub end_sequence : ℕ → Pc → Sequencer → Sequencer
end_sequence pg Pc.leave q = stop pg q
end_sequence pg _ q = q

abbrev pub after_join : Gateways → Gateways
after_join Gateways.running = Gateways.joined
after_join g = g

abbrev pub after_report : Gateways → Gateways
after_report Gateways.joined = Gateways.reported
after_report g = g

-- `pg` is the page size, `wal` the log as the server has created it.
module _ (S : Type 0) (pg : ℕ) (wal : Journaler) (submit : S → Order → S × List TradeEvent) where
  pub record Pipeline : Type 0 where
    pub gateways : Gateways
    pub accepted : List Order  -- by the MPSC ring, since the start
    pub inbound : List Order
    pub sequencer : Pc
    pub seq : Sequencer
    pub matcher : Pc
    pub state : S
    pub sink : EgressSink
    pub publisher : Pc
    pub publishing : Publisher
    pub terminated : Bool  -- the whole process, by std::terminate

  abbrev pub fresh_pipeline : S → (flush_interval sync_every : ℕ) → Pipeline
  fresh_pipeline s flush_interval sync_every = record {
    gateways = Gateways.running;
    accepted = [];
    inbound = [];
    sequencer = Pc.check_flag;
    seq = create wal flush_interval sync_every;
    matcher = Pc.check_flag;
    state = s;
    sink = record { egress = []; buf = [] };
    publisher = Pc.check_flag;
    publishing = record { batch = []; total = 0; chk = 0; published = [] };
    terminated = false;
  }

  -- An item of a batch: stamped, journaled and forwarded. When the log is full, the exception
  -- leaves a noexcept function.
  unfoldable pub sequence_one : Pipeline → List Order → Pipeline
  sequence_one p [] = p
  sequence_one p (o ∷ os) = elim (publish pg p.seq o) [
    | none ↦ record p { terminated = true }
    | some q ↦ record p { inbound = os; seq = q }
  ]

  abbrev pub match_one : Pipeline → List Order → Pipeline
  match_one p [] = p
  match_one p (o ∷ os) = record p {
    seq = record (p.seq) { ingress = os };
    state = (submit p.state o).0;
    sink = foldl sink_publish p.sink (submit p.state o).1;
  }

  abbrev pub publish_one : Pipeline → List TradeEvent → Pipeline
  publish_one p [] = p
  publish_one p (t ∷ ts) = record p {
    sink = record (p.sink) { egress = ts };
    publishing = publisher_take p.publishing t;
  }

  unfoldable pub sequencer_moves : Pipeline → (more : Bool) → Pipeline
  unfolding sequence_one
  sequencer_moves p more =
      let q =
        if is_taking (is_nil p.inbound) more p.sequencer then sequence_one p p.inbound else p in
      record q {
        sequencer = advance (is_reported p.gateways) (is_nil p.inbound) more p.sequencer;
        seq = end_sequence pg p.sequencer q.seq;
      }

  unfoldable pub matcher_moves : Pipeline → (more : Bool) → Pipeline
  matcher_moves p more =
      let taking = is_taking (is_nil p.seq.ingress) more p.matcher in
      let q = if taking then match_one p p.seq.ingress else p in
      record q {
        matcher = advance (is_finished p.sequencer) (is_nil p.seq.ingress) more p.matcher;
        sink = end_batch taking p.matcher q.sink;
      }

  unfoldable pub publisher_moves : Pipeline → (more : Bool) → Pipeline
  publisher_moves p more =
      let nil = is_nil p.sink.egress in
      let taking = is_taking nil more p.publisher in
      let q = if taking then publish_one p p.sink.egress else p in
      record q {
        publisher = advance (is_finished p.matcher) nil more p.publisher;
        publishing = end_publish taking p.publisher q.publishing;
      }

  pub data Move : Type 0 where
    push : Order → Move  -- by any gateway
    join report : Move
    sequence match multicast : (more : Bool) → Move

  abbrev pub push_order : Gateways → Pipeline → Order → Pipeline
  push_order Gateways.running p o = record p {
    accepted = p.accepted ++ o ∷ [];
    inbound = p.inbound ++ o ∷ [];
  }
  push_order _ p o = p

  unfoldable pub move : Pipeline → Move → Pipeline
  unfolding sequencer_moves matcher_moves publisher_moves
  move p (push o) = push_order p.gateways p o
  move p join = record p { gateways = after_join p.gateways }
  move p report = record p { gateways = after_report p.gateways }
  move p (sequence more) = sequencer_moves p more
  move p (match more) = matcher_moves p more
  move p (multicast more) = publisher_moves p more

  unfoldable pub step : Pipeline → Move → Pipeline
  unfolding move
  step p m = if p.terminated then p else move p m

  unfoldable pub run : Pipeline → List Move → Pipeline
  unfolding step
  run p [] = p
  run p (m ∷ ms) = run (step p m) ms
