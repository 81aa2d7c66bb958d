-- ===== src/Server/Shutdown.antt =====
-- The shutdown cascade loses nothing: no thread ends before the one above it and what it reads from.
use titan_hft.Common.{
  ℕ, ◌^◌, ◌<◌, ◌≡◌, refl, sym, ap, ◌∙◌, subst, ◌⊎◌, inl, inr, Bool, true, false, ◌||◌, List, [],
  ◌∷◌, ◌++◌, arith, Bool-cases, ite_both,
}
use titan_hft.Domain.{Order, TradeEvent}
use titan_hft.Journal.{Journaler}
use titan_hft.Journal.Records.{records}
use titan_hft.Sequencer.{Sequencer, create, stop}
use titan_hft.Sequencer.Stamp.{stamp}
use titan_hft.Server.{EgressSink, sink_flush, Publisher, publisher_flush}
use titan_hft.Server.Buffers.{flushed, concat, publisher_flush-gone}
use titan_hft.Server.Cascade.{
  Pc, Gateways, is_finished, is_reported, is_nil, advance, is_taking, Pipeline, fresh_pipeline,
  sequence_one, match_one, publish_one, sequencer_moves, end_batch, end_publish, end_sequence,
  matcher_moves, publisher_moves, Move, push, join, report, sequence, match, multicast, push_order,
  after_join, after_report, move, step, run,
}
use titan_hft.Server.Phase.{
  is_drain, Phase, advance-Phase, advance_finished, below-Phase, taking_open, taking-drain,
  end_batch_taking, end_batch_resting, end_publish_taking, end_publish_resting, end_sequence_cases,
  finished-Phase, finished_settled, is_nil-eq, join_reported, report_reported,
}
use titan_hft.Server.Drain.{
  process, Conserved, push-Conserved, sequence_one_cases, stop-Conserved, match_one-Conserved,
  publish_one-Conserved, flush-Conserved, publisher_flush-Conserved, Conserved-place,
  fresh-Conserved, drained,
}

module _ (S : Type 0) (pg : ℕ) (wal : Journaler) (submit : S → Order → S × List TradeEvent) where
  pub record Inv (s0 : S) (p : Pipeline S pg wal submit) : Type 0 where
    pub conserved : Conserved S pg wal submit s0 p
    pub sequencer : Phase p.sequencer (is_reported p.gateways) (is_nil p.inbound)
    pub matcher : Phase p.matcher (is_finished p.sequencer) (is_nil p.seq.ingress)
    pub flushed : (is_drain p.matcher || is_nil p.sink.buf) ≡ true
    pub publisher : Phase p.publisher (is_finished p.matcher) (is_nil p.sink.egress)
    pub batched : (is_drain p.publisher || is_nil p.publishing.batch) ≡ true

  push-Inv :
      (s0 : S) (p : Pipeline S pg wal submit) (o : Order) (g : Gateways)
      → p.gateways ≡ g
      → Inv s0 p
      → Inv s0 (push_order S pg wal submit g p o)
  push-Inv s0 p o Gateways.running e v = record {
    conserved = push-Conserved S pg wal submit s0 p o v.conserved;
    sequencer =
        let open_ = ap is_reported e in
        below-Phase (is_nil p.inbound) (is_nil (p.inbound ++ o ∷ [])) (is_reported p.gateways)
          (is_reported p.gateways) p.sequencer (λ h. h) (λ h. absurd (ground (arith, h, open_)))
          v.sequencer;
    matcher = v.matcher;
    flushed = v.flushed;
    publisher = v.publisher;
    batched = v.batched;
  }
  push-Inv s0 p o Gateways.joined e v = v
  push-Inv s0 p o Gateways.reported e v = v

  gateways-Inv :
      (s0 : S) (p : Pipeline S pg wal submit) (g : Gateways)
      → (is_reported p.gateways ≡ true → is_reported g ≡ true)
      → Inv s0 p
      → Inv s0 (record p { gateways = g })
  gateways-Inv s0 p g h v = record {
    conserved =
        Conserved-place S pg wal submit s0 p g p.sequencer p.matcher p.publisher p.terminated
          v.conserved;
    sequencer =
        below-Phase (is_nil p.inbound) (is_nil p.inbound) (is_reported p.gateways) (is_reported g)
          p.sequencer h (λ _. refl) v.sequencer;
    matcher = v.matcher;
    flushed = v.flushed;
    publisher = v.publisher;
    batched = v.batched;
  }

  -- The sequencer at an access that takes no order, or that ends the process.
  sequencer_rests :
      (s0 : S) (p : Pipeline S pg wal submit) (more t : Bool)
      → Inv s0 p
      → Inv s0 (record p {
        sequencer = advance (is_reported p.gateways) (is_nil p.inbound) more p.sequencer;
        terminated = t;
      })
  sequencer_rests s0 p more t v =
      let flag = is_reported p.gateways in
      let nil = is_nil p.inbound in
      let pc = advance flag nil more p.sequencer in
      record {
        conserved =
            Conserved-place S pg wal submit s0 p p.gateways pc p.matcher p.publisher t v.conserved;
        sequencer = advance-Phase flag nil more nil p.sequencer (λ _. refl) v.sequencer;
        matcher =
            below-Phase (is_nil p.seq.ingress) (is_nil p.seq.ingress) (is_finished p.sequencer)
              (is_finished pc) p.matcher
              (λ f. ap is_finished (advance_finished flag nil more p.sequencer f) ∙ f) (λ _. refl)
              v.matcher;
        flushed = v.flushed;
        publisher = v.publisher;
        batched = v.batched;
      }

  -- An order that the sequencer takes.
  sequenced-Inv :
      (s0 : S) (p : Pipeline S pg wal submit) (more : Bool) (o : Order) (os : List Order)
      (q : Sequencer)
      → p.inbound ≡ o ∷ os
      → is_taking (is_nil p.inbound) more p.sequencer ≡ true
      → q.ingress ≡ p.seq.ingress ++ record o { seq = p.seq.next_seq } ∷ []
      → Conserved S pg wal submit s0 (record p { inbound = os; seq = q })
      → Inv s0 p
      → Inv s0 (record p {
        inbound = os;
        seq = q;
        sequencer = advance (is_reported p.gateways) (is_nil p.inbound) more p.sequencer;
      })
  sequenced-Inv s0 p more o os q e t i c v =
      let flag = is_reported p.gateways in
      let nil = is_nil p.inbound in
      let pc = advance flag nil more p.sequencer in
      let (open_, _) = taking_open nil more p.sequencer t in
      record {
        conserved =
            Conserved-place S pg wal submit s0 (record p { inbound = os; seq = q }) p.gateways pc
              p.matcher p.publisher p.terminated c;
        sequencer =
            advance-Phase flag nil more (is_nil os) p.sequencer (λ f. absurd (ground (arith, f, t)))
              v.sequencer;
        matcher =
            below-Phase (is_nil p.seq.ingress) (is_nil q.ingress) (is_finished p.sequencer)
              (is_finished pc) p.matcher (λ f. absurd (ground (arith, f, open_)))
              (λ f. absurd (ground (arith, f, open_))) v.matcher;
        flushed = v.flushed;
        publisher = v.publisher;
        batched = v.batched;
      }

  sequence-Inv :
      (s0 : S) (p : Pipeline S pg wal submit) (more : Bool) (os : List Order)
      → p.inbound ≡ os
      → is_taking (is_nil p.inbound) more p.sequencer ≡ true
      → Inv s0 p
      → Inv s0 (record (sequence_one S pg wal submit p os) {
        sequencer = advance (is_reported p.gateways) (is_nil p.inbound) more p.sequencer;
      })
  sequence-Inv s0 p more [] e t v = absurd (ground (arith, t, ap is_nil e))
  sequence-Inv s0 p more (o ∷ os) e t v =
      let pc = advance (is_reported p.gateways) (is_nil p.inbound) more p.sequencer in
      elim (sequence_one_cases S pg wal submit s0 p o os e v.conserved) [
        | inl (q, f, i, c) ↦
            subst (λ r. Inv s0 (record r { sequencer = pc })) (sym f)
              (sequenced-Inv s0 p more o os q e t i c v)
        | inr f ↦
            subst (λ r. Inv s0 (record r { sequencer = pc })) (sym f)
              (sequencer_rests s0 p more true v)
      ]

  stop-Inv :
      (s0 : S) (p : Pipeline S pg wal submit) → Inv s0 p → Inv s0 (record p { seq = stop pg p.seq })
  unfolding stop
  stop-Inv s0 p v = record {
    conserved = stop-Conserved S pg wal submit s0 p v.conserved;
    sequencer = v.sequencer;
    matcher = v.matcher;
    flushed = v.flushed;
    publisher = v.publisher;
    batched = v.batched;
  }

  -- The last checkpoint matters to none of it.
  checkpoint-Inv :
      (s0 : S) (p : Pipeline S pg wal submit) (pc : Pc)
      → Inv s0 p
      → Inv s0 (record p { seq = end_sequence pg pc p.seq })
  checkpoint-Inv s0 p pc v = elim (end_sequence_cases pg pc p.seq) [
    | inl e ↦ subst (λ q. Inv s0 (record p { seq = q })) (sym e) v
    | inr (e, _) ↦ subst (λ q. Inv s0 (record p { seq = q })) (sym e) (stop-Inv s0 p v)
  ]

  sequencer_moves-Inv :
      (s0 : S) (p : Pipeline S pg wal submit) (more : Bool)
      → Inv s0 p
      → Inv s0 (sequencer_moves S pg wal submit p more)
  unfolding sequencer_moves
  sequencer_moves-Inv s0 p more v =
      let pc = advance (is_reported p.gateways) (is_nil p.inbound) more p.sequencer in
      elim (Bool-cases (is_taking (is_nil p.inbound) more p.sequencer)) [
        | inl t ↦ rw t (
            checkpoint-Inv s0 (record (sequence_one S pg wal submit p p.inbound) { sequencer = pc })
              p.sequencer (sequence-Inv s0 p more p.inbound refl t v))
        | inr t ↦ rw t (
            checkpoint-Inv s0 (record p { sequencer = pc }) p.sequencer
              (sequencer_rests s0 p more p.terminated v))
      ]

  match-Inv :
      (s0 : S) (p : Pipeline S pg wal submit) (more : Bool) (os : List Order)
      → p.seq.ingress ≡ os
      → is_taking (is_nil p.seq.ingress) more p.matcher ≡ true
      → Inv s0 p
      → Inv s0 (record (match_one S pg wal submit p os) {
        matcher = advance (is_finished p.sequencer) (is_nil p.seq.ingress) more p.matcher;
      })
  match-Inv s0 p more [] e t v = absurd (ground (arith, t, ap is_nil e))
  match-Inv s0 p more (o ∷ os) e t v =
      let q = match_one S pg wal submit p (o ∷ os) in
      let c = match_one-Conserved S pg wal submit s0 p (o ∷ os) e v.conserved in
      let flag = is_finished p.sequencer in
      let nil = is_nil p.seq.ingress in
      let pc = advance flag nil more p.matcher in
      let (open_, drains) = taking_open nil more p.matcher t in
      record {
        conserved =
            Conserved-place S pg wal submit s0 q p.gateways p.sequencer pc p.publisher p.terminated
              c;
        sequencer = v.sequencer;
        matcher =
            advance-Phase flag nil more (is_nil os) p.matcher (λ f. absurd (ground (arith, f, t)))
              v.matcher;
        flushed = ground (arith, drains flag);
        publisher =
            below-Phase (is_nil p.sink.egress) (is_nil q.sink.egress) (is_finished p.matcher)
              (is_finished pc) p.publisher (λ f. absurd (ground (arith, f, open_)))
              (λ f. absurd (ground (arith, f, open_))) v.publisher;
        batched = v.batched;
      }

  -- The matcher at an access that takes no order.
  module _ (s0 : S) (p : Pipeline S pg wal submit) (more : Bool) where
    rests-Inv :
        is_taking (is_nil p.seq.ingress) more p.matcher ≡ false
        → Inv s0 p
        → (s : EgressSink)
        → ((s ≡ p.sink) × (is_drain p.matcher ≡ false))
          ⊎ ((s ≡ sink_flush p.sink) × (is_finished p.matcher ≡ false))
        → Inv s0 (record p {
          matcher = advance (is_finished p.sequencer) (is_nil p.seq.ingress) more p.matcher;
          sink = s;
        })
    rests-Inv t v s (inl (e, d)) =
        let flag = is_finished p.sequencer in
        let nil = is_nil p.seq.ingress in
        let pc = advance flag nil more p.matcher in
        subst (λ z. Inv s0 (record p { matcher = pc; sink = z })) (sym e)
          (record {
            conserved =
                Conserved-place S pg wal submit s0 p p.gateways p.sequencer pc p.publisher
                  p.terminated v.conserved;
            sequencer = v.sequencer;
            matcher = advance-Phase flag nil more nil p.matcher (λ _. refl) v.matcher;
            flushed = ground (arith, v.flushed, d);
            publisher =
                below-Phase (is_nil p.sink.egress) (is_nil p.sink.egress) (is_finished p.matcher)
                  (is_finished pc) p.publisher
                  (λ f. ap is_finished (advance_finished flag nil more p.matcher f) ∙ f) (λ _. refl)
                  v.publisher;
            batched = v.batched;
          })
    rests-Inv t v s (inr (e, d)) =
        let flag = is_finished p.sequencer in
        let nil = is_nil p.seq.ingress in
        let pc = advance flag nil more p.matcher in
        let q = record p { sink = sink_flush p.sink } in
        let (_, b) = flushed p.sink in
        subst (λ z. Inv s0 (record p { matcher = pc; sink = z })) (sym e)
          (record {
            conserved =
                Conserved-place S pg wal submit s0 q p.gateways p.sequencer pc p.publisher
                  p.terminated (flush-Conserved S pg wal submit s0 p v.conserved);
            sequencer = v.sequencer;
            matcher = advance-Phase flag nil more nil p.matcher (λ _. refl) v.matcher;
            flushed = ground (arith, ap is_nil b);
            publisher =
                below-Phase (is_nil p.sink.egress) (is_nil q.sink.egress) (is_finished p.matcher)
                  (is_finished pc) p.publisher (λ f. absurd (ground (arith, f, d)))
                  (λ f. absurd (ground (arith, f, d))) v.publisher;
            batched = v.batched;
          })

    matcher_moves-Inv : Inv s0 p → Inv s0 (matcher_moves S pg wal submit p more)
    unfolding matcher_moves
    matcher_moves-Inv v =
        let flag = is_finished p.sequencer in
        let nil = is_nil p.seq.ingress in
        let pc = advance flag nil more p.matcher in
        elim (Bool-cases (is_taking nil more p.matcher)) [
          | inl t ↦
              let q = match_one S pg wal submit p p.seq.ingress in
              rw t (
                subst (λ z. Inv s0 (record q { matcher = pc; sink = z }))
                  (sym (end_batch_taking p.matcher q.sink))
                  (match-Inv s0 p more p.seq.ingress refl t v))
          | inr t ↦ rw t (
              rests-Inv t v (end_batch false p.matcher p.sink) (end_batch_resting p.matcher p.sink))
        ]

    -- A trade that the publisher takes.
    publish-Inv :
        (ts : List TradeEvent)
        → p.sink.egress ≡ ts
        → is_taking (is_nil p.sink.egress) more p.publisher ≡ true
        → Inv s0 p
        → Inv s0 (record (publish_one S pg wal submit p ts) {
          publisher = advance (is_finished p.matcher) (is_nil p.sink.egress) more p.publisher;
        })
    publish-Inv [] e t v = absurd (ground (arith, t, ap is_nil e))
    publish-Inv (x ∷ ts) e t v =
        let q = publish_one S pg wal submit p (x ∷ ts) in
        let flag = is_finished p.matcher in
        let nil = is_nil p.sink.egress in
        let pc = advance flag nil more p.publisher in
        let (_, drains) = taking_open nil more p.publisher t in
        record {
          conserved =
              Conserved-place S pg wal submit s0 q p.gateways p.sequencer p.matcher pc p.terminated
                (publish_one-Conserved S pg wal submit s0 p (x ∷ ts) e v.conserved);
          sequencer = v.sequencer;
          matcher = v.matcher;
          flushed = v.flushed;
          publisher =
              advance-Phase flag nil more (is_nil ts) p.publisher
                (λ f. absurd (ground (arith, f, t))) v.publisher;
          batched = ground (arith, drains flag);
        }

    -- The publisher at an access that takes no trade.
    publisher_rests :
        (u : Publisher)
        → Inv s0 p
        → ((u ≡ p.publishing) × (is_drain p.publisher ≡ false)) ⊎ (u ≡ publisher_flush p.publishing)
        → Inv s0 (record p {
          publisher = advance (is_finished p.matcher) (is_nil p.sink.egress) more p.publisher;
          publishing = u;
        })
    publisher_rests u v h =
        let flag = is_finished p.matcher in
        let nil = is_nil p.sink.egress in
        let pc = advance flag nil more p.publisher in
        let phase = advance-Phase flag nil more nil p.publisher (λ _. refl) v.publisher in
        elim h [
          | inl (e, d) ↦
              subst (λ z. Inv s0 (record p { publisher = pc; publishing = z })) (sym e)
                (record {
                  conserved =
                      Conserved-place S pg wal submit s0 p p.gateways p.sequencer p.matcher pc
                        p.terminated v.conserved;
                  sequencer = v.sequencer;
                  matcher = v.matcher;
                  flushed = v.flushed;
                  publisher = phase;
                  batched = ground (arith, v.batched, d);
                })
          | inr e ↦
              let q = record p { publishing = publisher_flush p.publishing } in
              let (_, b) = publisher_flush-gone p.publishing in
              subst (λ z. Inv s0 (record p { publisher = pc; publishing = z })) (sym e)
                (record {
                  conserved =
                      Conserved-place S pg wal submit s0 q p.gateways p.sequencer p.matcher pc
                        p.terminated (publisher_flush-Conserved S pg wal submit s0 p v.conserved);
                  sequencer = v.sequencer;
                  matcher = v.matcher;
                  flushed = v.flushed;
                  publisher = phase;
                  batched = ground (arith, ap is_nil b);
                })
        ]

    publisher_moves-Inv : Inv s0 p → Inv s0 (publisher_moves S pg wal submit p more)
    unfolding publisher_moves
    publisher_moves-Inv v =
        let nil = is_nil p.sink.egress in
        let pc = advance (is_finished p.matcher) nil more p.publisher in
        elim (Bool-cases (is_taking nil more p.publisher)) [
          | inl t ↦
              let q = publish_one S pg wal submit p p.sink.egress in
              rw t (
                subst (λ z. Inv s0 (record q { publisher = pc; publishing = z }))
                  (sym (
                    end_publish_taking p.publisher q.publishing
                      (taking-drain nil more p.publisher t)))
                  (publish-Inv p.sink.egress refl t v))
          | inr t ↦ rw t (
              publisher_rests (end_publish false p.publisher p.publishing) v
                (end_publish_resting p.publisher p.publishing))
        ]

  move-Inv :
      (s0 : S) (p : Pipeline S pg wal submit) (m : Move S pg wal submit)
      → Inv s0 p
      → Inv s0 (move S pg wal submit p m)
  unfolding move
  move-Inv s0 p (push o) v = push-Inv s0 p o p.gateways refl v
  move-Inv s0 p join v = gateways-Inv s0 p (after_join p.gateways) (join_reported p.gateways) v
  move-Inv s0 p report v =
      gateways-Inv s0 p (after_report p.gateways) (report_reported p.gateways) v
  move-Inv s0 p (sequence more) v = sequencer_moves-Inv s0 p more v
  move-Inv s0 p (match more) v = matcher_moves-Inv s0 p more v
  move-Inv s0 p (multicast more) v = publisher_moves-Inv s0 p more v

  step-Inv :
      (s0 : S) (p : Pipeline S pg wal submit) (m : Move S pg wal submit)
      → Inv s0 p
      → Inv s0 (step S pg wal submit p m)
  unfolding step
  step-Inv s0 p m v =
      ite_both (Inv s0) p.terminated p (move S pg wal submit p m) v (move-Inv s0 p m v)

  run-Inv :
      (s0 : S) (p : Pipeline S pg wal submit) (ms : List (Move S pg wal submit))
      → Inv s0 p
      → Inv s0 (run S pg wal submit p ms)
  unfolding run
  run-Inv s0 p [] v = v
  run-Inv s0 p (m ∷ ms) v = run-Inv s0 (step S pg wal submit p m) ms (step-Inv s0 p m v)

  fresh-Inv :
      (s0 : S) (flush_interval sync_every : ℕ)
      → wal.capacity < 2 ^ 64
      → Inv s0 (fresh_pipeline S pg wal submit s0 flush_interval sync_every)
  unfolding create
  fresh-Inv s0 flush_interval sync_every w = record {
    conserved = fresh-Conserved S pg wal submit s0 flush_interval sync_every w;
    sequencer = (refl, refl);
    matcher = (refl, refl);
    flushed = refl;
    publisher = (refl, refl);
    batched = refl;
  }

  -- With a log of fewer than 2^64 orders: once the publisher has ended, after any sequence of moves
  -- of the gateways and the three threads, the gateways had been joined and reported before, both
  -- rings and the publisher's buffer are empty, the log has received all the orders that were
  -- ever accepted, in order and with their stamps, and the batches that were handed to the UDP
  -- publisher are together just what the matcher by itself makes of these: no order is dropped.
  pub shutdown_complete :
      (s0 : S) (flush_interval sync_every : ℕ) (ms : List (Move S pg wal submit))
      → wal.capacity < 2 ^ 64
      → let p =
          run S pg wal submit (fresh_pipeline S pg wal submit s0 flush_interval sync_every) ms in
        is_finished p.publisher ≡ true
        → (concat p.publishing.published ≡ (process S pg wal submit s0 (stamp 0 p.accepted)).1)
          × (records p.seq.journal ≡ records wal ++ stamp 0 p.accepted)
          × (p.inbound ≡ [])
          × (p.seq.ingress ≡ [])
          × (p.publishing.batch ≡ [])
          × (is_reported p.gateways ≡ true)
  shutdown_complete s0 flush_interval sync_every ms w e =
      let start = fresh_pipeline S pg wal submit s0 flush_interval sync_every in
      let p = run S pg wal submit start ms in
      let v = run-Inv s0 start ms (fresh-Inv s0 flush_interval sync_every w) in
      let (m, a) =
        finished-Phase (is_finished p.matcher) (is_nil p.sink.egress) p.publisher v.publisher e in
      let (q, b) =
        finished-Phase (is_finished p.sequencer) (is_nil p.seq.ingress) p.matcher v.matcher m in
      let (g, c) =
        finished-Phase (is_reported p.gateways) (is_nil p.inbound) p.sequencer v.sequencer q in
      let i = is_nil-eq p.inbound c in
      let j = is_nil-eq p.seq.ingress b in
      let buf = is_nil-eq p.sink.buf (ground (arith, v.flushed, finished_settled p.matcher m)) in
      let batch =
        is_nil-eq p.publishing.batch (ground (arith, v.batched, finished_settled p.publisher e)) in
      let (sent, logged) =
        drained S pg wal submit s0 p i j (is_nil-eq p.sink.egress a) buf batch v.conserved in
      (sent, logged, i, j, batch, g)
