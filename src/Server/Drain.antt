-- ===== src/Server/Drain.antt =====
-- What the pipeline holds and has sent is what its input makes, whatever item moves next.
use titan_hft.Common.{
  ℕ, ◌+◌, ◌^◌, ◌≤◌, ◌<◌, ◌≡◌, refl, sym, ap, ap₂, ◌∙◌, ◌⊎◌, inl, inr, Bool, true, none, some, List,
  [], ◌∷◌, ◌++◌, append-nil, append_assoc, arith, length, length-append,
}
use mathlib.Core.List.{foldl}
use titan_hft.Domain.{Order, TradeEvent}
use titan_hft.Journal.{Journaler, ms_sync}
use titan_hft.Journal.Records.{records, append_refines, sync_dirty_keeps}
use titan_hft.Sequencer.{Sequencer, create, publish, stop}
use titan_hft.Sequencer.Stamp.{stamp, Published, publish_lem}
use titan_hft.Server.{EgressSink, sink_publish, sink_flush, publisher_flush}
use titan_hft.Server.Buffers.{
  sink_publish_lem, flushed, concat, gone, publisher_flush-gone, publisher_take-gone,
}
use titan_hft.Server.Cascade.{
  Pc, Gateways, Pipeline, fresh_pipeline, sequence_one, match_one, publish_one,
}

sink_all_lem :
    (s : EgressSink) (ts : List TradeEvent)
    → length s.buf < 2 ^ 14
    → let r = foldl sink_publish s ts in
      (r.egress ++ r.buf ≡ (s.egress ++ s.buf) ++ ts) × (length r.buf < 2 ^ 14)
sink_all_lem s [] h = (sym (append-nil (s.egress ++ s.buf)), h)
sink_all_lem s (t ∷ ts) h =
    let (e, l) = sink_publish_lem s t h in
    let (a, b) = sink_all_lem (sink_publish s t) ts l in
    (a ∙ ap (λ l. l ++ ts) e ∙ append_assoc (s.egress ++ s.buf) (t ∷ []) ts, b)

stamp-append :
    (n : ℕ) (os : List Order) (o : Order)
    → stamp n (os ++ o ∷ []) ≡ stamp n os ++ record o { seq = n + length os } ∷ []
stamp-append n [] o = ap (λ k. record o { seq = k } ∷ []) (omega arith)
stamp-append n (a ∷ os) o =
    ap (λ l. record a { seq = n } ∷ l)
      (stamp-append (n + 1) os o
        ∙ ap (λ k. stamp (n + 1) os ++ record o { seq = k } ∷ []) (omega arith))

module _ (S : Type 0) (pg : ℕ) (wal : Journaler) (submit : S → Order → S × List TradeEvent) where
  -- The matcher by itself on a list of orders.
  pub process : S → List Order → S × List TradeEvent
  process s [] = (s, [])
  process s (o ∷ os) = let (s1, es) = submit s o in let (s2, fs) = process s1 os in (s2, es ++ fs)

  process-append :
      (s : S) (xs bs : List Order)
      → process s (xs ++ bs)
        ≡ ((process (process s xs).0 bs).0, (process s xs).1 ++ (process (process s xs).0 bs).1)
  unfolding process
  process-append s [] bs = refl
  process-append s (a ∷ xs) bs =
      let s1 = (submit s a).0 in
      let es = (submit s a).1 in
      ap (λ r. (r.0, es ++ r.1)) (process-append s1 xs bs)
      ∙ ap (λ l. ((process (process s1 xs).0 bs).0, l))
          (sym (append_assoc es (process s1 xs).1 (process (process s1 xs).0 bs).1))

  abbrev pub pending : Pipeline S pg wal submit → List Order
  pending p = p.seq.ingress ++ stamp p.seq.next_seq p.inbound

  -- What is in the pipeline still has to become what is missing from its output.
  pub record Conserved (s0 : S) (p : Pipeline S pg wal submit) : Type 0 where
    pub events :
        gone p.publishing ++ ((p.sink.egress ++ p.sink.buf) ++ (process p.state (pending p)).1)
        ≡ (process s0 (stamp 0 p.accepted)).1
    pub state : (process p.state (pending p)).0 ≡ (process s0 (stamp 0 p.accepted)).0
    pub count : p.seq.next_seq + length p.inbound ≡ length p.accepted
    pub small : length p.sink.buf < 2 ^ 14
    pub journaled :
        records p.seq.journal ++ stamp p.seq.next_seq p.inbound ≡ records wal ++ stamp 0 p.accepted
    pub logged : p.seq.journal.header.count ≡ wal.header.count + p.seq.next_seq
    pub capacity : p.seq.journal.capacity ≡ wal.capacity
    pub fits : wal.capacity < 2 ^ 64

  pub push-Conserved :
      (s0 : S) (p : Pipeline S pg wal submit) (o : Order)
      → Conserved s0 p
      → Conserved s0 (record p { accepted = p.accepted ++ o ∷ []; inbound = p.inbound ++ o ∷ [] })
  push-Conserved s0 p o v =
      let x = record o { seq = length p.accepted } in
      let a : stamp p.seq.next_seq (p.inbound ++ o ∷ [])
          ≡ stamp p.seq.next_seq p.inbound ++ x ∷ [] =
        stamp-append p.seq.next_seq p.inbound o
        ∙ ap (λ k. stamp p.seq.next_seq p.inbound ++ record o { seq = k } ∷ []) v.count in
      let b : stamp 0 (p.accepted ++ o ∷ []) ≡ stamp 0 p.accepted ++ x ∷ [] =
        stamp-append 0 p.accepted o
        ∙ ap (λ k. stamp 0 p.accepted ++ record o { seq = k } ∷ []) (omega arith) in
      let c =
        ap (λ l. process p.state (p.seq.ingress ++ l)) a
        ∙ ap (process p.state)
            (sym (append_assoc p.seq.ingress (stamp p.seq.next_seq p.inbound) (x ∷ [])))
        ∙ process-append p.state (pending p) (x ∷ []) in
      let d = ap (process s0) b ∙ process-append s0 (stamp 0 p.accepted) (x ∷ []) in
      let last = λ (s : S). (process s (x ∷ [])).1 in
      let ring = p.sink.egress ++ p.sink.buf in
      let before = (process p.state (pending p)).1 in
      record {
        events =
            ap (λ r. gone p.publishing ++ (ring ++ r.1)) c
            ∙ ap (λ l. gone p.publishing ++ l)
                (sym (append_assoc ring before (last (process p.state (pending p)).0)))
            ∙ sym (
                append_assoc (gone p.publishing) (ring ++ before)
                  (last (process p.state (pending p)).0))
            ∙ ap₂ (λ l s. l ++ last s) v.events v.state
            ∙ ap (λ r. r.1) (sym d);
        state = ap (λ r. r.0) c ∙ ap (λ s. (process s (x ∷ [])).0) v.state ∙ ap (λ r. r.0) (sym d);
        count =
            omega
              (arith, v.count, length-append p.inbound (o ∷ []), length-append p.accepted (o ∷ []));
        small = v.small;
        journaled =
            ap (λ l. records p.seq.journal ++ l) a
            ∙ sym (append_assoc (records p.seq.journal) (stamp p.seq.next_seq p.inbound) (x ∷ []))
            ∙ ap (λ l. l ++ x ∷ []) v.journaled
            ∙ append_assoc (records wal) (stamp 0 p.accepted) (x ∷ [])
            ∙ ap (λ l. records wal ++ l) (sym b);
        logged = v.logged;
        capacity = v.capacity;
        fits = v.fits;
      }

  -- The sequencer's `publish` takes the order, unless the log is full.
  publish_cases :
      (q : Sequencer) (o : Order)
      → q.journal.capacity < 2 ^ 64
      → q.next_seq ≤ q.journal.header.count
      → ((q' : Sequencer) × (publish pg q o ≡ some q') × Published pg q q' (o ∷ []))
        ⊎ (publish pg q o ≡ none)
  unfolding publish
  publish_cases q o w n = elim (append_refines q.journal (record o { seq = q.next_seq }) w) [
    | inl (room, _) ↦ inl (publish_lem pg q o w (omega arith) room)
    | inr (_, e) ↦ inr (rw (e, publish) refl)
  ]

  -- An order that is stamped and journaled moves on to the matcher's ring.
  pub sequenced :
      (s0 : S) (p : Pipeline S pg wal submit) (o : Order) (os : List Order) (q : Sequencer)
      → p.inbound ≡ o ∷ os
      → Published pg p.seq q (o ∷ [])
      → Conserved s0 p
      → Conserved s0 (record p { inbound = os; seq = q })
  sequenced s0 p o os q e u v =
      let x = record o { seq = p.seq.next_seq } in
      let later : stamp q.next_seq os ≡ stamp (p.seq.next_seq + 1) os =
        ap (λ k. stamp k os) u.next in
      let same : q.ingress ++ stamp q.next_seq os ≡ pending p =
        ap₂ ◌++◌ u.forwarded later
        ∙ append_assoc p.seq.ingress (x ∷ []) (stamp (p.seq.next_seq + 1) os)
        ∙ ap (λ l. p.seq.ingress ++ stamp p.seq.next_seq l) (sym e) in
      record {
        events =
            ap (λ l. gone p.publishing ++ ((p.sink.egress ++ p.sink.buf) ++ (process p.state l).1))
              same
            ∙ v.events;
        state = ap (λ l. (process p.state l).0) same ∙ v.state;
        count = omega (arith, v.count, ap length e, u.next);
        small = v.small;
        journaled =
            ap₂ ◌++◌ u.journaled later
            ∙ append_assoc (records p.seq.journal) (x ∷ []) (stamp (p.seq.next_seq + 1) os)
            ∙ ap (λ l. records p.seq.journal ++ stamp p.seq.next_seq l) (sym e)
            ∙ v.journaled;
        logged = omega (arith, u.count, u.next, v.logged);
        capacity = u.same_capacity ∙ v.capacity;
        fits = v.fits;
      }

  pub sequence_one_cases :
      (s0 : S) (p : Pipeline S pg wal submit) (o : Order) (os : List Order)
      → p.inbound ≡ o ∷ os
      → Conserved s0 p
      → ((q : Sequencer) × (sequence_one S pg wal submit p (o ∷ os)
            ≡ record p { inbound = os; seq = q })
          × (q.ingress ≡ p.seq.ingress ++ record o { seq = p.seq.next_seq } ∷ [])
          × Conserved s0 (record p { inbound = os; seq = q }))
        ⊎ (sequence_one S pg wal submit p (o ∷ os) ≡ record p { terminated = true })
  unfolding sequence_one
  sequence_one_cases s0 p o os e v =
      elim (publish_cases p.seq o (omega (arith, v.capacity, v.fits)) (omega (arith, v.logged))) [
        | inl (q, f, u) ↦
            inl (q, rw (f, sequence_one) refl, u.forwarded, sequenced s0 p o os q e u v)
        | inr f ↦ inr (rw (f, sequence_one) refl)
      ]

  pub stop-Conserved :
      (s0 : S) (p : Pipeline S pg wal submit)
      → Conserved s0 p
      → Conserved s0 (record p { seq = stop pg p.seq })
  unfolding stop
  stop-Conserved s0 p v =
      let (r, n, c, _) = sync_dirty_keeps pg p.seq.journal ms_sync in
      record {
        events = v.events;
        state = v.state;
        count = v.count;
        small = v.small;
        journaled = ap (λ l. l ++ stamp p.seq.next_seq p.inbound) r ∙ v.journaled;
        logged = n ∙ v.logged;
        capacity = c ∙ v.capacity;
        fits = v.fits;
      }

  pub match_one-Conserved :
      (s0 : S) (p : Pipeline S pg wal submit) (os : List Order)
      → p.seq.ingress ≡ os
      → Conserved s0 p
      → Conserved s0 (match_one S pg wal submit p os)
  unfolding process
  match_one-Conserved s0 p [] e v = v
  match_one-Conserved s0 p (o ∷ os) e v =
      let s1 = (submit p.state o).0 in
      let es = (submit p.state o).1 in
      let rest = os ++ stamp p.seq.next_seq p.inbound in
      let (a, b) = sink_all_lem p.sink es v.small in
      let same : process p.state (o ∷ rest) ≡ process p.state (pending p) =
        ap (λ l. process p.state (l ++ stamp p.seq.next_seq p.inbound)) (sym e) in
      record {
        events =
            ap (λ l. gone p.publishing ++ (l ++ (process s1 rest).1)) a
            ∙ ap (λ l. gone p.publishing ++ l)
                (append_assoc (p.sink.egress ++ p.sink.buf) es (process s1 rest).1)
            ∙ ap (λ r. gone p.publishing ++ ((p.sink.egress ++ p.sink.buf) ++ r.1)) same
            ∙ v.events;
        state = ap (λ r. r.0) same ∙ v.state;
        count = v.count;
        small = b;
        journaled = v.journaled;
        logged = v.logged;
        capacity = v.capacity;
        fits = v.fits;
      }

  pub publish_one-Conserved :
      (s0 : S) (p : Pipeline S pg wal submit) (ts : List TradeEvent)
      → p.sink.egress ≡ ts
      → Conserved s0 p
      → Conserved s0 (publish_one S pg wal submit p ts)
  publish_one-Conserved s0 p [] e v = v
  publish_one-Conserved s0 p (t ∷ ts) e v =
      let more = (process p.state (pending p)).1 in
      record {
        events =
            ap (λ l. l ++ ((ts ++ p.sink.buf) ++ more)) (publisher_take-gone p.publishing t)
            ∙ append_assoc (gone p.publishing) (t ∷ []) ((ts ++ p.sink.buf) ++ more)
            ∙ ap (λ l. gone p.publishing ++ ((l ++ p.sink.buf) ++ more)) (sym e)
            ∙ v.events;
        state = v.state;
        count = v.count;
        small = v.small;
        journaled = v.journaled;
        logged = v.logged;
        capacity = v.capacity;
        fits = v.fits;
      }

  pub flush-Conserved :
      (s0 : S) (p : Pipeline S pg wal submit)
      → Conserved s0 p
      → Conserved s0 (record p { sink = sink_flush p.sink })
  flush-Conserved s0 p v =
      let (a, b) = flushed p.sink in
      let same : (sink_flush p.sink).egress ++ (sink_flush p.sink).buf
          ≡ p.sink.egress ++ p.sink.buf =
        ap (λ l. (sink_flush p.sink).egress ++ l) b
        ∙ append-nil (sink_flush p.sink).egress
        ∙ a
        ∙ append-nil (p.sink.egress ++ p.sink.buf) in
      record {
        events =
            ap (λ l. gone p.publishing ++ (l ++ (process p.state (pending p)).1)) same ∙ v.events;
        state = v.state;
        count = v.count;
        small = omega (arith, ap length b);
        journaled = v.journaled;
        logged = v.logged;
        capacity = v.capacity;
        fits = v.fits;
      }

  pub publisher_flush-Conserved :
      (s0 : S) (p : Pipeline S pg wal submit)
      → Conserved s0 p
      → Conserved s0 (record p { publishing = publisher_flush p.publishing })
  publisher_flush-Conserved s0 p v = record {
    events =
        ap (λ l. l ++ ((p.sink.egress ++ p.sink.buf) ++ (process p.state (pending p)).1))
          (publisher_flush-gone p.publishing).0
        ∙ v.events;
    state = v.state;
    count = v.count;
    small = v.small;
    journaled = v.journaled;
    logged = v.logged;
    capacity = v.capacity;
    fits = v.fits;
  }

  -- The places of the threads and the flags matter to none of it.
  pub Conserved-place :
      (s0 : S) (p : Pipeline S pg wal submit) (g : Gateways) (a b c : Pc) (t : Bool)
      → Conserved s0 p
      → Conserved s0
          (record p { gateways = g; sequencer = a; matcher = b; publisher = c; terminated = t })
  Conserved-place s0 p g a b c t v = record {
    events = v.events;
    state = v.state;
    count = v.count;
    small = v.small;
    journaled = v.journaled;
    logged = v.logged;
    capacity = v.capacity;
    fits = v.fits;
  }

  pub fresh-Conserved :
      (s0 : S) (flush_interval sync_every : ℕ)
      → wal.capacity < 2 ^ 64
      → Conserved s0 (fresh_pipeline S pg wal submit s0 flush_interval sync_every)
  unfolding process create
  fresh-Conserved s0 flush_interval sync_every w = record {
    events = refl;
    state = refl;
    count = omega arith;
    small = omega arith;
    journaled = refl;
    logged = omega arith;
    capacity = refl;
    fits = w;
  }

  -- Nothing is left in the pipeline.
  pub drained :
      (s0 : S) (p : Pipeline S pg wal submit)
      → p.inbound ≡ []
      → p.seq.ingress ≡ []
      → p.sink.egress ≡ []
      → p.sink.buf ≡ []
      → p.publishing.batch ≡ []
      → Conserved s0 p
      → (concat p.publishing.published ≡ (process s0 (stamp 0 p.accepted)).1)
        × (records p.seq.journal ≡ records wal ++ stamp 0 p.accepted)
  unfolding process
  drained s0 p a b c d f v =
      let out = gone p.publishing in
      let none_left : pending p ≡ [] = ap₂ ◌++◌ b (ap (stamp p.seq.next_seq) a) in
      let ring : p.sink.egress ++ p.sink.buf ≡ [] = ap₂ ◌++◌ c d in
      let rest : (p.sink.egress ++ p.sink.buf) ++ (process p.state (pending p)).1 ≡ [] =
        ap₂ ◌++◌ ring (ap (λ l. (process p.state l).1) none_left) in
      let all_out : out ≡ concat p.publishing.published =
        ap (λ l. concat p.publishing.published ++ l) f
        ∙ append-nil (concat p.publishing.published) in
      (
        sym all_out ∙ sym (append-nil out) ∙ ap (λ l. out ++ l) (sym rest) ∙ v.events,
        sym (append-nil (records p.seq.journal))
            ∙ ap (λ l. records p.seq.journal ++ l) (sym (ap (stamp p.seq.next_seq) a))
            ∙ v.journaled,
      )
