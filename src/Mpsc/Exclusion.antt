-- ===== src/Mpsc/Exclusion.antt =====
-- No two threads are at the same cell: two producers never write the same cell, and none writes
-- the cell that the consumer reads.
use titan_hft.Common.{
  ℕ, suc, ◌+◌, ◌%◌, ◌^◌, ◌≤◌, ◌<◌, ◌≡◌, ◌≢◌, refl, sym, ap, ◌∙◌, subst, inl, inr, Bool, not, ◌&&◌,
  some, List, [], ◌∷◌, arith, ltb, ◌==◌, ==→eq, Bool-cases, update, length, u64,
}
use titan_hft.Mpsc.{
  Producer, Consumer, away, starting, looking, racing, writing, publishing, waiting, reading,
  freeing, advancing, System, Move, calls, produces, consumes, create, step, run, look, race,
  set_producer, producer_moves, consumer_moves, call,
}
use titan_hft.Mpsc.Invariant.{
  owned, raced, claimed, worked, next_cell, Inv, quiet, aims, wins, fills,
}

module _ {A : Type 0} (size : ℕ) (two : 2 ≤ size) where
  -- Producer `i` publishes its position.
  publishes :
      (s : System A) (n i p w : ℕ)
      → Inv size s (suc n)
      → s.producers i ≡ publishing p
      → Inv size
          (record s {
            producers = update s.producers i away;
            ring = record (s.ring) { seq = update s.ring.seq (p % size) w };
          })
          n
  publishes s n i p w v at =
      let own : owned (s.producers i) ≡ some p = ap owned at in
      let (lt, mine) = v.owner i p own in
      record {
        owner = λ j q h. elim (Bool-cases (j == i)) [
          | inl d ↦ absurd (ground arith)
          | inr d ↦
              let hq : owned (s.producers j) ≡ some q = ground arith in
              let (l, e) = v.owner j q hq in
              (
                l,
                elim (Bool-cases (q % size == p % size)) [
                  | inr f ↦ ground (arith, e)
                  | inl f ↦
                      let same : q ≡ p =
                        sym e ∙ ap s.ring.seq (==→eq (q % size) (p % size) f) ∙ mine in
                      absurd (ground (arith, v.unique j i p (hq ∙ ap some same) own))
                ],
              )
        ];
        unique = λ j l q h g. elim (Bool-cases (j == i)) [
          | inl d ↦ absurd (ground arith)
          | inr d ↦ elim (Bool-cases (l == i)) [
            | inl f ↦ absurd (ground arith)
            | inr f ↦ v.unique j l q (ground arith) (ground arith)
          ]
        ];
        racer = λ j q h. elim (Bool-cases (j == i)) [
          | inl d ↦ absurd (ground arith)
          | inr d ↦ elim (v.racer j q (ground arith)) [
            | inl l ↦ inl l
            | inr e ↦ elim (Bool-cases (q % size == p % size)) [
              | inr f ↦ inr (ground (arith, e))
              | inl f ↦
                  let same : q ≡ p = sym e ∙ ap s.ring.seq (==→eq (q % size) (p % size) f) ∙ mine in
                  inl (omega (arith, same, lt))
            ]
          ]
        ];
        reader = λ c h. elim (Bool-cases (c % size == p % size)) [
          | inr f ↦ ground (arith, v.reader c h)
          | inl f ↦
              let cell = ==→eq (c % size) (p % size) f in
              let next : c + 1 ≡ p = sym (v.reader c h) ∙ ap s.ring.seq cell ∙ mine in
              absurd (next_cell size c two (ap (λ k. k % size) next ∙ sym cell))
        ];
        place = v.place;
        bound = (omega (arith, v.bound), omega (arith, v.bound));
      }

  -- The consumer frees the cell that it has read.
  frees :
      (s : System A) (n c w : ℕ) (x : A)
      → Inv size s (suc n)
      → s.consumer ≡ freeing c x
      → Inv size
          (record s {
            consumer = advancing c x;
            ring = record (s.ring) { seq = update s.ring.seq (c % size) w };
          })
          n
  frees s n c w x v at =
      let here = v.reader c (ap claimed at) in
      let apart : (q : ℕ) → s.ring.seq (q % size) ≡ q → q % size ≢ c % size = λ q e f.
        next_cell size c two (ap (λ k. k % size) (sym here ∙ ap s.ring.seq (sym f) ∙ e) ∙ f) in
      record {
        owner = λ j q h. let (l, e) = v.owner j q h in (l, ground (arith, apart q e, e));
        unique = v.unique;
        racer = λ j q h. elim (v.racer j q h) [
          | inl l ↦ inl l
          | inr e ↦ inr (ground (arith, apart q e, e))
        ];
        reader = λ k h. absurd (ground arith);
        place = λ k h. v.place k (ap worked at ∙ h);
        bound = (omega (arith, v.bound), omega (arith, v.bound));
      }

  weaker : (s : System A) (n : ℕ) → Inv size s (suc n) → Inv size s n
  weaker s n v = record {
    owner = v.owner;
    unique = v.unique;
    racer = v.racer;
    reader = v.reader;
    place = v.place;
    bound = (omega (arith, v.bound), omega (arith, v.bound));
  }

  producer_moves-Inv :
      (s : System A) (n i : ℕ) (b : Bool) (p : Producer A)
      → s.producers i ≡ p
      → Inv size s (suc n)
      → Inv size (producer_moves size s i b p) n
  unfolding producer_moves look race set_producer
  producer_moves-Inv s n i b away e v = weaker s n v
  producer_moves-Inv s n i b (starting x) e v =
      quiet size two s n i (looking s.ring.enqueue x) s.refused v refl refl
  producer_moves-Inv s n i b (looking pos x) e v =
      elim (Bool-cases (s.ring.seq (pos % size) == pos)) [
        | inl f ↦ rw f (aims size two s n i pos x v (==→eq (s.ring.seq (pos % size)) pos f))
        | inr f ↦ elim (Bool-cases (ltb (s.ring.seq (pos % size)) pos)) [
          | inl g ↦ rw (f, g) (quiet size two s n i away (s.refused + 1) v refl refl)
          | inr g ↦ rw (f, g) (quiet size two s n i (starting x) s.refused v refl refl)
        ]
      ]
  producer_moves-Inv s n i b (racing pos x) e v =
      elim (Bool-cases ((s.ring.enqueue == pos) && not b)) [
        | inr f ↦ rw f (quiet size two s n i (looking s.ring.enqueue x) s.refused v refl refl)
        | inl f ↦
            let same : s.ring.enqueue ≡ pos = ground arith in
            let free : s.ring.seq (s.ring.enqueue % size) ≡ s.ring.enqueue =
              elim (v.racer i pos (ap raced e)) [
                | inl l ↦ absurd (omega (arith, same, l))
                | inr q ↦ subst (λ k. s.ring.seq (k % size) ≡ k) (sym same) q
              ] in
            rw f (
              subst
                (λ k.
                  Inv size
                    (record s {
                      producers = update s.producers i (writing k x);
                      ring = record (s.ring) { enqueue = u64 (k + 1) };
                    })
                    n)
                same (wins size two s n i x v free))
      ]
  producer_moves-Inv s n i b (writing pos x) e v =
      fills size two s n i pos x (update s.ring.payload (pos % size) x) v e
  producer_moves-Inv s n i b (publishing pos) e v = publishes s n i pos (u64 (pos + 1)) v e

  consumer_moves-Inv :
      (s : System A) (n : ℕ) (c : Consumer A)
      → s.consumer ≡ c
      → Inv size s (suc n)
      → Inv size (consumer_moves size s c) n
  unfolding consumer_moves
  consumer_moves-Inv s n waiting e v =
      elim (Bool-cases (s.ring.seq (s.ring.dequeue % size) == u64 (s.ring.dequeue + 1))) [
        | inr f ↦ rw f (weaker s n v)
        | inl f ↦
            let ready : s.ring.seq (s.ring.dequeue % size) ≡ s.ring.dequeue + 1 =
              ==→eq (s.ring.seq (s.ring.dequeue % size)) (u64 (s.ring.dequeue + 1)) f
              ∙ omega (arith, v.bound) in
            rw f (record {
              owner = v.owner;
              unique = v.unique;
              racer = v.racer;
              reader = λ c h.
                  let same : s.ring.dequeue ≡ c = ground arith in
                  subst (λ k. s.ring.seq (k % size) ≡ k + 1) same ready;
              place = λ c h. ground arith;
              bound = (omega (arith, v.bound), omega (arith, v.bound));
            })
      ]
  consumer_moves-Inv s n (reading p) e v = record {
    owner = v.owner;
    unique = v.unique;
    racer = v.racer;
    reader = λ c h. v.reader c (ap claimed e ∙ h);
    place = λ c h. v.place c (ap worked e ∙ h);
    bound = (omega (arith, v.bound), omega (arith, v.bound));
  }
  consumer_moves-Inv s n (freeing p x) e v = frees s n p (u64 (p + size)) x v e
  consumer_moves-Inv s n (advancing p x) e v =
      let at = v.place p (ap worked e) in
      let k : u64 (p + 1) ≡ p + 1 = omega (arith, v.bound, at) in
      record {
        owner = v.owner;
        unique = v.unique;
        racer = v.racer;
        reader = λ c h. absurd (ground arith);
        place = λ c h. absurd (ground arith);
        bound = (omega (arith, v.bound), omega (arith, v.bound, at, k));
      }

  call-Inv :
      (s : System A) (n i : ℕ) (x : A) (p : Producer A)
      → Inv size s (suc n)
      → Inv size (call size s i x p) n
  unfolding call set_producer
  call-Inv s n i x away v = quiet size two s n i (starting x) s.refused v refl refl
  call-Inv s n i x (starting y) v = weaker s n v
  call-Inv s n i x (looking p y) v = weaker s n v
  call-Inv s n i x (racing p y) v = weaker s n v
  call-Inv s n i x (writing p y) v = weaker s n v
  call-Inv s n i x (publishing p) v = weaker s n v

  step-Inv : (s : System A) (n : ℕ) (m : Move A) → Inv size s (suc n) → Inv size (step size s m) n
  unfolding step
  step-Inv s n (calls i x) v = call-Inv s n i x (s.producers i) v
  step-Inv s n (produces i b) v = producer_moves-Inv s n i b (s.producers i) refl v
  step-Inv s n consumes v = consumer_moves-Inv s n s.consumer refl v

  run-Inv :
      (ms : List (Move A)) (s : System A) → Inv size s (length ms) → Inv size (run size s ms) 0
  unfolding run
  run-Inv [] s v = v
  run-Inv (m ∷ ms) s v = run-Inv ms (step size s m) (step-Inv s (length ms) m v)

  -- A ring as it is created, with no call running.
  abbrev pub fresh : (ℕ → A) → System A
  fresh storage = record {
    ring = create size storage;
    producers = λ _. away;
    consumer = waiting;
    taken = [];
    refused = 0;
  }

  fresh-Inv : (storage : ℕ → A) (n : ℕ) → n < 2 ^ 64 → Inv size (fresh storage) n
  unfolding create
  fresh-Inv storage n h = record {
    owner = λ i p e. absurd (ground arith);
    unique = λ i j p e f. absurd (ground arith);
    racer = λ i p e. absurd (ground arith);
    reader = λ c e. absurd (ground arith);
    place = λ c e. absurd (ground arith);
    bound = (omega arith, omega arith);
  }

  -- In a ring of at least two cells, however the accesses of the producers and the consumer fall
  -- (fewer than 2^64 of them), no two producers write or publish the same cell at a time.
  pub producers_apart :
      (storage : ℕ → A) (ms : List (Move A)) (i j p q : ℕ)
      → length ms < 2 ^ 64
      → i ≢ j
      → owned ((run size (fresh storage) ms).producers i) ≡ some p
      → owned ((run size (fresh storage) ms).producers j) ≡ some q
      → p % size ≢ q % size
  producers_apart storage ms i j p q w ne hp hq cell =
      let s = run size (fresh storage) ms in
      let v = run-Inv ms (fresh storage) (fresh-Inv storage (length ms) w) in
      let same : p ≡ q = sym (v.owner i p hp).1 ∙ ap s.ring.seq cell ∙ (v.owner j q hq).1 in
      ne (v.unique i j q (hp ∙ ap some same) hq)

  -- In a ring of at least two cells, however the accesses fall (fewer than 2^64 of them), no
  -- producer writes or publishes the cell that the consumer reads.
  pub consumer_apart :
      (storage : ℕ → A) (ms : List (Move A)) (i p c : ℕ)
      → length ms < 2 ^ 64
      → owned ((run size (fresh storage) ms).producers i) ≡ some p
      → claimed (run size (fresh storage) ms).consumer ≡ some c
      → p % size ≢ c % size
  consumer_apart storage ms i p c w hp hc cell =
      let s = run size (fresh storage) ms in
      let v = run-Inv ms (fresh storage) (fresh-Inv storage (length ms) w) in
      let next : c + 1 ≡ p = sym (v.reader c hc) ∙ ap s.ring.seq (sym cell) ∙ (v.owner i p hp).1 in
      next_cell size c two (ap (λ k. k % size) next ∙ cell)
