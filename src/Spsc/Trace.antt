-- ===== src/Spsc/Trace.antt =====
-- Any sequence of calls by the producer and the consumer: what comes out is what went in.
use titan_hft.Common.{
  ℕ, ◌+◌, ◌^◌, ◌≤◌, ◌<◌, ◌≡◌, refl, sym, ap, ◌∙◌, inl, inr, Option, none, some, List, [], ◌∷◌, ◌++◌,
  append-nil, append_assoc, arith, if◌then◌else◌, length, take,
}
use mathlib.Core.List.{foldl}
use titan_hft.Spsc.{Spsc, create, try_publish, publish_wave, try_consume, consume_batch}
use titan_hft.Spsc.Refine.{
  IsValid, contents, length-contents, create-IsValid, try_publish_refines, Consumed,
  try_consume_refines, consume_batch_refines,
}
use titan_hft.Spsc.Wave.{publish_wave_refines}

-- A call of one of the two threads.
pub data Call (A : Type 0) : Type 0 where
  publishes : A → Call A
  waves : List A → Call A
  consumes : Call A
  drains : Call A

-- The ring, what it has accepted so far, and what has been taken out of it.
pub record History (A : Type 0) : Type 0 where
  pub ring : Spsc A
  pub accepted : List A
  pub consumed : List A

module _ {A : Type 0} (size : ℕ) where
  publish_call : History A → A → History A
  publish_call h x =
      let (r, done) = try_publish size h.ring x in
      record {
        ring = r;
        accepted = if done then h.accepted ++ x ∷ [] else h.accepted;
        consumed = h.consumed;
      }

  wave_call : History A → List A → History A
  wave_call h xs =
      let (r, n) = publish_wave size h.ring xs in
      record { ring = r; accepted = h.accepted ++ take n xs; consumed = h.consumed }

  consume_result : History A → Spsc A × Option A → History A
  consume_result h (r, none) = record h { ring = r }
  consume_result h (r, some x) = record h { ring = r; consumed = h.consumed ++ x ∷ [] }

  -- The handler of a drain appends each item to what has been consumed.
  drain_call : History A → History A
  drain_call h =
      let (r, out, n) = consume_batch size (λ l x. l ++ x ∷ []) h.consumed h.ring in
      record h { ring = r; consumed = out }

  unfoldable pub step : History A → Call A → History A
  unfolding publish_call wave_call consume_result drain_call
  step h (publishes x) = publish_call h x
  step h (waves xs) = wave_call h xs
  step h consumes = consume_result h (try_consume size h.ring)
  step h drains = drain_call h

  unfoldable pub run : History A → List (Call A) → History A
  unfolding step
  run h [] = h
  run h (c ∷ cs) = run (step h c) cs

  -- An upper bound of the items that the calls offer.
  abbrev pub offered : List (Call A) → ℕ
  offered [] = 0
  offered (publishes x ∷ cs) = 1 + offered cs
  offered (waves xs ∷ cs) = length xs + offered cs
  offered (consumes ∷ cs) = offered cs
  offered (drains ∷ cs) = offered cs

  pub record Inv (h : History A) : Type 0 where
    pub valid : IsValid size h.ring
    pub balance : h.accepted ≡ h.consumed ++ contents size h.ring

  foldl-append : (out xs : List A) → foldl (λ l x. l ++ x ∷ []) out xs ≡ out ++ xs
  foldl-append out [] = sym (append-nil out)
  foldl-append out (x ∷ xs) = foldl-append (out ++ x ∷ []) xs ∙ append_assoc out (x ∷ []) xs

  -- How far a call can move the producer's cursor.
  cursor-try_publish-le : (r : Spsc A) (x : A) → (try_publish size r x).0.cursor ≤ r.cursor + 1
  unfolding try_publish
  cursor-try_publish-le r x = ground arith

  cursor-publish_wave-le :
      (r : Spsc A) (xs : List A) → (publish_wave size r xs).0.cursor ≤ r.cursor + length xs
  unfolding publish_wave
  cursor-publish_wave-le r xs = ground arith

  cursor-try_consume : (r : Spsc A) → (try_consume size r).0.cursor ≡ r.cursor
  unfolding try_consume
  cursor-try_consume r = ground arith

  cursor-consume_result : (h : History A) (r : Spsc A × Option A) → (consume_result h r).ring ≡ r.0
  unfolding consume_result
  cursor-consume_result h (r, none) = refl
  cursor-consume_result h (r, some x) = refl

  cursor-step-le :
      (h : History A) (c : Call A) (cs : List (Call A))
      → h.ring.cursor + offered (c ∷ cs) < 2 ^ 64
      → (step h c).ring.cursor + offered cs < 2 ^ 64
  unfolding step
  cursor-step-le h (publishes x) cs w = omega (arith, cursor-try_publish-le h.ring x)
  cursor-step-le h (waves xs) cs w = omega (arith, cursor-publish_wave-le h.ring xs)
  cursor-step-le h consumes cs w =
      rw (cursor-consume_result h (try_consume size h.ring))
        (omega (arith, cursor-try_consume h.ring))
  cursor-step-le h drains cs w = unfold consume_batch in ground arith

  consume_result-Inv :
      (h : History A) (r : Spsc A × Option A)
      → Inv h
      → Consumed size h.ring r
      → Inv (consume_result h r)
  unfolding consume_result
  consume_result-Inv h (r, none) i (v, e, e') = record {
    valid = v;
    balance = i.balance ∙ ap (λ l. h.consumed ++ l) (e ∙ sym e');
  }
  consume_result-Inv h (r, some x) i (v, e) = record {
    valid = v;
    balance =
        i.balance
        ∙ ap (λ l. h.consumed ++ l) e
        ∙ sym (append_assoc h.consumed (x ∷ []) (contents size r));
  }

  publish_call-Inv :
      (h : History A) (x : A) → Inv h → h.ring.cursor + 1 < 2 ^ 64 → Inv (publish_call h x)
  unfolding publish_call
  publish_call-Inv h x i w = elim (try_publish_refines size h.ring x i.valid w).1 [
    | inl (done, _, e) ↦ record {
      valid = (try_publish_refines size h.ring x i.valid w).0;
      balance = rw done (
          ap (λ l. l ++ x ∷ []) i.balance
          ∙ append_assoc h.consumed (contents size h.ring) (x ∷ [])
          ∙ ap (λ l. h.consumed ++ l) (sym e));
    }
    | inr (done, _, e) ↦ record {
      valid = (try_publish_refines size h.ring x i.valid w).0;
      balance = rw done (i.balance ∙ ap (λ l. h.consumed ++ l) (sym e));
    }
  ]

  step-Inv :
      (h : History A) (c : Call A)
      → Inv h
      → h.ring.cursor + offered (c ∷ []) < 2 ^ 64
      → Inv (step h c)
  unfolding step
  step-Inv h (publishes x) i w = publish_call-Inv h x i (omega arith)
  step-Inv h (waves xs) i w =
      let (v, le, _, e) = publish_wave_refines size h.ring xs i.valid (omega arith) in
      record {
        valid = v;
        balance =
            ap (λ l. l ++ take (publish_wave size h.ring xs).1 xs) i.balance
            ∙ append_assoc h.consumed (contents size h.ring) _
            ∙ ap (λ l. h.consumed ++ l) (sym e);
      }
  step-Inv h consumes i w =
      consume_result-Inv h (try_consume size h.ring) i (try_consume_refines size h.ring i.valid)
  step-Inv h drains i w =
      let (v, e, _, nil) =
        consume_batch_refines size (λ l x. l ++ x ∷ []) h.consumed h.ring i.valid in
      record {
        valid = v;
        balance =
            i.balance
            ∙ sym (foldl-append h.consumed (contents size h.ring))
            ∙ sym e
            ∙ sym (append-nil _)
            ∙ ap (λ l. (step h drains).consumed ++ l) (sym nil);
      }

  run-Inv :
      (h : History A) (cs : List (Call A))
      → Inv h
      → h.ring.cursor + offered cs < 2 ^ 64
      → Inv (run h cs)
  unfolding run
  run-Inv h [] i w = i
  run-Inv h (c ∷ cs) i w =
      run-Inv (step h c) cs (step-Inv h c i (one c w)) (cursor-step-le h c cs w)
    where
      one :
          (c : Call A)
          → h.ring.cursor + offered (c ∷ cs) < 2 ^ 64
          → h.ring.cursor + offered (c ∷ []) < 2 ^ 64
      one (publishes x) w = omega arith
      one (waves xs) w = omega arith
      one consumes w = omega arith
      one drains w = omega arith

  abbrev pub started : (ℕ → A) → History A
  started storage = record { ring = create size storage; accepted = []; consumed = [] }

  -- After any sequence of calls by the two threads that offers fewer than 2^64 items, what has been
  -- consumed, followed by what is in flight, is what was accepted: nothing is lost, made up,
  -- repeated or reordered. At most `size` items are in flight.
  pub run_fifo :
      (storage : ℕ → A) (cs : List (Call A))
      → 0 < size
      → size ≤ 2 ^ 63
      → offered cs < 2 ^ 64
      → let h = run (started storage) cs in
        (h.accepted ≡ h.consumed ++ contents size h.ring) × (length (contents size h.ring) ≤ size)
  unfolding create
  run_fifo storage cs p s w =
      let i =
        run-Inv (started storage) cs
          (record { valid = create-IsValid size storage p s; balance = refl }) (omega arith) in
      (i.balance, omega (arith, length-contents size (run (started storage) cs).ring, i.valid.fits))
