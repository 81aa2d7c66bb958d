-- ===== src/SnapshotPool/Claim.antt =====
-- The claim of the reader and the reuse of the writer exclude each other.
use titan_hft.Common.{
  ℕ, ◌+◌, ◌≡◌, refl, ap, ◌∙◌, subst, inl, inr, Bool, true, false, Option, none, some, List, [], ◌∷◌,
  arith, ltb, leb, ◌==◌, ==→eq, eq_refl, Bool-cases,
}
use titan_hft.SnapshotPool.{
  Shared, Writer, Reader, Move, writes, goes_on, reads, resting, scanning, filling, away, trying,
  claiming, checking, yielding, holding, is_live, step, run, start, scan, writer_goes_on,
  writer_writes, reader_moves, loaded, claim_retries,
}

-- The writer knows the live buffer, and fills another one.
abbrev pub WriterOk : Option ℕ → Writer → Type 0
WriterOk published resting = Unit
WriterOk published (scanning live j) = live ≡ published
WriterOk published (filling j) = is_live published j ≡ false

abbrev pub fills : Writer → ℕ → Bool
fills resting i = false
fills (scanning live j) i = false
fills (filling j) i = j == i

-- The reader's claim is announced, and a held buffer is not being filled.
abbrev pub ReaderOk : (ℕ → Bool) → Writer → Reader → Type 0
ReaderOk in_use w away = Unit
ReaderOk in_use w (trying n) = Unit
ReaderOk in_use w (claiming n i) = Unit
ReaderOk in_use w (checking n i) = in_use i ≡ true
ReaderOk in_use w (yielding n i) = Unit
ReaderOk in_use w (holding i) = (in_use i ≡ true) × (fills w i ≡ false)

ReaderOk-writer :
    (u : ℕ → Bool) (w w' : Writer) (r : Reader)
    → ((i : ℕ) → u i ≡ true → fills w' i ≡ false)
    → ReaderOk u w r
    → ReaderOk u w' r
ReaderOk-writer u w w' away h e = tt
ReaderOk-writer u w w' (trying n) h e = tt
ReaderOk-writer u w w' (claiming n i) h e = tt
ReaderOk-writer u w w' (checking n i) h e = e
ReaderOk-writer u w w' (yielding n i) h e = tt
ReaderOk-writer u w w' (holding i) h e = (e.0, h i e.0)

loaded-Ok : (u : ℕ → Bool) (w : Writer) (n : ℕ) (o : Option ℕ) → ReaderOk u w (loaded n o)
unfolding loaded
loaded-Ok u w n none = tt
loaded-Ok u w n (some i) = tt

-- A writer that is about to hold a live slot does not fill it.
not_filling :
    (published : Option ℕ) (w : Writer) (i : ℕ)
    → WriterOk published w
    → is_live published i ≡ true
    → fills w i ≡ false
not_filling published resting i ok live = refl
not_filling published (scanning l j) i ok live = refl
not_filling published (filling j) i ok live = elim (Bool-cases (j == i)) [
  | inr e ↦ e
  | inl e ↦ absurd (ground (arith, ap (is_live published) (==→eq j i e)))
]

pub record Exclusive {B : Type 0} (s : Shared B) : Type 0 where
  pub writer_ok : WriterOk s.published s.writer
  pub reader_ok : ReaderOk s.in_use s.writer s.reader

module _ {B : Type 0} (slots : ℕ) where
  goes_on-Exclusive :
      (s : Shared B) (w : Writer)
      → s.writer ≡ w
      → WriterOk s.published w
      → ReaderOk s.in_use s.writer s.reader
      → Exclusive (writer_goes_on slots s w)
  unfolding writer_goes_on scan
  goes_on-Exclusive s resting e ok r = record {
    writer_ok = refl;
    reader_ok = ReaderOk-writer s.in_use s.writer (scanning s.published 0) s.reader (λ i h. refl) r;
  }
  goes_on-Exclusive s (filling j) e ok r = record {
    writer_ok = tt;
    reader_ok = ReaderOk-writer s.in_use s.writer resting s.reader (λ i h. refl) r;
  }
  goes_on-Exclusive s (scanning live j) e ok r = elim (Bool-cases (leb slots j)) [
    | inl t ↦ rw t (record {
      writer_ok = tt;
      reader_ok = ReaderOk-writer s.in_use s.writer resting s.reader (λ i h. refl) r;
    })
    | inr t ↦
        let on : ReaderOk s.in_use (scanning live (j + 1)) s.reader =
          ReaderOk-writer s.in_use s.writer (scanning live (j + 1)) s.reader (λ i h. refl) r in
        elim (Bool-cases (is_live live j)) [
          | inl l ↦ rw (t, l) (record { writer_ok = ok; reader_ok = on })
          | inr l ↦ elim (Bool-cases (s.in_use j)) [
            | inl u ↦ rw (t, l, u) (record { writer_ok = ok; reader_ok = on })
            | inr u ↦
                rw (t, l, u)
                  (record {
                    writer_ok = subst (λ o. is_live o j ≡ false) ok l;
                    reader_ok =
                        ReaderOk-writer s.in_use s.writer (filling j) s.reader
                          (λ i h. elim (Bool-cases (j == i)) [
                            | inr d ↦ d
                            | inl d ↦ absurd (ground (arith, ap s.in_use (==→eq j i d)))
                          ])
                          r;
                  })
          ]
        ]
  ]

  writes-Exclusive :
      (s : Shared B) (v : B) (w : Writer) → Exclusive s → Exclusive (writer_writes slots s v w)
  unfolding writer_writes
  writes-Exclusive s v resting e = e
  writes-Exclusive s v (scanning live j) e = e
  writes-Exclusive s v (filling j) e = record { writer_ok = e.writer_ok; reader_ok = e.reader_ok }

  reads-Exclusive :
      (s : Shared B) (r : Reader)
      → WriterOk s.published s.writer
      → ReaderOk s.in_use s.writer r
      → Exclusive (reader_moves slots s r)
  unfolding reader_moves
  reads-Exclusive s away ok r = record { writer_ok = ok; reader_ok = tt }
  reads-Exclusive s (trying n) ok r = record {
    writer_ok = ok;
    reader_ok = loaded-Ok s.in_use s.writer n s.published;
  }
  reads-Exclusive s (claiming n i) ok r = record { writer_ok = ok; reader_ok = ground arith }
  reads-Exclusive s (checking n i) ok r = elim (Bool-cases (is_live s.published i)) [
    | inl l ↦
        rw l (record { writer_ok = ok; reader_ok = (r, not_filling s.published s.writer i ok l) })
    | inr l ↦ rw l (record { writer_ok = ok; reader_ok = tt })
  ]
  reads-Exclusive s (yielding n i) ok r = elim (Bool-cases (ltb (n + 1) claim_retries)) [
    | inl l ↦ rw l (record { writer_ok = ok; reader_ok = tt })
    | inr l ↦ rw l (record { writer_ok = ok; reader_ok = tt })
  ]
  reads-Exclusive s (holding i) ok r = record { writer_ok = ok; reader_ok = tt }

  step-Exclusive : (s : Shared B) (m : Move B) → Exclusive s → Exclusive (step slots s m)
  unfolding step
  step-Exclusive s (writes v) e = writes-Exclusive s v s.writer e
  step-Exclusive s goes_on e = goes_on-Exclusive s s.writer refl e.writer_ok e.reader_ok
  step-Exclusive s reads e = reads-Exclusive s s.reader e.writer_ok e.reader_ok

  run-Exclusive : (ms : List (Move B)) (s : Shared B) → Exclusive s → Exclusive (run slots s ms)
  unfolding run
  run-Exclusive [] s e = e
  run-Exclusive (m ∷ ms) s e = run-Exclusive ms (step slots s m) (step-Exclusive s m e)

  buffers-goes_on : (s : Shared B) (w : Writer) → (writer_goes_on slots s w).buffers ≡ s.buffers
  unfolding writer_goes_on
  buffers-goes_on s resting = refl
  buffers-goes_on s (scanning live j) = refl
  buffers-goes_on s (filling j) = refl

  buffers-reads : (s : Shared B) (r : Reader) → (reader_moves slots s r).buffers ≡ s.buffers
  unfolding reader_moves
  buffers-reads s away = refl
  buffers-reads s (trying n) = refl
  buffers-reads s (claiming n i) = refl
  buffers-reads s (checking n i) = refl
  buffers-reads s (yielding n i) = refl
  buffers-reads s (holding i) = refl

  buffers-writes :
      (s : Shared B) (v : B) (w : Writer) (i : ℕ)
      → fills w i ≡ false
      → (writer_writes slots s v w).buffers i ≡ s.buffers i
  unfolding writer_writes
  buffers-writes s v resting i h = refl
  buffers-writes s v (scanning live j) i h = refl
  buffers-writes s v (filling j) i h = ground arith

  buffers-step :
      (s : Shared B) (m : Move B) (i : ℕ)
      → fills s.writer i ≡ false
      → (step slots s m).buffers i ≡ s.buffers i
  unfolding step
  buffers-step s (writes v) i h = buffers-writes s v s.writer i h
  buffers-step s goes_on i h = ap (λ f. f i) (buffers-goes_on s s.writer)
  buffers-step s reads i h = ap (λ f. f i) (buffers-reads s s.reader)

  -- However the accesses of the two threads fall, no move changes the buffer that the reader holds.
  pub held_stable :
      (buffers : ℕ → B) (ms : List (Move B)) (i : ℕ) (m : Move B)
      → (run slots (start buffers) ms).reader ≡ holding i
      → (step slots (run slots (start buffers) ms) m).buffers i
        ≡ (run slots (start buffers) ms).buffers i
  held_stable buffers ms i m e =
      let s = run slots (start buffers) ms in
      let x = run-Exclusive ms (start buffers) (record { writer_ok = tt; reader_ok = tt }) in
      let held = subst (ReaderOk s.in_use s.writer) e x.reader_ok in buffers-step s m i held.1

  -- No move changes the published buffer.
  pub published_stable :
      (buffers : ℕ → B) (ms : List (Move B)) (i : ℕ) (m : Move B)
      → (run slots (start buffers) ms).published ≡ some i
      → (step slots (run slots (start buffers) ms) m).buffers i
        ≡ (run slots (start buffers) ms).buffers i
  published_stable buffers ms i m e =
      let s = run slots (start buffers) ms in
      let x = run-Exclusive ms (start buffers) (record { writer_ok = tt; reader_ok = tt }) in
      buffers-step s m i
        (not_filling s.published s.writer i x.writer_ok (ap (λ o. is_live o i) e ∙ eq_refl i))
