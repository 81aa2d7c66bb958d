-- ===== src/Server/Buffers.antt =====
-- The buffers pass every trade on, once and in order, and stay bounded.
use titan_hft.Common.{
  ◌+◌, ◌^◌, ◌<◌, ◌≡◌, refl, sym, ap, ◌∙◌, subst, inl, inr, List, [], ◌∷◌, ◌++◌, append-nil,
  append_assoc, arith, leb, ◌==◌, ==→eq, Bool-cases, length, length-append, u64,
}
use mathlib.Core.List.{foldl}
use titan_hft.Domain.{TradeEvent}
use titan_hft.Server.{
  EgressSink, sink_publish, sink_flush, sink_hwm, pub_hwm, Publisher, publisher_flush,
  publisher_take, hash_trade,
}

length-zero : (xs : List TradeEvent) → length xs ≡ 0 → xs ≡ []
length-zero [] h = refl
length-zero (x ∷ xs) h = absurd (omega arith)

pub sink_publish_lem :
    (s : EgressSink) (t : TradeEvent)
    → length s.buf < 2 ^ 14
    → let s' = sink_publish s t in
      (s'.egress ++ s'.buf ≡ (s.egress ++ s.buf) ++ t ∷ []) × (length s'.buf < 2 ^ 14)
unfolding sink_publish
sink_publish_lem s t h = elim (Bool-cases (leb sink_hwm (length (s.buf ++ t ∷ [])))) [
  | inl e ↦ rw e (
    append-nil (s.egress ++ (s.buf ++ t ∷ [])) ∙ sym (append_assoc s.egress s.buf (t ∷ [])),
    omega arith,
  )
  | inr e ↦ rw e (sym (append_assoc s.egress s.buf (t ∷ [])), ground arith)
]

pub flushed :
    (s : EgressSink)
    → ((sink_flush s).egress ≡ (s.egress ++ s.buf) ++ []) × ((sink_flush s).buf ≡ [])
unfolding sink_flush
flushed s = elim (Bool-cases (length s.buf == 0)) [
  | inr e ↦ rw e (sym (append-nil (s.egress ++ s.buf)), refl)
  | inl e ↦
      let none_left : s.buf ≡ [] = length-zero s.buf (==→eq (length s.buf) 0 e) in
      rw e (
        sym (
            append-nil (s.egress ++ s.buf)
            ∙ ap (λ l. s.egress ++ l) none_left
            ∙ append-nil s.egress),
        none_left,
      )
]

-- From a buffer below its mark: once the sink is flushed, the egress ring has taken all the trades
-- of the matcher, in order, behind those before them; before the flush the buffer is below its
-- mark.
pub sink_lem :
    (s : EgressSink) (ts : List TradeEvent)
    → length s.buf < 2 ^ 14
    → (length (foldl sink_publish s ts).buf < 2 ^ 14)
      × ((sink_flush (foldl sink_publish s ts)).egress ≡ (s.egress ++ s.buf) ++ ts)
      × ((sink_flush (foldl sink_publish s ts)).buf ≡ [])
sink_lem s [] h = let (a, b) = flushed s in (h, a, b)
sink_lem s (t ∷ ts) h =
    let (e, l) = sink_publish_lem s t h in
    let (a, b, c) = sink_lem (sink_publish s t) ts l in
    (a, b ∙ ap (λ l. l ++ ts) e ∙ append_assoc (s.egress ++ s.buf) (t ∷ []) ts, c)

-- The trades of the batches, in order.
abbrev pub concat : List (List TradeEvent) → List TradeEvent
concat [] = []
concat (b ∷ bs) = b ++ concat bs

concat-append :
    (bs : List (List TradeEvent)) (b : List TradeEvent) → concat (bs ++ b ∷ []) ≡ concat bs ++ b
concat-append [] b = append-nil b
concat-append (c ∷ cs) b =
    ap (λ l. c ++ l) (concat-append cs b) ∙ sym (append_assoc c (concat cs) b)

-- What the publisher has taken.
abbrev pub gone : Publisher → List TradeEvent
gone p = concat p.published ++ p.batch

pub publisher_flush-gone :
    (p : Publisher) → (gone (publisher_flush p) ≡ gone p) × ((publisher_flush p).batch ≡ [])
unfolding publisher_flush
publisher_flush-gone p = elim (Bool-cases (length p.batch == 0)) [
  | inl e ↦ rw e (refl, length-zero p.batch (==→eq (length p.batch) 0 e))
  | inr e ↦
      rw e (
        append-nil (concat (p.published ++ p.batch ∷ [])) ∙ concat-append p.published p.batch,
        refl,
      )
]

pub publisher_take-gone :
    (p : Publisher) (t : TradeEvent) → gone (publisher_take p t) ≡ gone p ++ t ∷ []
unfolding publisher_take
publisher_take-gone p t =
    let q : Publisher = record p { chk = u64 (p.chk + hash_trade t); batch = p.batch ++ t ∷ [] } in
    let a = sym (append_assoc (concat p.published) p.batch (t ∷ [])) in
    elim (Bool-cases (leb pub_hwm (length (p.batch ++ t ∷ [])))) [
      | inl e ↦ rw e ((publisher_flush-gone q).0 ∙ a)
      | inr e ↦ rw e a
    ]

-- What the publisher has seen is in its batches and its rest, and its total counts the batches.
pub record IsCounting (p : Publisher) (seen : List TradeEvent) : Type 0 where
  pub passed : concat p.published ++ p.batch ≡ seen
  pub counted : p.total + length p.batch ≡ length seen
  pub bounded : length p.batch < pub_hwm

publisher_flush-IsCounting :
    (p : Publisher) (seen : List TradeEvent)
    → concat p.published ++ p.batch ≡ seen
    → p.total + length p.batch ≡ length seen
    → length seen < 2 ^ 64
    → IsCounting (publisher_flush p) seen × ((publisher_flush p).batch ≡ [])
unfolding publisher_flush
publisher_flush-IsCounting p seen a b w = elim (Bool-cases (length p.batch == 0)) [
  | inl e ↦
      let z : length p.batch ≡ 0 = ==→eq (length p.batch) 0 e in
      rw e (record { passed = a; counted = b; bounded = omega (arith, z) }, length-zero p.batch z)
  | inr e ↦
      let k : u64 (p.total + length p.batch) ≡ p.total + length p.batch = omega (arith, b) in
      rw e (
        record {
          passed =
              append-nil (concat (p.published ++ p.batch ∷ []))
              ∙ concat-append p.published p.batch
              ∙ a;
          counted = omega (arith, k, b);
          bounded = omega arith;
        },
        refl,
      )
]

publisher_take-IsCounting :
    (p : Publisher) (seen : List TradeEvent) (t : TradeEvent)
    → IsCounting p seen
    → length seen + 1 < 2 ^ 64
    → IsCounting (publisher_take p t) (seen ++ t ∷ [])
unfolding publisher_take
publisher_take-IsCounting p seen t c w =
    let n = length-append seen (t ∷ []) in
    let m = length-append p.batch (t ∷ []) in
    let q : Publisher = record p { chk = u64 (p.chk + hash_trade t); batch = p.batch ++ t ∷ [] } in
    let a =
      sym (append_assoc (concat p.published) p.batch (t ∷ [])) ∙ ap (λ l. l ++ t ∷ []) c.passed in
    elim (Bool-cases (leb pub_hwm (length (p.batch ++ t ∷ [])))) [
      | inl e ↦
          rw e
            (publisher_flush-IsCounting q (seen ++ t ∷ []) a (omega (arith, c.counted, n, m))
              (omega (arith, n))).0
      | inr e ↦
          rw e (record {
            passed = a;
            counted = omega (arith, c.counted, n, m);
            bounded = ground arith;
          })
    ]

publisher_takes :
    (p : Publisher) (seen ts : List TradeEvent)
    → IsCounting p seen
    → length seen + length ts < 2 ^ 64
    → IsCounting (foldl publisher_take p ts) (seen ++ ts)
publisher_takes p seen [] c w = subst (IsCounting p) (sym (append-nil seen)) c
publisher_takes p seen (t ∷ ts) c w =
    subst (IsCounting (foldl publisher_take (publisher_take p t) ts))
      (append_assoc seen (t ∷ []) ts)
      (publisher_takes (publisher_take p t) (seen ++ t ∷ []) ts
        (publisher_take-IsCounting p seen t c (omega arith))
        (omega (arith, length-append seen (t ∷ []))))

-- A publisher that was counting right: after the last flush it has passed all the trades on, in
-- order, in batches, and its total is their number, when that is below 2^64.
pub publisher_lem :
    (p : Publisher) (seen ts : List TradeEvent)
    → IsCounting p seen
    → length seen + length ts < 2 ^ 64
    → let p' = publisher_flush (foldl publisher_take p ts) in
      (concat p'.published ≡ seen ++ ts) × (p'.total ≡ length seen + length ts) × (p'.batch ≡ [])
publisher_lem p seen ts c w =
    let q = foldl publisher_take p ts in
    let d = publisher_takes p seen ts c w in
    let n = length-append seen ts in
    let (f, z) = publisher_flush-IsCounting q (seen ++ ts) d.passed d.counted (omega (arith, n)) in
    let p' = publisher_flush q in
    (
      sym (append-nil (concat p'.published))
          ∙ ap (λ b. concat p'.published ++ b) (sym z)
          ∙ f.passed,
      omega (arith, f.counted, n, ap length z),
      z,
    )
