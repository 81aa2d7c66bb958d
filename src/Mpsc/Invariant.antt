-- ===== src/Mpsc/Invariant.antt =====
-- What holds between any two accesses of the ring: who owns which position, and what the sequence
-- words of the cells at hand are. The moves of a producer that keep it, but for its publication.
use titan_hft.Common.{
  ℕ, suc, ◌+◌, ◌%◌, ◌^◌, ◌≤◌, ◌<◌, ◌≡◌, ◌≢◌, sym, ap, ◌∙◌, subst, ◌⊎◌, inl, inr, Option, none, some,
  arith, ◌==◌, ==→eq, Bool-cases, update, u64,
}
use titan_hft.Spsc.Window.{mod-ne_of_lt}
use titan_hft.Mpsc.{
  Producer, Consumer, away, starting, looking, racing, writing, publishing, waiting, reading,
  freeing, advancing, System,
}

-- The position that a producer has won, and that it is about to fight for.
abbrev pub owned : {A : Type 0} → Producer A → Option ℕ
owned away = none
owned (starting x) = none
owned (looking pos x) = none
owned (racing pos x) = none
owned (writing pos x) = some pos
owned (publishing pos) = some pos

abbrev pub raced : {A : Type 0} → Producer A → Option ℕ
raced away = none
raced (starting x) = none
raced (looking pos x) = none
raced (racing pos x) = some pos
raced (writing pos x) = none
raced (publishing pos) = none

-- The position that the consumer is reading, and the one it works on.
abbrev pub claimed : {A : Type 0} → Consumer A → Option ℕ
claimed waiting = none
claimed (reading pos) = some pos
claimed (freeing pos x) = some pos
claimed (advancing pos x) = none

abbrev pub worked : {A : Type 0} → Consumer A → Option ℕ
worked waiting = none
worked (reading pos) = some pos
worked (freeing pos x) = some pos
worked (advancing pos x) = some pos

-- The cell of the next position is another one.
pub next_cell : (size p : ℕ) → 2 ≤ size → (p + 1) % size ≢ p % size
next_cell size p h = mod-ne_of_lt size p (p + 1) (omega arith) (omega arith)

-- `room` bounds the moves that are left.
pub record Inv {A : Type 0} (size : ℕ) (s : System A) (room : ℕ) : Type 0 where
  pub owner :
      (i p : ℕ)
      → owned (s.producers i) ≡ some p
      → (p < s.ring.enqueue) × (s.ring.seq (p % size) ≡ p)
  pub unique : (i j p : ℕ) → owned (s.producers i) ≡ some p → owned (s.producers j) ≡ some p → i ≡ j
  pub racer :
      (i p : ℕ)
      → raced (s.producers i) ≡ some p
      → (p < s.ring.enqueue) ⊎ (s.ring.seq (p % size) ≡ p)
  pub reader : (c : ℕ) → claimed s.consumer ≡ some c → s.ring.seq (c % size) ≡ c + 1
  pub place : (c : ℕ) → worked s.consumer ≡ some c → c ≡ s.ring.dequeue
  pub bound : (s.ring.enqueue + room < 2 ^ 64) × (s.ring.dequeue + room < 2 ^ 64)

module _ {A : Type 0} (size : ℕ) (two : 2 ≤ size) where
  -- Producer `i` moves to a state in which it owns nothing and fights for nothing.
  pub quiet :
      (s : System A) (n i : ℕ) (p : Producer A) (k : ℕ)
      → Inv size s (suc n)
      → owned p ≡ none
      → raced p ≡ none
      → Inv size (record s { producers = update s.producers i p; refused = k }) n
  quiet s n i p k v o r = record {
    owner = λ j q h. elim (Bool-cases (j == i)) [
      | inl e ↦ absurd (ground arith)
      | inr e ↦ v.owner j q (ground arith)
    ];
    unique = λ j l q h g. elim (Bool-cases (j == i)) [
      | inl e ↦ absurd (ground arith)
      | inr e ↦ elim (Bool-cases (l == i)) [
        | inl d ↦ absurd (ground arith)
        | inr d ↦ v.unique j l q (ground arith) (ground arith)
      ]
    ];
    racer = λ j q h. elim (Bool-cases (j == i)) [
      | inl e ↦ absurd (ground arith)
      | inr e ↦ v.racer j q (ground arith)
    ];
    reader = v.reader;
    place = v.place;
    bound = (omega (arith, v.bound), omega (arith, v.bound));
  }

  -- Producer `i` gets ready to fight for a cell that it has found free.
  pub aims :
      (s : System A) (n i q : ℕ) (x : A)
      → Inv size s (suc n)
      → s.ring.seq (q % size) ≡ q
      → Inv size (record s { producers = update s.producers i (racing q x) }) n
  aims s n i q x v e = record {
    owner = λ j p h. elim (Bool-cases (j == i)) [
      | inl e ↦ absurd (ground arith)
      | inr e ↦ v.owner j p (ground arith)
    ];
    unique = λ j l p h g. elim (Bool-cases (j == i)) [
      | inl e ↦ absurd (ground arith)
      | inr e ↦ elim (Bool-cases (l == i)) [
        | inl d ↦ absurd (ground arith)
        | inr d ↦ v.unique j l p (ground arith) (ground arith)
      ]
    ];
    racer = λ j p h. elim (Bool-cases (j == i)) [
      | inl d ↦
          let same : q ≡ p = ground arith in inr (subst (λ k. s.ring.seq (k % size) ≡ k) same e)
      | inr d ↦ v.racer j p (ground arith)
    ];
    reader = v.reader;
    place = v.place;
    bound = (omega (arith, v.bound), omega (arith, v.bound));
  }

  -- Producer `i` wins the position at the cursor.
  pub wins :
      (s : System A) (n i : ℕ) (x : A)
      → Inv size s (suc n)
      → s.ring.seq (s.ring.enqueue % size) ≡ s.ring.enqueue
      → Inv size
          (record s {
            producers = update s.producers i (writing s.ring.enqueue x);
            ring = record (s.ring) { enqueue = u64 (s.ring.enqueue + 1) };
          })
          n
  wins s n i x v e =
      let k : u64 (s.ring.enqueue + 1) ≡ s.ring.enqueue + 1 = omega (arith, v.bound) in
      record {
        owner = λ j p h. elim (Bool-cases (j == i)) [
          | inl d ↦
              let same : s.ring.enqueue ≡ p = ground arith in
              (omega (arith, k, same), subst (λ q. s.ring.seq (q % size) ≡ q) same e)
          | inr d ↦ let (l, q) = v.owner j p (ground arith) in (omega (arith, k, l), q)
        ];
        unique = λ j l p h g. elim (Bool-cases (j == i)) [
          | inl d ↦ elim (Bool-cases (l == i)) [
            | inl f ↦ ==→eq j i d ∙ sym (==→eq l i f)
            | inr f ↦
                let same : s.ring.enqueue ≡ p = ground arith in
                absurd (omega (arith, same, (v.owner l p (ground arith)).0))
          ]
          | inr d ↦ elim (Bool-cases (l == i)) [
            | inl f ↦
                let same : s.ring.enqueue ≡ p = ground arith in
                absurd (omega (arith, same, (v.owner j p (ground arith)).0))
            | inr f ↦ v.unique j l p (ground arith) (ground arith)
          ]
        ];
        racer = λ j p h. elim (Bool-cases (j == i)) [
          | inl d ↦ absurd (ground arith)
          | inr d ↦ elim (v.racer j p (ground arith)) [
            | inl l ↦ inl (omega (arith, k, l))
            | inr l ↦ inr l
          ]
        ];
        reader = v.reader;
        place = v.place;
        bound = (omega (arith, k, v.bound), omega (arith, v.bound));
      }

  -- Producer `i` writes the payload of its position.
  pub fills :
      (s : System A) (n i p : ℕ) (x : A) (payload : ℕ → A)
      → Inv size s (suc n)
      → s.producers i ≡ writing p x
      → Inv size
          (record s {
            producers = update s.producers i (publishing p);
            ring = record (s.ring) { payload = payload };
          })
          n
  fills s n i p x payload v at =
      let own : owned (s.producers i) ≡ some p = ap owned at in
      record {
        owner = λ j q h. elim (Bool-cases (j == i)) [
          | inl d ↦ v.owner i q (own ∙ ground arith)
          | inr d ↦ v.owner j q (ground arith)
        ];
        unique = λ j l q h g. elim (Bool-cases (j == i)) [
          | inl d ↦ elim (Bool-cases (l == i)) [
            | inl f ↦ ==→eq j i d ∙ sym (==→eq l i f)
            | inr f ↦ ==→eq j i d ∙ v.unique i l q (own ∙ ground arith) (ground arith)
          ]
          | inr d ↦ elim (Bool-cases (l == i)) [
            | inl f ↦ v.unique j i q (ground arith) (own ∙ ground arith) ∙ sym (==→eq l i f)
            | inr f ↦ v.unique j l q (ground arith) (ground arith)
          ]
        ];
        racer = λ j q h. elim (Bool-cases (j == i)) [
          | inl d ↦ absurd (ground arith)
          | inr d ↦ v.racer j q (ground arith)
        ];
        reader = v.reader;
        place = v.place;
        bound = (omega (arith, v.bound), omega (arith, v.bound));
      }
