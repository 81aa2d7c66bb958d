-- ===== src/Sequencer/Replay.antt =====
-- Replay: how far it reads a log, and that it rebuilds what the matcher had been given.
use titan_hft.Common.{
  ℕ, zero, suc, ◌+◌, ◌^◌, ◌≤◌, ◌<◌, ◌≡◌, refl, sym, ap, ap₂, ◌∙◌, subst, ◌⊎◌, inl, inr, Bool, true,
  false, ◌&&◌, some, List, [], ◌∷◌, arith, ◌==◌, Bool-cases, length, drop, head_or, u64,
}
use mathlib.Core.List.{foldl}
use titan_hft.Domain.{Order}
use titan_hft.Journal
use titan_hft.Journal.{Journaler}
use titan_hft.Journal.Records.{read}
use titan_hft.Sequencer.{Sequencer, create, publish_all, replay, replay_from}
use titan_hft.Sequencer.Stamp.{stamp, publish_all_lem}

-- Record `i` carries on the numbering from record 0.
abbrev pub in_sequence : Journaler → ℕ → Bool
in_sequence wal i = (wal.slots i).seq == u64 ((wal.slots 0).seq + i)

-- The first `n` records are in sequence.
abbrev pub all_in_sequence : Journaler → (i n : ℕ) → Bool
all_in_sequence wal i zero = true
all_in_sequence wal i (suc n) = in_sequence wal i && all_in_sequence wal (i + 1) n

module _ {ℓ} {M : Type ℓ} (submit : M → Order → M) (wal : Journaler) where
  replay_from_lem :
      (left i : ℕ) (m : M)
      → let (k, m') = replay_from submit wal (wal.slots 0).seq left i m in
        ((n : ℕ) × (k ≡ i + n)
          × (n ≤ left)
          × (all_in_sequence wal i n ≡ true)
          × (m' ≡ foldl submit m (read wal.slots i n)))
        × ((k ≡ i + left) ⊎ (in_sequence wal k ≡ false))
  unfolding replay_from
  replay_from_lem zero i m = ((0, omega arith, omega arith, refl, refl), inl (omega arith))
  replay_from_lem (suc left) i m = elim (Bool-cases (in_sequence wal i)) [
    | inr e ↦ rw e ((0, omega arith, omega arith, refl, refl), inr e)
    | inl e ↦
        let ((n, k, l, a, f), stop) = replay_from_lem left (i + 1) (submit m (wal.slots i)) in
        rw e (
          (suc n, omega (arith, k), omega (arith, l), rw e a, f),
          elim stop [ inl s ↦ inl (omega (arith, s)) | inr s ↦ inr s ],
        )
  ]

  -- Replay of any log, torn or not, submits just its first `k` records, in order, all of them in
  -- sequence, and stops at the end of the log or at the first record out of sequence.
  pub replay_lem :
      (m : M)
      → let (k, m') = replay submit wal m in
        (k ≤ wal.header.count)
        × (all_in_sequence wal 0 k ≡ true)
        × (m' ≡ foldl submit m (read wal.slots 0 k))
        × ((k ≡ wal.header.count) ⊎ (in_sequence wal k ≡ false))
  unfolding replay
  replay_lem m = elim (Bool-cases (wal.header.count == 0)) [
    | inl e ↦ rw e (omega arith, refl, refl, inl (ground arith))
    | inr e ↦
        let ((n, k, l, a, f), stop) = replay_from_lem wal.header.count 0 m in
        let same : (replay_from submit wal (wal.slots 0).seq wal.header.count 0 m).0 ≡ n =
          omega (arith, k) in
        rw (e, replay)
          (
            omega (arith, k, l),
            subst (λ j. all_in_sequence wal 0 j ≡ true) (sym same) a,
            f ∙ ap (λ j. foldl submit m (read wal.slots 0 j)) (sym same),
            elim stop [ inl s ↦ inl (omega (arith, s)) | inr s ↦ inr s ],
          )
  ]

seq-stamp :
    (file : ℕ → Order) (i n : ℕ) (o : Order) (os : List Order)
    → read file i (suc n) ≡ stamp i (o ∷ os)
    → ((file i).seq ≡ i) × (read file (i + 1) n ≡ stamp (i + 1) os)
seq-stamp file i n o os e = (ap (λ l. (head_or o l).seq) e, ap (λ l. drop 1 l) e)

module _ {ℓ} {M : Type ℓ} (submit : M → Order → M) where
  replay_from-stamp :
      (wal : Journaler) (n i : ℕ) (os : List Order) (m : M)
      → read wal.slots i n ≡ stamp i os
      → i + n < 2 ^ 64
      → replay_from submit wal 0 n i m ≡ (i + n, foldl submit m (stamp i os))
  unfolding replay_from
  replay_from-stamp wal zero i [] m e w = ap₂ (λ a b. (a, b)) (omega arith) refl
  replay_from-stamp wal zero i (o ∷ os) m e w = absurd (omega (arith, ap length e))
  replay_from-stamp wal (suc n) i [] m e w = absurd (omega (arith, ap length e))
  replay_from-stamp wal (suc n) i (o ∷ os) m e w =
      let (here, more) = seq-stamp wal.slots i n o os e in
      let hit : ((wal.slots i).seq == u64 (0 + i)) ≡ true = ground (arith, here) in
      let first : wal.slots i ≡ record o { seq = i } = ap (λ l. head_or o l) e in
      rw hit (
        replay_from-stamp wal n (i + 1) os (submit m (wal.slots i)) more (omega arith)
        ∙ ap₂ (λ a x. (a, foldl submit (submit m x) (stamp (i + 1) os))) (omega arith) first)

  replay-unempty :
      (wal : Journaler) (m : M)
      → (wal.header.count == 0) ≡ false
      → replay submit wal m ≡ replay_from submit wal (wal.slots 0).seq wal.header.count 0 m
  unfolding replay
  replay-unempty wal m h = rw h refl

  replay-stamp :
      (wal : Journaler) (n : ℕ) (os : List Order) (m : M)
      → wal.header.count ≡ n
      → read wal.slots 0 n ≡ stamp 0 os
      → n < 2 ^ 64
      → replay submit wal m ≡ (n, foldl submit m (stamp 0 os))
  unfolding replay
  replay-stamp wal zero [] m c e w = rw c refl
  replay-stamp wal zero (o ∷ os) m c e w = absurd (omega (arith, ap length e))
  replay-stamp wal (suc n) [] m c e w = absurd (omega (arith, ap length e))
  replay-stamp wal (suc n) (o ∷ os) m c e w =
      replay-unempty wal m (ground (arith, c))
      ∙ ap₂ (λ b k. replay_from submit wal b k 0 m) (seq-stamp wal.slots 0 n o os e).0 c
      ∙ replay_from-stamp wal (suc n) 0 (o ∷ os) m e (omega arith)
      ∙ ap (λ k. (k, foldl submit m (stamp 0 (o ∷ os)))) (omega arith)

  -- The log that the sequencer writes from the start, with room for the orders and a capacity below
  -- 2^64, replays in full: a matcher that is given it ends in the same state as one that is given
  -- the orders of the ingress ring.
  pub recovery :
      (pg : ℕ) (file : ℕ → Order) (capacity interval every : ℕ) (os : List Order) (m : M)
      → capacity < 2 ^ 64
      → length os ≤ capacity
      → (s : Sequencer) × (publish_all pg (create (Journal.create file capacity) interval every) os
          ≡ some s)
        × (s.ingress ≡ stamp 0 os)
        × (replay submit s.journal m ≡ (length os, foldl submit m s.ingress))
  unfolding create Journal.create replay
  recovery pg file capacity interval every os m w fits =
      let s0 = create (Journal.create file capacity) interval every in
      let (s, e, p) = publish_all_lem pg s0 os w (omega arith) (omega arith) in
      let c : s.journal.header.count ≡ length os = omega (arith, p.count) in
      (
        s,
        e,
        p.forwarded,
        replay-stamp s.journal (length os) os m c
              (subst (λ k. read s.journal.slots 0 k ≡ stamp 0 os) c p.journaled) (omega arith)
            ∙ ap (λ l. (length os, foldl submit m l)) (sym p.forwarded),
      )
