-- ===== src/SnapshotPool.antt =====
-- include/titan/book/snapshot.hpp: the pool of snapshot buffers between the matcher, which writes,
-- and the snapshot thread, which reads, one atomic access of the shared words at a time. The
-- accesses are SEQ_CST, so that a run is a sequence of them. A buffer is a value of any type; the
-- writer may write to its buffer any number of times before it publishes.
pub mod Claim
pub mod Reserve
mod Tests
use titan_hft.Common.{
  ℕ, zero, suc, ◌+◌, ◌-◌, ◌*◌, ◌/◌, ◌%◌, ◌^◌, ◌≤◌, ◌<◌, min, ◌≡◌, ◌≢◌, refl, sym, ap, ap₂, ◌∙◌,
  subst, subst₂, ◌↔◌, ◌⊎◌, inl, inr, Bool, true, false, not, ◌&&◌, ◌||◌, Option, none, some, List,
  [], ◌∷◌, ◌++◌, map, map-append, append-nil, append_assoc, arith, ltb, leb, ◌==◌, if◌then◌else◌,
  ==→eq, eq_refl, Bool-cases, Option-cases, update, length, get_elem?, take, drop, length-append,
  take-append-drop, length-take, length-drop, has, Distinct, erase, last_or, head_or, All,
  All-append, has-append, has-erase, has-erase_self, erase-Distinct, length-erase, append-Distinct,
  u32, u64, sub64, test_bit, set_bit, clear_bit, lowest_clear, popcount, test_bit-set_bit,
  test_bit-clear_bit, test_bit-zero, lowest_clear_lem, set_bit-lt, clear_bit-le, popcount-le,
  popcount-none, popcount-clear_bit, popcount-full_iff, popcount-eq-zero, ℤ, pos, negsuc, ◌≤ℤ◌,
  ◌<ℤ◌, leb_ℤ, ltb_ℤ, eqb_ℤ, cast_u64, eq_of_parts, eqb_ℤ→eq, eqb_ℤ_refl, Seg, Seg-frame, Seg-split,
  Seg-join, last_or-append, has-last_or, has-split, Distinct-split, append_next, unlink_next,
  unlink_prev, Seg-append_last, Seg-unlink,
}

abbrev pub claim_retries : ℕ
claim_retries = 1024

-- `try_snapshot` stands before the load of `published_`, before the test of slot `j` of the scan in
-- `reserve_free_slot`, or in the fill of slot `j`.
pub data Writer : Type 0 where
  resting : Writer
  scanning : Option ℕ → ℕ → Writer
  filling : ℕ → Writer

-- `acquire` has not been called, or stands, in its attempt `n`, before the first load, before the
-- claim of slot `i`, before the second load, or before it takes the claim back; or `release` has
-- not been called since it returned slot `i`.
pub data Reader : Type 0 where
  away : Reader
  trying : ℕ → Reader
  claiming : ℕ → ℕ → Reader
  checking : ℕ → ℕ → Reader
  yielding : ℕ → ℕ → Reader
  holding : ℕ → Reader

pub record Shared (B : Type 0) : Type 0 where
  pub published : Option ℕ
  pub in_use : ℕ → Bool
  pub buffers : ℕ → B
  pub writer : Writer
  pub reader : Reader

-- The published slot is `j`.
abbrev pub is_live : Option ℕ → ℕ → Bool
is_live none j = false
is_live (some i) j = i == j

-- A move of the writer, which writes the value into the buffer that it fills or goes on; or of the
-- reader.
pub data Move (B : Type 0) : Type 0 where
  writes : B → Move B
  goes_on : Move B
  reads : Move B

-- After the first load of an attempt.
loaded : ℕ → Option ℕ → Reader
loaded n none = away
loaded n (some i) = claiming n i

-- `reserve_free_slot` without interference: the scan from slot `j` on, with `left` slots left.
reserve_from : Option ℕ → (ℕ → Bool) → (left j : ℕ) → Option ℕ
reserve_from live in_use zero j = none
reserve_from live in_use (suc left) j =
    let rest = reserve_from live in_use left (j + 1) in
    if is_live live j then rest else if in_use j then rest else some j

unfoldable pub reserve_free_slot : (slots : ℕ) → Option ℕ → (ℕ → Bool) → Option ℕ
unfolding reserve_from
reserve_free_slot slots live in_use = reserve_from live in_use slots 0

abbrev pub start : {B : Type 0} → (ℕ → B) → Shared B
start buffers = record {
  published = none;
  in_use = λ _. false;
  buffers = buffers;
  writer = resting;
  reader = away;
}

module _ {B : Type 0} (slots : ℕ) where
  -- The test of slot `j`.
  scan : Shared B → Option ℕ → ℕ → Writer
  scan s live j =
      if leb slots j
      then resting
      else if is_live live j
      then scanning live (j + 1)
      else if s.in_use j
      then scanning live (j + 1)
      else filling j

  writer_goes_on : Shared B → Writer → Shared B
  unfolding scan
  writer_goes_on s resting = record s { writer = scanning s.published 0 }
  writer_goes_on s (scanning live j) = record s { writer = scan s live j }
  writer_goes_on s (filling j) = record s { published = some j; writer = resting }

  writer_writes : Shared B → B → Writer → Shared B
  writer_writes s v (filling j) = record s { buffers = update s.buffers j v }
  writer_writes s v resting = s
  writer_writes s v (scanning live j) = s

  reader_moves : Shared B → Reader → Shared B
  unfolding loaded
  reader_moves s away = record s { reader = trying 0 }
  reader_moves s (trying n) = record s { reader = loaded n s.published }
  reader_moves s (claiming n i) = record s {
    in_use = λ k. if k == i then true else s.in_use k;
    reader = checking n i;
  }
  reader_moves s (checking n i) = record s {
    reader = if is_live s.published i then holding i else yielding n i;
  }
  reader_moves s (yielding n i) = record s {
    in_use = λ k. if k == i then false else s.in_use k;
    reader = if ltb (n + 1) claim_retries then trying (n + 1) else away;
  }
  reader_moves s (holding i) = record s {
    in_use = λ k. if k == i then false else s.in_use k;
    reader = away;
  }

  unfoldable pub step : Shared B → Move B → Shared B
  unfolding writer_goes_on writer_writes reader_moves
  step s (writes v) = writer_writes s v s.writer
  step s goes_on = writer_goes_on s s.writer
  step s reads = reader_moves s s.reader

  unfoldable pub run : Shared B → List (Move B) → Shared B
  unfolding step
  run s [] = s
  run s (m ∷ ms) = run (step s m) ms
