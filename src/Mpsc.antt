-- ===== src/Mpsc.antt =====
-- include/titan/pipeline/mpsc_ring.hpp: the ring of many producers and one consumer, one access of
-- a shared word or payload at a time. Positions are taken to stay below 2^63, where the signed
-- differences of the code are comparisons. Memory orders are not modelled.
pub mod Invariant
pub mod Exclusion
mod Tests
use titan_hft.Common.{
  ℕ, zero, suc, ◌+◌, ◌-◌, ◌*◌, ◌/◌, ◌%◌, ◌^◌, ◌≤◌, ◌<◌, min, ◌≡◌, ◌≢◌, refl, sym, ap, ap₂, ◌∙◌,
  subst, subst₂, ◌↔◌, ◌⊎◌, inl, inr, Bool, true, false, not, ◌&&◌, ◌||◌, Option, none, some, List,
  [], ◌∷◌, ◌++◌, map, map-append, append-nil, append_assoc, arith, ltb, leb, ◌==◌, if◌then◌else◌,
  ==→eq, eq_refl, Bool-cases, Option-cases, update, length, get_elem?, take, drop, length-append,
  take-append-drop, length-take, length-drop, has, Distinct, erase, last_or, head_or, All,
  All-append, has-append, has-erase, has-erase_self, erase-Distinct, length-erase, append-Distinct,
  u32, u64, sub64, test_bit, set_bit, clear_bit, lowest_clear, popcount, test_bit-set_bit,
  test_bit-clear_bit, test_bit-zero, lowest_clear_lem, set_bit-lt, clear_bit-le, popcount-le,
  popcount-none, popcount-clear_bit, popcount-full_iff, popcount-eq-zero, ◌≤ℤ◌, ◌<ℤ◌, leb_ℤ, ltb_ℤ,
  eqb_ℤ, cast_u64, eq_of_parts, eqb_ℤ→eq, eqb_ℤ_refl, Seg, Seg-frame, Seg-split, Seg-join,
  last_or-append, has-last_or, has-split, Distinct-split, append_next, unlink_next, unlink_prev,
  Seg-append_last, Seg-unlink,
}

-- The cells' sequence words and payloads, and the two cursors.
pub record MpscRing (A : Type 0) : Type 0 where
  pub seq : ℕ → ℕ
  pub payload : ℕ → A
  pub enqueue : ℕ
  pub dequeue : ℕ

-- `try_publish` of an item is not running, or stands before the load of the cursor, the load of the
-- cell's sequence word, the CAS, the write of the payload, or the publication.
pub data Producer (A : Type 0) : Type 0 where
  away : Producer A
  starting : A → Producer A
  looking : ℕ → A → Producer A
  racing : ℕ → A → Producer A
  writing : ℕ → A → Producer A
  publishing : ℕ → Producer A

-- `try_consume` is not running, or stands before the read of the payload, the release of the cell,
-- or the advance of the cursor.
pub data Consumer (A : Type 0) : Type 0 where
  waiting : Consumer A
  reading : ℕ → Consumer A
  freeing : ℕ → A → Consumer A
  advancing : ℕ → A → Consumer A

-- `taken` are the items that the consumer has got, `refused` counts the calls that found it full.
pub record System (A : Type 0) : Type 0 where
  pub ring : MpscRing A
  pub producers : ℕ → Producer A
  pub consumer : Consumer A
  pub taken : List A
  pub refused : ℕ

-- A call of try_publish, an access by a producer (with a weak CAS that may fail for no reason), an
-- access by the consumer.
pub data Move (A : Type 0) : Type 0 where
  calls : ℕ → A → Move A
  produces : ℕ → (spurious : Bool) → Move A
  consumes : Move A

module _ {A : Type 0} (size : ℕ) where
  unfoldable pub create : (ℕ → A) → MpscRing A
  create storage = record { seq = λ i. i; payload = storage; enqueue = 0; dequeue = 0 }

  set_producer : System A → ℕ → Producer A → System A
  set_producer s i p = record s { producers = update s.producers i p }

  -- The test of the cell's sequence word.
  look : System A → (i pos : ℕ) → A → System A
  unfolding set_producer
  look s i pos x =
      let q = s.ring.seq (pos % size) in
      if q == pos
      then set_producer s i (racing pos x)
      else if ltb q pos
      then record (set_producer s i away) { refused = s.refused + 1 }
      else set_producer s i (starting x)

  -- The CAS; when it fails, it has loaded the cursor.
  race : System A → (i pos : ℕ) → A → Bool → System A
  unfolding set_producer
  race s i pos x spurious =
      if (s.ring.enqueue == pos) && not spurious
      then record (set_producer s i (writing pos x)) {
        ring = record (s.ring) { enqueue = u64 (pos + 1) };
      }
      else set_producer s i (looking s.ring.enqueue x)

  producer_moves : System A → ℕ → Bool → Producer A → System A
  unfolding look race set_producer
  producer_moves s i spurious away = s
  producer_moves s i spurious (starting x) = set_producer s i (looking s.ring.enqueue x)
  producer_moves s i spurious (looking pos x) = look s i pos x
  producer_moves s i spurious (racing pos x) = race s i pos x spurious
  producer_moves s i spurious (writing pos x) = record (set_producer s i (publishing pos)) {
    ring = record (s.ring) { payload = update s.ring.payload (pos % size) x };
  }
  producer_moves s i spurious (publishing pos) = record (set_producer s i away) {
    ring = record (s.ring) { seq = update s.ring.seq (pos % size) (u64 (pos + 1)) };
  }

  consumer_moves : System A → Consumer A → System A
  consumer_moves s waiting =
      let pos = s.ring.dequeue in
      if s.ring.seq (pos % size) == u64 (pos + 1) then record s { consumer = reading pos } else s
  consumer_moves s (reading pos) = record s { consumer = freeing pos (s.ring.payload (pos % size)) }
  consumer_moves s (freeing pos x) = record s {
    ring = record (s.ring) { seq = update s.ring.seq (pos % size) (u64 (pos + size)) };
    consumer = advancing pos x;
  }
  consumer_moves s (advancing pos x) = record s {
    ring = record (s.ring) { dequeue = u64 (pos + 1) };
    consumer = waiting;
    taken = s.taken ++ x ∷ [];
  }

  -- A call by a producer that is in one already does not happen.
  call : System A → ℕ → A → Producer A → System A
  unfolding set_producer
  call s i x away = set_producer s i (starting x)
  call s i x (starting y) = s
  call s i x (looking pos y) = s
  call s i x (racing pos y) = s
  call s i x (writing pos y) = s
  call s i x (publishing pos) = s

  unfoldable pub step : System A → Move A → System A
  unfolding call producer_moves consumer_moves
  step s (calls i x) = call s i x (s.producers i)
  step s (produces i spurious) = producer_moves s i spurious (s.producers i)
  step s consumes = consumer_moves s s.consumer

  unfoldable pub run : System A → List (Move A) → System A
  unfolding step
  run s [] = s
  run s (m ∷ ms) = run (step s m) ms

  -- `consume_batch` without interference, on fuel: the cells that it frees are not ready again, so
  -- that `size + 1` rounds are enough. `none` means that the fuel ran out.
  drain : {S : Type 0} → (S → A → S) → ℕ → (pos : ℕ) → S → MpscRing A → Option (MpscRing A × S × ℕ)
  drain fn zero pos s r = none
  drain fn (suc fuel) pos s r =
      let freed = record r { seq = update r.seq (pos % size) (u64 (pos + size)) } in
      let rest = drain fn fuel (pos + 1) (fn s (r.payload (pos % size))) freed in
      if r.seq (pos % size) == u64 (pos + 1) then rest else some (r, s, pos)

  -- The position is written back when it has moved; writing it back unmoved changes nothing.
  unfoldable pub consume_batch :
      {S : Type 0} → (S → A → S) → S → MpscRing A → Option (MpscRing A × S × ℕ)
  unfolding drain
  consume_batch fn s r = elim (drain fn (size + 1) r.dequeue s r) [
    | none ↦ none
    | some (r', s', pos) ↦ some (record r' { dequeue = pos }, s', pos - r.dequeue)
  ]
