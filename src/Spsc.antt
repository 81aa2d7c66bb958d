-- ===== src/Spsc.antt =====
-- include/titan/pipeline/spsc_ring.hpp: the single-producer single-consumer ring, and its two
-- uses ingress_ring.hpp (orders) and egress_ring.hpp (trade events). The size is a power of two,
-- so `seq & MASK` is the remainder by the size. The cursors are 64-bit words. A call runs as a
-- whole here, with the other side's cursor read where the code reads it; the caches stay stale.
pub mod Window
pub mod Refine
pub mod Wave
pub mod Trace
mod Tests
use titan_hft.Common.{
  ℕ, zero, suc, ◌+◌, ◌-◌, ◌*◌, ◌/◌, ◌%◌, ◌^◌, ◌≤◌, ◌<◌, min, ◌≡◌, ◌≢◌, refl, sym, ap, ap₂, ◌∙◌,
  subst, subst₂, ◌↔◌, ◌⊎◌, inl, inr, Bool, true, false, not, ◌&&◌, ◌||◌, Option, none, some, List,
  [], ◌∷◌, ◌++◌, map, map-append, append-nil, append_assoc, arith, ltb, leb, ◌==◌, if◌then◌else◌,
  ==→eq, eq_refl, Bool-cases, Option-cases, update, length, get_elem?, take, drop, length-append,
  take-append-drop, length-take, length-drop, has, Distinct, erase, last_or, head_or, All,
  All-append, has-append, has-erase, has-erase_self, erase-Distinct, length-erase, append-Distinct,
  u32, u64, sub64, test_bit, set_bit, clear_bit, lowest_clear, popcount, test_bit-set_bit,
  test_bit-clear_bit, test_bit-zero, lowest_clear_lem, set_bit-lt, clear_bit-le, popcount-le,
  popcount-none, popcount-clear_bit, popcount-full_iff, popcount-eq-zero, ℤ, pos, negsuc, ◌≤ℤ◌,
  ◌<ℤ◌, leb_ℤ, ltb_ℤ, eqb_ℤ, cast_u64, eq_of_parts, eqb_ℤ→eq, eqb_ℤ_refl, Seg, Seg-frame, Seg-split,
  Seg-join, last_or-append, has-last_or, has-split, Distinct-split, append_next, unlink_next,
  unlink_prev, Seg-append_last, Seg-unlink,
}

pub record Spsc (A : Type 0) : Type 0 where
  pub slots : ℕ → A
  pub cursor : ℕ  -- next sequence to write
  pub cached_consumer : ℕ
  pub next : ℕ  -- next sequence to read
  pub cached_cursor : ℕ

module _ {A : Type 0} (size : ℕ) where
  unfoldable pub create : (ℕ → A) → Spsc A
  create storage = record {
    slots = storage;
    cursor = 0;
    cached_consumer = 0;
    next = 0;
    cached_cursor = 0;
  }

  put : Spsc A → A → Spsc A
  put r item = record r {
    slots = update r.slots (r.cursor % size) item;
    cursor = u64 (r.cursor + 1);
  }

  unfoldable pub try_publish : Spsc A → A → Spsc A × Bool
  unfolding put
  try_publish r item =
      let r1 = record r { cached_consumer = r.next } in
      if ltb (sub64 r.cursor r.cached_consumer) size
      then (put r item, true)
      else if ltb (sub64 r1.cursor r1.cached_consumer) size
      then (put r1 item, true)
      else (r1, false)

  -- The copy loops of `publish_batch`: `n` items from index `base` on.
  copy : (ℕ → A) → (base n : ℕ) → List A → ℕ → A
  copy slots base zero items = slots
  copy slots base (suc n) [] = slots
  copy slots base (suc n) (x ∷ xs) = copy (update slots base x) (base + 1) n xs

  -- The reread of the consumer's position when the cache says full.
  refresh : Spsc A → Spsc A
  refresh r =
      if ltb (sub64 r.cursor r.cached_consumer) size
      then r
      else record r { cached_consumer = r.next }

  -- How many of the items fit into what the cache says is free.
  wave_size : Spsc A → List A → ℕ
  wave_size r items =
      let room = size - sub64 r.cursor r.cached_consumer in
      if ltb (length items) room then length items else room

  -- The first `n` items go into the ring in one or two runs.
  send : Spsc A → List A → ℕ → Spsc A
  unfolding copy
  send r items n =
      let base = r.cursor % size in
      let first = if leb (base + n) size then n else size - base in
      record r {
        slots = copy (copy r.slots base first items) 0 (n - first) (drop first items);
        cursor = u64 (r.cursor + n);
      }

  -- One wave of `publish_batch`: the ring after it and the number of items taken. A full ring
  -- takes none; then the loop spins until the consumer moves.
  unfoldable pub publish_wave : Spsc A → List A → Spsc A × ℕ
  unfolding refresh wave_size send
  publish_wave r items = let r1 = refresh r in let n = wave_size r1 items in (send r1 items n, n)

  get : Spsc A → Spsc A × Option A
  get r = (record r { next = u64 (r.next + 1) }, some (r.slots (r.next % size)))

  unfoldable pub try_consume : Spsc A → Spsc A × Option A
  unfolding get
  try_consume r =
      let r1 = record r { cached_cursor = r.cursor } in
      if ltb r.next r.cached_cursor
      then get r
      else if ltb r1.next r1.cached_cursor
      then get r1
      else (r1, none)

  -- The do-while loop of `consume_batch`: `fn` on each item from `seq` on, `n + 1` times.
  drain_from : {S : Type 0} → (S → A → S) → (ℕ → A) → (n seq : ℕ) → S → S
  drain_from fn slots zero seq s = fn s (slots (seq % size))
  drain_from fn slots (suc n) seq s =
      drain_from fn slots n (u64 (seq + 1)) (fn s (slots (seq % size)))

  -- The handler is a function on a state of its own. Returns the number of items as well.
  unfoldable pub consume_batch : {S : Type 0} → (S → A → S) → S → Spsc A → Spsc A × S × ℕ
  unfolding drain_from
  consume_batch fn s r =
      let n = sub64 r.cursor r.next in
      if r.next == r.cursor then (r, s, 0) else (
        record r { cached_cursor = r.cursor; next = r.cursor },
        drain_from fn r.slots (n - 1) r.next s,
        n,
      )

  unfoldable pub size_approx : Spsc A → ℕ
  size_approx r = sub64 r.cursor r.next
