-- ===== src/Sequencer.antt =====
-- include/titan/pipeline/sequencer.hpp: the stage that stamps, journals and publishes each order,
-- its flush cadence, and the replay of a log. The ingress ring is the list of orders it has
-- taken: `publish` spins until the ring takes the order, and Spsc models the ring. The
-- threads' flags and the ring that `run` drains are not modelled: `publish_all` is the calls of
-- `publish` that it makes, and `stop` its last flush.
pub mod Stamp
pub mod Cadence
pub mod Replay
mod Tests
use titan_hft.Common.{
  ℕ, zero, suc, ◌+◌, ◌-◌, ◌*◌, ◌/◌, ◌%◌, ◌^◌, ◌≤◌, ◌<◌, min, ◌≡◌, ◌≢◌, refl, sym, ap, ap₂, ◌∙◌,
  subst, subst₂, ◌↔◌, ◌⊎◌, inl, inr, Bool, true, false, not, ◌&&◌, ◌||◌, Option, none, some, List,
  [], ◌∷◌, ◌++◌, map, map-append, append-nil, append_assoc, arith, ltb, leb, ◌==◌, if◌then◌else◌,
  ==→eq, eq_refl, Bool-cases, Option-cases, update, length, get_elem?, take, drop, length-append,
  take-append-drop, length-take, length-drop, has, Distinct, erase, last_or, head_or, All,
  All-append, has-append, has-erase, has-erase_self, erase-Distinct, length-erase, append-Distinct,
  u32, u64, sub64, test_bit, set_bit, clear_bit, lowest_clear, popcount, test_bit-set_bit,
  test_bit-clear_bit, test_bit-zero, lowest_clear_lem, set_bit-lt, clear_bit-le, popcount-le,
  popcount-none, popcount-clear_bit, popcount-full_iff, popcount-eq-zero, ℤ, pos, negsuc, ◌≤ℤ◌,
  ◌<ℤ◌, leb_ℤ, ltb_ℤ, eqb_ℤ, cast_u64, eq_of_parts, eqb_ℤ→eq, eqb_ℤ_refl, Seg, Seg-frame, Seg-split,
  Seg-join, last_or-append, has-last_or, has-split, Distinct-split, append_next, unlink_next,
  unlink_prev, Seg-append_last, Seg-unlink,
}
use titan_hft.Domain.{Order}
use titan_hft.Journal.{Journaler, append, flush_async, flush_sync}

pub record Sequencer : Type 0 where
  pub journal : Journaler
  pub ingress : List Order
  pub next_seq : ℕ
  pub flush_interval : ℕ
  pub sync_every : ℕ
  pub since_flush : ℕ
  pub flush_no : ℕ

unfoldable pub create : Journaler → (flush_interval sync_every : ℕ) → Sequencer
create journal flush_interval sync_every = record {
  journal = journal;
  ingress = [];
  next_seq = 0;
  flush_interval = if flush_interval == 0 then 1 else flush_interval;
  sync_every = sync_every;
  since_flush = 0;
  flush_no = 0;
}

-- The flush at the end of a batch: a checkpoint for every `sync_every`-th, if that is not 0.
batch_end : ℕ → Sequencer → Sequencer
batch_end pg s =
    let no = u64 (s.flush_no + 1) in
    if s.sync_every == 0
    then record s { journal = flush_async pg s.journal }
    else if no % s.sync_every == 0
    then record s { flush_no = no; journal = flush_sync pg s.journal }
    else record s { flush_no = no; journal = flush_async pg s.journal }

cadence : ℕ → Sequencer → Sequencer
unfolding batch_end
cadence pg s =
    let since = u32 (s.since_flush + 1) in
    if leb s.flush_interval since
    then batch_end pg (record s { since_flush = 0 })
    else record s { since_flush = since }

-- `none` is std::terminate: `publish` is noexcept and `append` throws.
unfoldable pub publish : ℕ → Sequencer → Order → Option Sequencer
unfolding cadence
publish pg s o =
    let stamped = record o { seq = s.next_seq } in
    elim (append s.journal stamped) [
      | inl e ↦ none
      | inr j ↦ some (
          cadence pg (record s {
            next_seq = u64 (s.next_seq + 1);
            journal = j;
            ingress = s.ingress ++ stamped ∷ [];
          }))
    ]

unfoldable pub publish_all : ℕ → Sequencer → List Order → Option Sequencer
unfolding publish
publish_all pg s [] = some s
publish_all pg s (o ∷ os) = elim (publish pg s o) [ none ↦ none | some s' ↦ publish_all pg s' os ]

unfoldable pub stop : ℕ → Sequencer → Sequencer
stop pg s = record s { journal = flush_sync pg s.journal }

-- Replay through any matcher: `submit` is the effect of a record on it. The first argument is the
-- number of records left.
replay_from {ℓ} : {M : Type ℓ} → (M → Order → M) → Journaler → (base : ℕ) → ℕ → (i : ℕ) → M → ℕ × M
replay_from submit wal base zero i m = (i, m)
replay_from submit wal base (suc left) i m =
    let more = replay_from submit wal base left (i + 1) (submit m (wal.slots i)) in
    if (wal.slots i).seq == u64 (base + i) then more else (i, m)

unfoldable pub replay {ℓ} : {M : Type ℓ} → (M → Order → M) → Journaler → M → ℕ × M
unfolding replay_from
replay submit wal m =
    if wal.header.count == 0
    then (0, m)
    else replay_from submit wal (wal.slots 0).seq wal.header.count 0 m
