-- ===== src/Sequencer/Cadence.antt =====
-- The flush cadence: how far the log runs ahead of what has been handed to msync(2).
use titan_hft.Common.{
  ℕ, ◌+◌, ◌^◌, ◌≤◌, ◌<◌, ◌≡◌, refl, ◌∙◌, inl, inr, some, List, [], ◌∷◌, ◌++◌, arith, leb,
  Bool-cases, length, u32, u64,
}
use titan_hft.Domain.{Order}
use titan_hft.Journal.{Journaler, ms_async, ms_sync}
use titan_hft.Journal.Records.{append_refines, sync_dirty_keeps}
use titan_hft.Sequencer.{Sequencer, create, batch_end, cadence, publish, publish_all, stop}

-- The flush cursor lags behind the count by the orders since the last flush, which are fewer than
-- a batch.
pub record OnTime (s : Sequencer) : Type 0 where
  pub lag : s.journal.synced_count + s.since_flush ≡ s.journal.header.count
  pub short : s.since_flush < s.flush_interval
  pub interval : s.flush_interval < 2 ^ 32

module _ (pg : ℕ) where
  batch_end_lem :
      (s : Sequencer)
      → let s' = batch_end pg s in
        (s'.journal.synced_count ≡ s.journal.header.count)
        × (s'.journal.header.count ≡ s.journal.header.count)
        × (s'.since_flush ≡ s.since_flush)
        × (s'.flush_interval ≡ s.flush_interval)
        × (s'.journal.capacity ≡ s.journal.capacity)
  unfolding batch_end
  batch_end_lem s =
      let (_, c, k, e) = sync_dirty_keeps pg s.journal ms_async in
      let (_, c', k', e') = sync_dirty_keeps pg s.journal ms_sync in
      ground (arith, c, k, e, c', k', e')

  -- After a counted order, one of the batch.
  cadence-OnTime :
      (s : Sequencer)
      → s.journal.synced_count + s.since_flush + 1 ≡ s.journal.header.count
      → s.since_flush < s.flush_interval
      → s.flush_interval < 2 ^ 32
      → OnTime (cadence pg s)
        × ((cadence pg s).flush_interval ≡ s.flush_interval)
        × ((cadence pg s).journal.capacity ≡ s.journal.capacity)
        × ((cadence pg s).journal.header.count ≡ s.journal.header.count)
  unfolding cadence
  cadence-OnTime s lag short w =
      let k : u32 (s.since_flush + 1) ≡ s.since_flush + 1 = omega arith in
      elim (Bool-cases (leb s.flush_interval (u32 (s.since_flush + 1)))) [
        | inr e ↦ rw e (
          record { lag = omega (arith, k); short = ground (arith, k); interval = w },
          refl,
          refl,
          refl,
        )
        | inl e ↦
            let (sy, c, z, i, cap) = batch_end_lem (record s { since_flush = 0 }) in
            rw e (
              record {
                lag = omega (arith, sy, c, z);
                short = omega (arith, z, i);
                interval = omega (arith, i);
              },
              i,
              cap,
              c,
            )
      ]

  -- Publishing keeps a sequencer on time, while the log has room and its capacity is below 2^64:
  -- fewer orders than a batch have been logged and not been handed to a flush.
  pub publish_all-OnTime :
      (s : Sequencer) (os : List Order)
      → s.journal.capacity < 2 ^ 64
      → OnTime s
      → s.journal.header.count + length os ≤ s.journal.capacity
      → (s' : Sequencer) × (publish_all pg s os ≡ some s')
        × OnTime s'
        × (s'.flush_interval ≡ s.flush_interval)
        × (s'.journal.header.count < s'.journal.synced_count + s.flush_interval)
  unfolding publish_all
  publish_all-OnTime s [] w t room = (s, refl, t, refl, omega (arith, t.lag, t.short))
  publish_all-OnTime s (o ∷ os) w t room =
      elim (append_refines s.journal (record o { seq = s.next_seq }) w) [
        | inr (full, _) ↦ absurd (omega arith)
        | inl (_, (j, e, r, c, k, y)) ↦
            let s1 : Sequencer = record s {
              next_seq = u64 (s.next_seq + 1);
              journal = j;
              ingress = s.ingress ++ record o { seq = s.next_seq } ∷ [];
            } in
            let (t1, i1, k1, c1) =
              cadence-OnTime s1 (omega (arith, y, c, t.lag)) t.short t.interval in
            let (s2, e2, t2, i2, l2) =
              publish_all-OnTime (cadence pg s1) os (omega (arith, k1, k)) t1
                (omega (arith, k1, k, c1, c)) in
            rw (e, publish, publish_all) (s2, e2, t2, i2 ∙ i1, omega (arith, l2, i1))
      ]

  pub create-OnTime :
      (j : Journaler) (interval every : ℕ)
      → j.synced_count ≡ j.header.count
      → interval < 2 ^ 32
      → OnTime (create j interval every)
  unfolding create
  create-OnTime j interval every e w = record {
    lag = omega (arith, e);
    short = ground arith;
    interval = ground arith;
  }

  -- The last flush leaves no record unflushed.
  stop_lem : (s : Sequencer) → (stop pg s).journal.synced_count ≡ (stop pg s).journal.header.count
  unfolding stop
  stop_lem s = let (_, c, _, e) = sync_dirty_keeps pg s.journal ms_sync in omega (arith, c, e)
