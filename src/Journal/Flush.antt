-- ===== src/Journal/Flush.antt =====
-- What a flush hands to msync(2): whole pages that cover the records since the flush cursor.
use titan_hft.Common.{
  ℕ, ◌+◌, ◌-◌, ◌*◌, ◌/◌, ◌≤◌, ◌<◌, ◌≡◌, refl, true, false, [], ◌∷◌, ◌++◌, arith, ltb, ◌==◌,
  if◌then◌else◌,
}
use native.Mathlib.Nat.{div-add-mod, mod-lt, mul_comm}
use titan_hft.Journal.{
  Journaler, Flags, ms_sync, Msync, is_async, sync_dirty, begin_byte, end_byte, calls, header_size,
  order_size,
}
use titan_hft.Journal.Records.{IsWal}

-- A call on just the page-aligned hull of the records `i` to `n`.
pub record Covers (pg : ℕ) (j : Journaler) (m : Msync) : Type 0 where
  pub aligned : (q : ℕ) × (m.begin ≡ q * pg)
  pub starts : m.begin ≤ header_size + j.synced_count * order_size
  pub tight : header_size + j.synced_count * order_size < m.begin + pg
  pub ends : header_size + j.header.count * order_size ≤ m.begin + m.bytes
  pub inside : m.begin + m.bytes ≤ j.map_bytes

module _ (pg : ℕ) (j : Journaler) (z : 0 < pg) (v : IsWal j) where
  begin_byte_lem :
      let b = header_size + j.synced_count * order_size in
      ((q : ℕ) × (begin_byte pg j ≡ q * pg)) × (begin_byte pg j ≤ b) × (b < begin_byte pg j + pg)
  unfolding begin_byte
  begin_byte_lem =
      let b = header_size + j.synced_count * order_size in
      let d = div-add-mod b pg in
      let l = mod-lt b z in
      ((b / pg, omega (arith, d, mul_comm pg (b / pg))), omega arith, omega (arith, l))

  end_byte_lem :
      (header_size + j.header.count * order_size ≤ end_byte pg j) × (end_byte pg j ≤ j.map_bytes)
  unfolding end_byte
  end_byte_lem =
      let e = header_size + j.header.count * order_size in
      let k = e + pg - 1 in
      let d = div-add-mod k pg in
      let l = mod-lt k z in
      let c = mul_comm pg (k / pg) in
      let fits : e ≤ j.map_bytes = omega (arith, v.mapped, v.room) in
      let up : e ≤ k / pg * pg = omega (arith, d, l, c) in ground (arith, up, fits)

  -- A flush with a record to flush makes one call, on the pages of the records since the flush
  -- cursor and inside the mapping, with its own flags, and a MS_SYNC one a second call, on the
  -- first page; then the cursor is the count. In particular no call of a MS_SYNC flush reaches a
  -- page below that of the cursor, apart from the first, whichever kind of flush moved it there.
  pub sync_dirty_lem :
      (f : Flags)
      → j.synced_count < j.header.count
      → let j' = sync_dirty pg j f in
        (j'.synced_count ≡ j.header.count)
        × ((m : Msync) × Covers pg j m
            × (m.flags ≡ f)
            × (j'.msyncs
                ≡ j.msyncs
                  ++ m
                    ∷ (if is_async f
                        then []
                        else record { begin = 0; bytes = pg; flags = ms_sync } ∷ [])))
  unfolding sync_dirty calls
  sync_dirty_lem f h =
      let (q, s, t) = begin_byte_lem in
      let (e, i) = end_byte_lem in
      let dirty : (j.header.count == j.synced_count) ≡ false = ground arith in
      let some_bytes : ltb (begin_byte pg j) (end_byte pg j) ≡ true = ground (arith, s, e) in
      let m : Msync = record {
        begin = begin_byte pg j;
        bytes = end_byte pg j - begin_byte pg j;
        flags = f;
      } in
      let c : Covers pg j m = record {
        aligned = q;
        starts = s;
        tight = t;
        ends = omega (arith, s, e, h);
        inside = omega (arith, s, e, i, h);
      } in
      rw (dirty, some_bytes) (refl, (m, c, refl, refl))
