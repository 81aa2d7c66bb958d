-- ===== src/Journal.antt =====
-- include/titan/io/journaler.hpp: the write-ahead log. The mapped file is the header's fields, the
-- array of records and the list of the calls of msync(2) so far; the constructors take the file
-- as they find it (open, fstat, posix_fallocate, mmap and their failures are not modelled).
pub mod Flush
pub mod Records
pub mod Written
use titan_hft.Common.{
  ℕ, zero, suc, ◌+◌, ◌-◌, ◌*◌, ◌/◌, ◌%◌, ◌^◌, ◌≤◌, ◌<◌, min, ◌≡◌, ◌≢◌, refl, sym, ap, ap₂, ◌∙◌,
  subst, subst₂, ◌↔◌, ◌⊎◌, inl, inr, Bool, true, false, not, ◌&&◌, ◌||◌, Option, none, some, List,
  [], ◌∷◌, ◌++◌, map, map-append, append-nil, append_assoc, arith, ltb, leb, ◌==◌, if◌then◌else◌,
  ==→eq, eq_refl, Bool-cases, Option-cases, update, length, get_elem?, take, drop, length-append,
  take-append-drop, length-take, length-drop, has, Distinct, erase, last_or, head_or, All,
  All-append, has-append, has-erase, has-erase_self, erase-Distinct, length-erase, append-Distinct,
  u32, u64, sub64, test_bit, set_bit, clear_bit, lowest_clear, popcount, test_bit-set_bit,
  test_bit-clear_bit, test_bit-zero, lowest_clear_lem, set_bit-lt, clear_bit-le, popcount-le,
  popcount-none, popcount-clear_bit, popcount-full_iff, popcount-eq-zero, ℤ, pos, negsuc, ◌≤ℤ◌,
  ◌<ℤ◌, leb_ℤ, ltb_ℤ, eqb_ℤ, cast_u64, eq_of_parts, eqb_ℤ→eq, eqb_ℤ_refl, Seg, Seg-frame, Seg-split,
  Seg-join, last_or-append, has-last_or, has-split, Distinct-split, append_next, unlink_next,
  unlink_prev, Seg-append_last, Seg-unlink,
}
use titan_hft.Domain.{Order}

abbrev pub wal_magic : ℕ
wal_magic = 0x544954414E

abbrev pub wal_version : ℕ
wal_version = 1

-- sizeof(FileHeader) and sizeof(Order)
abbrev pub header_size : ℕ
header_size = 64

abbrev pub order_size : ℕ
order_size = 40

pub record FileHeader : Type 0 where
  pub magic : ℕ
  pub version : ℕ
  pub order_size : ℕ
  pub count : ℕ

-- MS_ASYNC and MS_SYNC
pub data Flags : Type 0 where
  ms_async ms_sync : Flags

abbrev pub is_async : Flags → Bool
is_async ms_async = true
is_async ms_sync = false

-- A call of msync(2): the offset in the mapping, the number of bytes, the flags.
pub record Msync : Type 0 where
  pub begin : ℕ
  pub bytes : ℕ
  pub flags : Flags

pub record Journaler : Type 0 where
  pub header : FileHeader
  pub slots : ℕ → Order
  pub map_bytes : ℕ
  pub capacity : ℕ
  pub synced_count : ℕ
  pub msyncs : List Msync

-- What the constructors and `append` throw.
pub data Thrown : Type 0 where
  too_small bad_magic bad_version size_mismatch wal_full : Thrown

-- CREATE: `file` is what the fresh file holds.
unfoldable pub create : (file : ℕ → Order) → (capacity_orders : ℕ) → Journaler
create file capacity_orders = record {
  header = record { magic = wal_magic; version = wal_version; order_size = order_size; count = 0 };
  slots = file;
  map_bytes = header_size + capacity_orders * order_size;
  capacity = capacity_orders;
  synced_count = 0;
  msyncs = [];
}

unfoldable pub validate : FileHeader → Option Thrown
validate h =
    if not (h.magic == wal_magic)
    then some bad_magic
    else if not (h.version == wal_version)
    then some bad_version
    else if not (h.order_size == order_size)
    then some size_mismatch
    else none

-- OPEN: the header and the records of a file of `st_size` bytes.
unfoldable pub open_file : FileHeader → (ℕ → Order) → (st_size : ℕ) → Thrown ⊎ Journaler
unfolding validate
open_file h file st_size = if ltb st_size header_size then inl too_small else elim (validate h) [
  | some e ↦ inl e
  | none ↦ inr (record {
    header = h;
    slots = file;
    map_bytes = st_size;
    capacity = (st_size - header_size) / order_size;
    synced_count = 0;
    msyncs = [];
  })
]

unfoldable pub append : Journaler → Order → Thrown ⊎ Journaler
append j o =
    if leb j.capacity j.header.count
    then inl wal_full
    else inr (record j {
      slots = update j.slots j.header.count o;
      header = record j.header { count = u64 (j.header.count + 1) };
    })

-- The byte range of the records from `synced_count` to `count`, out to page bounds and cut at the
-- end of the mapping.
begin_byte : ℕ → Journaler → ℕ
begin_byte pg j = let b = header_size + j.synced_count * order_size in b - b % pg

end_byte : ℕ → Journaler → ℕ
end_byte pg j =
    let e = (header_size + j.header.count * order_size + pg - 1) / pg * pg in
    if ltb j.map_bytes e then j.map_bytes else e

-- The calls of msync(2) that a flush makes.
calls : ℕ → Journaler → Flags → List Msync
unfolding begin_byte end_byte
calls pg j flags =
    (if ltb (begin_byte pg j) (end_byte pg j)
      then record {
        begin = begin_byte pg j;
        bytes = end_byte pg j - begin_byte pg j;
        flags = flags;
      }
        ∷ []
      else [])
    ++ (if is_async flags then [] else record { begin = 0; bytes = pg; flags = ms_sync } ∷ [])

-- `pg` is sysconf(_SC_PAGESIZE).
unfoldable pub sync_dirty : (pg : ℕ) → Journaler → Flags → Journaler
unfolding calls
sync_dirty pg j flags =
    if (j.header.count == j.synced_count) && is_async flags
    then j
    else record j { msyncs = j.msyncs ++ calls pg j flags; synced_count = j.header.count }

abbrev pub flush_async : ℕ → Journaler → Journaler
flush_async pg j = sync_dirty pg j ms_async

abbrev pub flush_sync : ℕ → Journaler → Journaler
flush_sync pg j = sync_dirty pg j ms_sync
