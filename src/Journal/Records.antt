-- ===== src/Journal/Records.antt =====
-- The log as a list of records: what append does to it, and what stays of it through a flush.
use titan_hft.Common.{
  ℕ, zero, suc, ◌+◌, ◌*◌, ◌^◌, ◌≤◌, ◌<◌, ◌≡◌, refl, ap, ap₂, ◌∙◌, ◌↔◌, ◌⊎◌, inl, inr, ◌&&◌, none,
  List, [], ◌∷◌, ◌++◌, arith, leb, ◌==◌, Bool-cases, update, length, u64,
}
use titan_hft.Domain.{Order}
use titan_hft.Journal.{
  FileHeader, Flags, Journaler, wal_full, validate, append, sync_dirty, header_size, order_size,
  is_async, wal_magic,
}

-- The `n` records from `i` on.
abbrev pub read : (ℕ → Order) → ℕ → ℕ → List Order
read file i zero = []
read file i (suc n) = file i ∷ read file (i + 1) n

abbrev pub records : Journaler → List Order
records j = read j.slots 0 j.header.count

read-update_of_ge :
    (file : ℕ → Order) (i n p : ℕ) (o : Order)
    → i + n ≤ p
    → read (update file p o) i n ≡ read file i n
read-update_of_ge file i zero p o h = refl
read-update_of_ge file i (suc n) p o h =
    ap₂ ◌∷◌ (ground arith) (read-update_of_ge file (i + 1) n p o (omega arith))

pub read-suc :
    (file : ℕ → Order) (i n : ℕ) → read file i (n + 1) ≡ read file i n ++ file (i + n) ∷ []
read-suc file i zero = ap (λ k. file k ∷ []) (omega arith)
read-suc file i (suc n) =
    let a : suc n + 1 ≡ suc (n + 1) = omega arith in
    let b : i + suc n ≡ i + 1 + n = omega arith in
    rw (a, b) (ap (λ l. file i ∷ l) (read-suc file (i + 1) n))

pub length-read : (file : ℕ → Order) (i n : ℕ) → length (read file i n) ≡ n
length-read file i zero = refl
length-read file i (suc n) = ap suc (length-read file (i + 1) n)

-- With a capacity below 2^64, appending writes one record behind those of the log while there is room, and leaves the flush
-- cursor; a full log throws.
pub append_refines :
    (j : Journaler) (o : Order)
    → j.capacity < 2 ^ 64
    → ((j.header.count < j.capacity)
        × ((j' : Journaler) × (append j o ≡ inr j')
            × (records j' ≡ records j ++ o ∷ [])
            × (j'.header.count ≡ j.header.count + 1)
            × (j'.capacity ≡ j.capacity)
            × (j'.synced_count ≡ j.synced_count)))
      ⊎ ((j.capacity ≤ j.header.count) × (append j o ≡ inl wal_full))
unfolding append
append_refines j o w = elim (Bool-cases (leb j.capacity j.header.count)) [
  | inl e ↦ inr (ground arith, rw e refl)
  | inr e ↦
      let c = j.header.count in
      let k : u64 (c + 1) ≡ c + 1 = ground arith in
      inl (
        ground arith,
        (
          record j { slots = update j.slots c o; header = record j.header { count = u64 (c + 1) } },
          rw e refl,
          ap (read (update j.slots c o) 0) k
              ∙ read-suc (update j.slots c o) 0 c
              ∙ ap₂ ◌++◌ (read-update_of_ge j.slots 0 c c o (omega arith)) (ground arith),
          k,
          refl,
          refl,
        ),
      )
]

-- A flush of either kind leaves the records, the count and the capacity.
pub sync_dirty_keeps :
    (pg : ℕ) (j : Journaler) (f : Flags)
    → let j' = sync_dirty pg j f in
      (records j' ≡ records j)
      × (j'.header.count ≡ j.header.count)
      × (j'.capacity ≡ j.capacity)
      × (j'.synced_count ≡ j.header.count)
unfolding sync_dirty
sync_dirty_keeps pg j f = elim (Bool-cases ((j.header.count == j.synced_count) && is_async f)) [
  | inl e ↦ rw e (refl, refl, refl, ground arith)
  | inr e ↦ rw e (refl, refl, refl, refl)
]

-- A header is accepted just if its magic, version and record size are this program's.
pub validate_iff :
    (h : FileHeader)
    → (validate h ≡ none) ↔ ((h.magic ≡ 0x544954414E) × (h.version ≡ 1) × (h.order_size ≡ 40))
unfolding validate
validate_iff h = ground arith

-- What `create` establishes and every operation keeps: this program's header, and a mapping of
-- just the capacity's size.
pub record IsWal (j : Journaler) : Type 0 where
  pub magic : j.header.magic ≡ wal_magic
  pub version : j.header.version ≡ 1
  pub size : j.header.order_size ≡ order_size
  pub mapped : j.map_bytes ≡ header_size + j.capacity * order_size
  pub room : j.header.count ≤ j.capacity
  pub synced : j.synced_count ≤ j.header.count
