-- ===== src/Sequencer/Tests.antt =====
-- A log of four records and a sequencer that flushes every second order, at work.
use titan_hft.Common.{
  ℕ, ◌+◌, ◌≤◌, ◌<◌, ◌≡◌, refl, ◌⊎◌, inl, inr, true, false, none, some, List, [], ◌∷◌, ◌++◌, arith,
  ltb, if◌then◌else◌, length, pos,
}
use mathlib.Core.List.{foldl}
use titan_hft.Domain.{Order, Side, OrderType}
use titan_hft.Journal
use titan_hft.Journal.{
  Journaler, Flags, ms_async, ms_sync, Msync, wal_full, append, sync_dirty, is_async,
}
use titan_hft.Journal.Records.{IsWal, records, append_refines}
use titan_hft.Journal.Written.{WalCall, write, flush}
use titan_hft.Journal.Flush.{Covers, sync_dirty_lem}
use titan_hft.Sequencer.{Sequencer, create, publish_all, replay}
use titan_hft.Sequencer.Stamp.{stamp, Published, publish_all_lem, publish_all-full}
use titan_hft.Sequencer.Cadence.{OnTime, create-OnTime, publish_all-OnTime}
use titan_hft.Sequencer.Replay.{all_in_sequence, in_sequence, replay_lem, recovery}
use titan_hft.Journal.Records.{read}

abbrev order : ℕ → Order
order id = record {
  id = id;
  seq = 77;
  price = pos 100;
  quantity = 5;
  remaining = 5;
  side = Side.buy;
  type = OrderType.limit;
}

abbrev four : Journaler
four = Journal.create (λ i. order 0) 4

abbrev three_orders : List Order
three_orders = order 5 ∷ order 6 ∷ order 7 ∷ []

abbrev sequencer : Sequencer
sequencer = create four 2 2

-- Three records, of which the first has been flushed.
abbrev logged : Journaler
logged = record four { header = record four.header { count = 3 }; synced_count = 1 }

logged-IsWal : IsWal logged
unfolding Journal.create
logged-IsWal = record {
  magic = refl;
  version = refl;
  size = refl;
  mapped = refl;
  room = omega arith;
  synced = omega arith;
}

append_refines_example :
    ((3 < 4)
      × ((j' : Journaler) × (append logged (order 9) ≡ inr j')
          × (records j' ≡ records logged ++ order 9 ∷ [])
          × (j'.header.count ≡ logged.header.count + 1)
          × (j'.capacity ≡ logged.capacity)
          × (j'.synced_count ≡ logged.synced_count)))
    ⊎ ((4 ≤ 3) × (append logged (order 9) ≡ inl wal_full))
unfolding Journal.create
append_refines_example = append_refines logged (order 9) (omega arith)

-- The first of five appends, a checkpoint, and four more, of which the last throws.
abbrev wal_calls : List WalCall
wal_calls =
    write (order 1)
    ∷ flush ms_sync
    ∷ write (order 2)
    ∷ write (order 3)
    ∷ write (order 4)
    ∷ write (order 5)
    ∷ []

sync_dirty_lem_example :
    ((sync_dirty 4096 logged ms_sync).synced_count ≡ logged.header.count)
    × ((m : Msync) × Covers 4096 logged m
        × (m.flags ≡ ms_sync)
        × ((sync_dirty 4096 logged ms_sync).msyncs
            ≡ logged.msyncs ++ m ∷ record { begin = 0; bytes = 4096; flags = ms_sync } ∷ []))
sync_dirty_lem_example = sync_dirty_lem 4096 logged (omega arith) logged-IsWal ms_sync (omega arith)

publish_all_lem_example :
    (s' : Sequencer) × (publish_all 4096 sequencer three_orders ≡ some s')
    × Published 4096 sequencer s' three_orders
unfolding create Journal.create
publish_all_lem_example =
    publish_all_lem 4096 sequencer three_orders (omega arith) (omega arith) (omega arith)

publish_all-full_example : publish_all 4096 sequencer (order 4 ∷ order 4 ∷ three_orders) ≡ none
unfolding create Journal.create
publish_all-full_example =
    publish_all-full 4096 sequencer (order 4 ∷ order 4 ∷ three_orders) (omega arith) (omega arith)
      (omega arith) (omega arith)

publish_all-OnTime_example :
    (s' : Sequencer) × (publish_all 4096 sequencer three_orders ≡ some s')
    × OnTime s'
    × (s'.flush_interval ≡ sequencer.flush_interval)
    × (s'.journal.header.count < s'.journal.synced_count + sequencer.flush_interval)
unfolding create Journal.create
publish_all-OnTime_example =
    publish_all-OnTime 4096 sequencer three_orders (omega arith)
      (create-OnTime 4096 four 2 2 refl (omega arith)) (omega arith)

-- A log whose third record was not written before the crash.
abbrev torn : Journaler
torn = record four {
  slots = λ i. record (order i) { seq = if ltb i 2 then 40 + i else 0 };
  header = record four.header { count = 3 };
}

torn_example_run : (replay (λ (l : List ℕ) o. l ++ o.id ∷ []) torn []).1 ≡ 0 ∷ 1 ∷ []
unfolding replay Journal.create
torn_example_run = refl

replay_lem_example :
    let (k, m') = replay (λ (l : List ℕ) o. l ++ o.id ∷ []) torn [] in
    (k ≤ torn.header.count)
    × (all_in_sequence torn 0 k ≡ true)
    × (m' ≡ foldl (λ (l : List ℕ) o. l ++ o.id ∷ []) [] (read torn.slots 0 k))
    × ((k ≡ torn.header.count) ⊎ (in_sequence torn k ≡ false))
replay_lem_example = replay_lem (λ (l : List ℕ) o. l ++ o.id ∷ []) torn []

recovery_example :
    (s : Sequencer) × (publish_all 4096 (create (Journal.create (λ i. order 0) 4) 2 2) three_orders
      ≡ some s)
    × (s.ingress ≡ stamp 0 three_orders)
    × (replay (λ (l : List ℕ) o. l ++ o.id ∷ []) s.journal []
        ≡ (length three_orders, foldl (λ (l : List ℕ) o. l ++ o.id ∷ []) [] s.ingress))
recovery_example =
    recovery (λ (l : List ℕ) o. l ++ o.id ∷ []) 4096 (λ i. order 0) 4 2 2 three_orders []
      (omega arith) (omega arith)
