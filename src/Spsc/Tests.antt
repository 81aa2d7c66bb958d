-- ===== src/Spsc/Tests.antt =====
-- Runs of a ring of four slots, and the theorems at such runs.
use titan_hft.Common.{
  ℕ, ◌+◌, ◌≤◌, ◌<◌, ◌≡◌, refl, ◌⊎◌, true, false, List, [], ◌∷◌, ◌++◌, arith, length, take,
}
use titan_hft.Spsc.{Spsc, create, try_publish, publish_wave, try_consume, consume_batch}
use titan_hft.Spsc.Refine.{
  IsValid, contents, try_publish_refines, Consumed, try_consume_refines, consume_batch_refines,
}
use titan_hft.Spsc.Wave.{publish_wave_refines}
use titan_hft.Spsc.Trace.{Call, publishes, waves, consumes, drains, run, started, run_fifo}
use mathlib.Core.List.{foldl}

abbrev blank : ℕ → ℕ
blank _ = 0

abbrev calls : List (Call ℕ)
calls =
    publishes 1
    ∷ waves (2 ∷ 3 ∷ 4 ∷ 5 ∷ [])
    ∷ publishes 6
    ∷ consumes
    ∷ consumes
    ∷ waves (7 ∷ 8 ∷ 9 ∷ [])
    ∷ drains
    ∷ consumes
    ∷ []

history_calls : (run 4 (started 4 blank) calls).consumed ≡ 1 ∷ 2 ∷ 3 ∷ 4 ∷ 7 ∷ 8 ∷ []
unfolding run create try_publish publish_wave try_consume consume_batch
history_calls = refl

-- Two items in flight round the end of the array, with caches that lag behind.
abbrev wrapped : Spsc ℕ
wrapped = record {
  slots = λ i. 10 + i;
  cursor = 5;
  cached_consumer = 1;
  next = 3;
  cached_cursor = 4;
}

wrapped-IsValid : IsValid 4 wrapped
wrapped-IsValid = omega arith

try_publish_refines_example :
    let (r', done) = try_publish 4 wrapped 7 in
    IsValid 4 r'
    × (((done ≡ true)
          × (length (contents 4 wrapped) < 4)
          × (contents 4 r' ≡ contents 4 wrapped ++ 7 ∷ []))
        ⊎ ((done ≡ false)
            × (length (contents 4 wrapped) ≡ 4)
            × (contents 4 r' ≡ contents 4 wrapped)))
try_publish_refines_example = try_publish_refines 4 wrapped 7 wrapped-IsValid (omega arith)

try_consume_refines_example : Consumed 4 wrapped (try_consume 4 wrapped)
try_consume_refines_example = try_consume_refines 4 wrapped wrapped-IsValid

consume_batch_refines_example :
    let (r', s', n) = consume_batch 4 (λ l x. x ∷ l) [] wrapped in
    IsValid 4 r'
    × (s' ≡ foldl (λ l x. x ∷ l) [] (contents 4 wrapped))
    × (n ≡ length (contents 4 wrapped))
    × (contents 4 r' ≡ [])
consume_batch_refines_example = consume_batch_refines 4 (λ l x. x ∷ l) [] wrapped wrapped-IsValid

abbrev three : List ℕ
three = 7 ∷ 8 ∷ 9 ∷ []

publish_wave_refines_example :
    let (r', n) = publish_wave 4 wrapped (7 ∷ 8 ∷ 9 ∷ []) in
    IsValid 4 r'
    × (n ≤ 3)
    × ((0 < n) ⊎ ((length three ≡ 0) ⊎ (length (contents 4 wrapped) ≡ 4)))
    × (contents 4 r' ≡ contents 4 wrapped ++ take n (7 ∷ 8 ∷ 9 ∷ []))
publish_wave_refines_example =
    publish_wave_refines 4 wrapped (7 ∷ 8 ∷ 9 ∷ []) wrapped-IsValid (omega arith)

run_fifo_example :
    let h = run 4 (started 4 blank) calls in
    (h.accepted ≡ h.consumed ++ contents 4 h.ring) × (length (contents 4 h.ring) ≤ 4)
run_fifo_example = run_fifo 4 blank calls (omega arith) (omega arith) (omega arith)
