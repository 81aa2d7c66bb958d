-- ===== src/SnapshotPool/Tests.antt =====
-- Runs of a pool of three slots whose buffers are numbers.
use titan_hft.Common.{ℕ, ◌<◌, ◌≡◌, refl, false, some, List, [], ◌∷◌, arith, ◌==◌}
use titan_hft.SnapshotPool.{
  Shared, Move, writes, goes_on, reads, holding, step, run, start, reserve_free_slot, is_live,
}
use titan_hft.SnapshotPool.Claim.{held_stable, published_stable}
use titan_hft.SnapshotPool.Reserve.{reserve_free_slot_finds}

-- The writer publishes slot 0; the reader claims it while the writer fills slot 1, and holds it.
abbrev moves : List (Move ℕ)
moves =
    goes_on
    ∷ goes_on
    ∷ writes 41
    ∷ goes_on
    ∷ goes_on
    ∷ reads
    ∷ reads
    ∷ goes_on
    ∷ goes_on
    ∷ writes 42
    ∷ reads
    ∷ reads
    ∷ []

abbrev pool : Shared ℕ
pool = run 3 (start (λ _. 0)) moves

holds : pool.reader ≡ holding 0
unfolding run
holds = refl

lives : pool.published ≡ some 0
unfolding run
lives = refl

held_stable_example : (step 3 pool (writes 43)).buffers 0 ≡ pool.buffers 0
held_stable_example = held_stable 3 (λ _. 0) moves 0 (writes 43) holds

published_stable_example : (step 3 pool (writes 43)).buffers 0 ≡ pool.buffers 0
published_stable_example = published_stable 3 (λ _. 0) moves 0 (writes 43) lives

reserve_free_slot_finds_example :
    (i : ℕ) × (reserve_free_slot 3 (some 0) (λ j. j == 1) ≡ some i)
    × (i < 3)
    × (is_live (some 0) i ≡ false)
    × ((i == 1) ≡ false)
reserve_free_slot_finds_example =
    reserve_free_slot_finds 3 (some 0) (λ j. j == 1) 1 (omega arith) (λ i h. ground arith)
