-- ===== src/Mpsc/Tests.antt =====
-- Two producers that race for a cell of a ring of two.
use titan_hft.Common.{ℕ, ◌%◌, ◌≡◌, ◌≢◌, refl, false, some, List, [], ◌∷◌, ◌++◌, arith}
use titan_hft.Mpsc.Invariant.{owned, claimed}
use titan_hft.Mpsc.Exclusion.{fresh, producers_apart, consumer_apart}
use titan_hft.Mpsc.{System, Move, calls, produces, consumes, create, run}

abbrev start : System ℕ
start = fresh 2 (omega arith) (λ _. 0)

-- Both look at cell 0, producer 1 wins it, producer 2 gets cell 1 and publishes first: the consumer
-- waits for cell 0.
abbrev race_moves : List (Move ℕ)
race_moves =
    calls 1 11
    ∷ calls 2 22
    ∷ produces 1 false
    ∷ produces 2 false
    ∷ produces 1 false
    ∷ produces 2 false
    ∷ produces 1 false
    ∷ produces 2 false
    ∷ produces 2 false
    ∷ produces 2 false
    ∷ produces 2 false
    ∷ produces 2 false
    ∷ consumes
    ∷ consumes
    ∷ []

abbrev finish_moves : List (Move ℕ)
finish_moves =
    produces 1 false
    ∷ produces 1 false
    ∷ consumes
    ∷ consumes
    ∷ consumes
    ∷ consumes
    ∷ consumes
    ∷ consumes
    ∷ consumes
    ∷ consumes
    ∷ []

blocked : (run 2 start race_moves).taken ≡ []
unfolding run create
blocked = refl

drained : (run 2 (run 2 start race_moves) finish_moves).taken ≡ 11 ∷ 22 ∷ []
unfolding run create
drained = refl

-- Producers 1 and 2 have won cells 0 and 1.
abbrev both_won : List (Move ℕ)
both_won =
    calls 1 11
    ∷ calls 2 22
    ∷ produces 1 false
    ∷ produces 2 false
    ∷ produces 1 false
    ∷ produces 2 false
    ∷ produces 1 false
    ∷ produces 2 false
    ∷ produces 2 false
    ∷ produces 2 false
    ∷ []

won_first : owned ((run 2 start both_won).producers 1) ≡ some 0
unfolding run create
won_first = refl

won_second : owned ((run 2 start both_won).producers 2) ≡ some 1
unfolding run create
won_second = refl

producers_apart_example : 0 % 2 ≢ 1 % 2
producers_apart_example =
    producers_apart 2 (omega arith) (λ _. 0) both_won 1 2 0 1 (omega arith) (omega arith) won_first
      won_second

-- The consumer reads cell 1 while producer 1 writes cell 0 for the next lap.
abbrev next_lap : List (Move ℕ)
next_lap =
    both_won
    ++ produces 2 false
      ∷ produces 2 false
      ∷ produces 1 false
      ∷ produces 1 false
      ∷ consumes
      ∷ consumes
      ∷ consumes
      ∷ consumes
      ∷ consumes
      ∷ calls 1 33
      ∷ produces 1 false
      ∷ produces 1 false
      ∷ produces 1 false
      ∷ []

writes_next : owned ((run 2 start next_lap).producers 1) ≡ some 2
unfolding run create
writes_next = refl

reads_second : claimed (run 2 start next_lap).consumer ≡ some 1
unfolding run create
reads_second = refl

consumer_apart_example : 2 % 2 ≢ 1 % 2
consumer_apart_example =
    consumer_apart 2 (omega arith) (λ _. 0) next_lap 1 2 1 (omega arith) writes_next reads_second
