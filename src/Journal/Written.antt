-- ===== src/Journal/Written.antt =====
-- A log from its creation on: what a later start of the program opens, whatever was appended and
-- flushed before.
use titan_hft.Common.{ℕ, ◌+◌, ◌≡◌, ◌⊎◌, inl, inr, List, [], ◌∷◌, ◌++◌, take}
use titan_hft.Domain.{Order}
use titan_hft.Journal.{Flags, Journaler, Thrown, append, sync_dirty}
use titan_hft.Journal.Records.{records, IsWal}

-- A call of `append`, or of one of the flushes.
pub data WalCall : Type 0 where
  write : Order → WalCall
  flush : Flags → WalCall

-- An `append` that throws leaves the log.
abbrev kept : Journaler → Thrown ⊎ Journaler → Journaler
kept j (inl e) = j
kept j (inr j') = j'

pub calls_on : ℕ → Journaler → List WalCall → Journaler
calls_on pg j [] = j
calls_on pg j (write o ∷ cs) = calls_on pg (kept j (append j o)) cs
calls_on pg j (flush f ∷ cs) = calls_on pg (sync_dirty pg j f) cs

-- The orders of the calls of `append`.
abbrev pub written : List WalCall → List Order
written [] = []
written (write o ∷ cs) = o ∷ written cs
written (flush f ∷ cs) = written cs

-- The log after the calls: of their orders, what fits is behind its records.
record Grown (j : Journaler) (os : List Order) (j' : Journaler) : Type 0 where
  wal : IsWal j'
  held : (room : ℕ) → j.header.count + room ≡ j.capacity → records j' ≡ records j ++ take room os
  capacity : j'.capacity ≡ j.capacity
