-- ===== src/SnapshotPool/Reserve.antt =====
-- The scan for a slot to write: with one reader it always finds one.
use titan_hft.Common.{
  ℕ, zero, suc, ◌+◌, ◌≤◌, ◌<◌, ◌≡◌, sym, subst, ◌⊎◌, inl, inr, Bool, true, false, ◌||◌, Option,
  none, some, arith, ◌==◌, ==→eq, Bool-cases,
}
use titan_hft.SnapshotPool.{is_live, reserve_free_slot, reserve_from}

abbrev busy : Option ℕ → (ℕ → Bool) → ℕ → Bool
busy live in_use i = is_live live i || in_use i

reserve_from_lem :
    (live : Option ℕ) (in_use : ℕ → Bool) (left j : ℕ)
    → ((i : ℕ) × (reserve_from live in_use left j ≡ some i)
        × (i < j + left)
        × (busy live in_use i ≡ false))
      ⊎ ((i : ℕ) → j ≤ i → i < j + left → busy live in_use i ≡ true)
unfolding reserve_from
reserve_from_lem live in_use zero j = inr (λ i l h. absurd (omega arith))
reserve_from_lem live in_use (suc left) j = elim (Bool-cases (busy live in_use j)) [
  | inr e ↦ inl (j, ground arith, omega arith, e)
  | inl e ↦ elim (reserve_from_lem live in_use left (j + 1)) [
    | inl (i, r, l, f) ↦ inl (i, ground arith, omega arith, f)
    | inr all ↦ inr (λ i l h. elim (Bool-cases (i == j)) [
      | inl q ↦ subst (λ k. busy live in_use k ≡ true) (sym (==→eq i j q)) e
      | inr q ↦ all i (ground arith) (omega arith)
    ])
  ]
]

is_live_unique : (live : Option ℕ) (i j : ℕ) → is_live live i ≡ true → is_live live j ≡ true → i ≡ j
is_live_unique none i j h k = absurd (ground arith)
is_live_unique (some p) i j h k = ground arith

-- Of three slots, two would be live or two in use.
not_all_busy :
    (live : Option ℕ) (k : ℕ)
    → (is_live live 0 ≡ true) ⊎ (0 ≡ k)
    → (is_live live 1 ≡ true) ⊎ (1 ≡ k)
    → (is_live live 2 ≡ true) ⊎ (2 ≡ k)
    → ⊥
not_all_busy live k (inl a) (inl b) c = absurd (omega (arith, is_live_unique live 0 1 a b))
not_all_busy live k (inl a) (inr b) (inl c) = absurd (omega (arith, is_live_unique live 0 2 a c))
not_all_busy live k (inl a) (inr b) (inr c) = absurd (omega arith)
not_all_busy live k (inr a) (inl b) (inl c) = absurd (omega (arith, is_live_unique live 1 2 b c))
not_all_busy live k (inr a) (inl b) (inr c) = absurd (omega arith)
not_all_busy live k (inr a) (inr b) c = absurd (omega arith)

live_or_used :
    (live : Option ℕ) (in_use : ℕ → Bool) (k i : ℕ)
    → ((i : ℕ) → in_use i ≡ true → i ≡ k)
    → busy live in_use i ≡ true
    → (is_live live i ≡ true) ⊎ (i ≡ k)
live_or_used live in_use k i one h = elim (Bool-cases (is_live live i)) [
  | inl e ↦ inl e
  | inr e ↦ inr (one i (ground arith))
]

-- With at least three slots, of which a reader holds one at most, the scan finds a slot, which is
-- neither live nor in use.
pub reserve_free_slot_finds :
    (slots : ℕ) (live : Option ℕ) (in_use : ℕ → Bool) (k : ℕ)
    → 3 ≤ slots
    → ((i : ℕ) → in_use i ≡ true → i ≡ k)
    → (i : ℕ) × (reserve_free_slot slots live in_use ≡ some i)
      × (i < slots)
      × (is_live live i ≡ false)
      × (in_use i ≡ false)
unfolding reserve_free_slot
reserve_free_slot_finds slots live in_use k l one = elim (reserve_from_lem live in_use slots 0) [
  | inl (i, r, h, f) ↦ (i, r, omega arith, ground arith, ground arith)
  | inr all ↦ absurd (
      not_all_busy live k (live_or_used live in_use k 0 one (all 0 (omega arith) (omega arith)))
        (live_or_used live in_use k 1 one (all 1 (omega arith) (omega arith)))
        (live_or_used live in_use k 2 one (all 2 (omega arith) (omega arith))))
]
