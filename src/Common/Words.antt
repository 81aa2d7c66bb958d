-- ===== src/Common/Words.antt =====
-- Machine words: the wrap of unsigned arithmetic, and single bits of a word. The bit
-- operations are by recursion on the index of the bit.
use Prim.Native.Nat.{ℕ, zero, suc, ◌+◌, ◌-◌, ◌*◌, ◌/◌, ◌%◌, ◌^◌, ◌≤◌, ◌<◌}
use mathlib.Core.Path.{◌≡◌, refl}
use mathlib.Core.Logic.{◌≢◌, ◌↔◌}
use mathlib.Core.Bool.{Bool, true, false}
use native.Mathlib.Omega.{arith}
use native.Mathlib.Nat.{pow-suc}
use titan_hft.Common.Tests.{◌==◌, if◌then◌else◌}

abbrev pub u32 : ℕ → ℕ
u32 n = n % 2 ^ 32

abbrev pub u64 : ℕ → ℕ
u64 n = n % 2 ^ 64

-- `a - b` on `uint64_t`.
abbrev pub sub64 : ℕ → ℕ → ℕ
sub64 a b = (a + 2 ^ 64 - b) % 2 ^ 64

-- `(m & (1 << i)) != 0`
pub test_bit : ℕ → ℕ → Bool
test_bit m zero = m % 2 == 1
test_bit m (suc i) = test_bit (m / 2) i

-- `m | (1 << i)`
pub set_bit : ℕ → ℕ → ℕ
set_bit m zero = m / 2 * 2 + 1
set_bit m (suc i) = set_bit (m / 2) i * 2 + m % 2

-- `m & ~(1 << i)`
pub clear_bit : ℕ → ℕ → ℕ
clear_bit m zero = m / 2 * 2
clear_bit m (suc i) = clear_bit (m / 2) i * 2 + m % 2

-- `ctz(~m)` of a word of `w` bits: the lowest clear bit, and `w` if there is none.
pub lowest_clear : ℕ → ℕ → ℕ
lowest_clear zero m = 0
lowest_clear (suc w) m = let rest = lowest_clear w (m / 2) in if m % 2 == 1 then suc rest else 0

-- `popcount` of a word of `w` bits.
pub popcount : ℕ → ℕ → ℕ
popcount zero m = 0
popcount (suc w) m = m % 2 + popcount w (m / 2)

pub test_bit-set_bit :
    (m i j : ℕ) → test_bit (set_bit m i) j ≡ (if j == i then true else test_bit m j)
unfolding test_bit set_bit
test_bit-set_bit m zero zero = ground arith
test_bit-set_bit m zero (suc j) = ground arith
test_bit-set_bit m (suc i) zero = ground arith
test_bit-set_bit m (suc i) (suc j) = ground (arith, test_bit-set_bit (m / 2) i j)

pub test_bit-clear_bit :
    (m i j : ℕ) → test_bit (clear_bit m i) j ≡ (if j == i then false else test_bit m j)
unfolding test_bit clear_bit
test_bit-clear_bit m zero zero = ground arith
test_bit-clear_bit m zero (suc j) = ground arith
test_bit-clear_bit m (suc i) zero = ground arith
test_bit-clear_bit m (suc i) (suc j) = ground (arith, test_bit-clear_bit (m / 2) i j)

pub test_bit-zero : (i : ℕ) → test_bit 0 i ≡ false
unfolding test_bit
test_bit-zero zero = refl
test_bit-zero (suc i) = test_bit-zero i

-- Setting a bit of a word that is not all ones finds a clear bit inside the word.
pub lowest_clear_lem :
    (w m : ℕ)
    → m < 2 ^ w
    → suc m ≢ 2 ^ w
    → (lowest_clear w m < w) × (test_bit m (lowest_clear w m) ≡ false)
unfolding lowest_clear test_bit
lowest_clear_lem zero m h n = absurd (omega arith)
lowest_clear_lem (suc w) m h n = ground (arith, pow-suc 2 w, lowest_clear_lem w (m / 2))

pub set_bit-lt : (w m i : ℕ) → m < 2 ^ w → i < w → set_bit m i < 2 ^ w
unfolding set_bit
set_bit-lt zero m i h l = absurd (omega arith)
set_bit-lt (suc w) m zero h l = omega (arith, pow-suc 2 w)
set_bit-lt (suc w) m (suc i) h l = omega (arith, pow-suc 2 w, set_bit-lt w (m / 2) i)

pub clear_bit-le : (m i : ℕ) → clear_bit m i ≤ m
unfolding clear_bit
clear_bit-le m zero = omega arith
clear_bit-le m (suc i) = omega (arith, clear_bit-le (m / 2) i)

pub popcount-le : (w m : ℕ) → popcount w m ≤ w
unfolding popcount
popcount-le zero m = omega arith
popcount-le (suc w) m = omega (arith, popcount-le w (m / 2))

pub popcount-none : (w m : ℕ) → ((i : ℕ) → i < w → test_bit m i ≡ false) → popcount w m ≡ 0
unfolding popcount test_bit
popcount-none zero m h = refl
popcount-none (suc w) m h =
    let low : (m % 2 == 1) ≡ false = h 0 (omega arith) in
    let rest = popcount-none w (m / 2) (λ i l. h (suc i) (omega arith)) in ground (arith, rest)

pub popcount-clear_bit :
    (w m i : ℕ) → i < w → test_bit m i ≡ true → popcount w m ≡ suc (popcount w (clear_bit m i))
unfolding popcount test_bit clear_bit
popcount-clear_bit zero m i l h = absurd (omega arith)
popcount-clear_bit (suc w) m zero l h = ground arith
popcount-clear_bit (suc w) m (suc i) l h =
    let ih = popcount-clear_bit w (m / 2) i (omega arith) h in
    let half : (clear_bit (m / 2) i * 2 + m % 2) / 2 ≡ clear_bit (m / 2) i = omega arith in
    rw half (omega (arith, ih))

-- A word has all its bits set exactly when it is `2 ^ w - 1`.
pub popcount-full_iff : (w m : ℕ) → m < 2 ^ w → (popcount w m ≡ w) ↔ (suc m ≡ 2 ^ w)
unfolding popcount
popcount-full_iff zero m h = (λ _. omega arith, λ _. refl)
popcount-full_iff (suc w) m h =
    let (to, from) = popcount-full_iff w (m / 2) (omega (arith, pow-suc 2 w)) in
    (
      λ e. omega (arith, pow-suc 2 w, to (omega (arith, popcount-le w (m / 2)))),
      λ e. omega (arith, from (omega (arith, pow-suc 2 w)), pow-suc 2 w),
    )

pub popcount-eq-zero : (w m : ℕ) → m < 2 ^ w → popcount w m ≡ 0 → m ≡ 0
unfolding popcount
popcount-eq-zero zero m h e = omega arith
popcount-eq-zero (suc w) m h e =
    omega
      (arith, pow-suc 2 w, popcount-eq-zero w (m / 2) (omega (arith, pow-suc 2 w)) (omega arith))
