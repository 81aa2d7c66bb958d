-- ===== src/Spsc/Window.antt =====
-- The items between two positions of a ring whose slots are indexed modulo its size.
use titan_hft.Common.{
  ℕ, zero, suc, ◌+◌, ◌*◌, ◌/◌, ◌%◌, ◌≤◌, ◌<◌, ◌≡◌, ◌≢◌, refl, ap, false, List, [], ◌∷◌, ◌++◌, arith,
  ◌==◌, update, length,
}
use native.Mathlib.Nat.{div-add-mod, mul-le-mul_left, mul-suc}
use native.Mathlib.Decide.{dec_lt}

-- Two positions less than a round apart lie in different slots.
pub mod-ne_of_lt : (size j m : ℕ) → j < m → m < j + size → m % size ≢ j % size
mod-ne_of_lt size j m l h e = elim (dec_lt (j / size) (m / size)) [
  | yes up ↦
      let k : size * suc (j / size) ≤ size * (m / size) = mul-le-mul_left size up in
      omega (arith, k, div-add-mod m size, div-add-mod j size, mul-suc size (j / size))
  | no down ↦
      let k : size * (m / size) ≤ size * (j / size) = mul-le-mul_left size (omega arith) in
      omega (arith, k, div-add-mod m size, div-add-mod j size)
]

module _ {A : Type 0} (size : ℕ) where
  -- The `n` items from position `i` on.
  abbrev pub window : (ℕ → A) → (i n : ℕ) → List A
  window slots i zero = []
  window slots i (suc n) = slots (i % size) ∷ window slots (i + 1) n

  pub length-window : (slots : ℕ → A) (i n : ℕ) → length (window slots i n) ≡ n
  length-window slots i zero = refl
  length-window slots i (suc n) = ap suc (length-window slots (i + 1) n)

  -- A write at a position within a round behind the window leaves it alone.
  pub window-update_of_ge :
      (slots : ℕ → A) (i n p : ℕ) (x : A)
      → i + n ≤ p
      → p < i + size
      → window (update slots (p % size) x) i n ≡ window slots i n
  window-update_of_ge slots i zero p x l h = refl
  window-update_of_ge slots i (suc n) p x l h =
      let apart : (i % size == p % size) ≡ false = ground (arith, mod-ne_of_lt size i p) in
      rw (window-update_of_ge slots (i + 1) n p x (omega arith) (omega arith), apart)

  pub window-append :
      (slots : ℕ → A) (i m n : ℕ)
      → window slots i (m + n) ≡ window slots i m ++ window slots (i + m) n
  window-append slots i zero n =
      let a : 0 + n ≡ n = omega arith in let b : i + 0 ≡ i = omega arith in rw (a, b) refl
  window-append slots i (suc m) n =
      let a : suc m + n ≡ suc (m + n) = omega arith in
      let b : i + suc m ≡ i + 1 + m = omega arith in
      rw (a, b) (ap (λ l. slots (i % size) ∷ l) (window-append slots (i + 1) m n))
