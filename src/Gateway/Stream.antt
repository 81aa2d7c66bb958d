-- ===== src/Gateway/Stream.antt =====
-- A byte stream cut into blocks of 40: the blocks, and what is left over. This is what the
-- gateway promises of a connection's bytes, however they arrive.
use titan_hft.Common.{
  ℕ, zero, suc, ◌≤◌, ◌<◌, ◌≡◌, refl, ap, ◌∙◌, true, false, List, [], ◌∷◌, ◌++◌, arith, leb,
  if◌then◌else◌, length, take, drop, length-append, length-drop,
}
use native.Mathlib.Decide.{dec_lt}

abbrev pub block : ℕ
block = 40

-- The whole blocks, on fuel for their number.
unfoldable pub blocks : ℕ → List ℕ → List (List ℕ)
blocks zero xs = []
blocks (suc fuel) xs =
    let more = blocks fuel (drop block xs) in
    if leb block (length xs) then take block xs ∷ more else []

unfoldable pub rest : ℕ → List ℕ → List ℕ
rest zero xs = xs
rest (suc fuel) xs =
    let more = rest fuel (drop block xs) in if leb block (length xs) then more else xs

-- More fuel than bytes changes nothing.
pub blocks_fuel :
    (f g : ℕ) (xs : List ℕ)
    → length xs ≤ f
    → length xs ≤ g
    → (blocks f xs ≡ blocks g xs) × (rest f xs ≡ rest g xs)
unfolding blocks rest
blocks_fuel zero zero xs h k = (refl, refl)
blocks_fuel zero (suc g) xs h k = ground arith
blocks_fuel (suc f) zero xs h k = ground arith
blocks_fuel (suc f) (suc g) xs h k =
    let ih = λ (p : length (drop block xs) ≤ f) (q : length (drop block xs) ≤ g).
      blocks_fuel f g (drop block xs) p q in
    ground (arith, blocks_fuel f g (drop block xs), length-drop block xs)

pub length-rest-lt : (f : ℕ) (xs : List ℕ) → length xs ≤ f → length (rest f xs) < block
unfolding rest
length-rest-lt zero xs h = omega arith
length-rest-lt (suc f) xs h = ground (arith, length-rest-lt f (drop block xs), length-drop block xs)

pub drop-append-le : (n : ℕ) (xs ys : List ℕ) → n ≤ length xs → drop n (xs ++ ys) ≡ drop n xs ++ ys
drop-append-le zero xs ys h = refl
drop-append-le (suc n) [] ys h = absurd (omega arith)
drop-append-le (suc n) (x ∷ xs) ys h = drop-append-le n xs ys (omega arith)

pub take-append-le : (n : ℕ) (xs ys : List ℕ) → n ≤ length xs → take n (xs ++ ys) ≡ take n xs
take-append-le zero xs ys h = refl
take-append-le (suc n) [] ys h = absurd (omega arith)
take-append-le (suc n) (x ∷ xs) ys h = ap (λ l. x ∷ l) (take-append-le n xs ys (omega arith))

pub length-rest-le : (f : ℕ) (xs : List ℕ) → length (rest f xs) ≤ length xs
unfolding rest
length-rest-le zero xs = omega arith
length-rest-le (suc f) xs = ground (arith, length-rest-le f (drop block xs), length-drop block xs)

-- A stream of at least a block, and one of less.
pub blocks_ge :
    (f : ℕ) (xs : List ℕ)
    → block ≤ length xs
    → (blocks (suc f) xs ≡ take block xs ∷ blocks f (drop block xs))
      × (rest (suc f) xs ≡ rest f (drop block xs))
unfolding blocks rest
blocks_ge f xs h = let e : leb block (length xs) ≡ true = ground arith in rw e (refl, refl)

pub blocks_lt : (f : ℕ) (xs : List ℕ) → length xs < block → (blocks f xs ≡ []) × (rest f xs ≡ xs)
unfolding blocks rest
blocks_lt zero xs h = (refl, refl)
blocks_lt (suc f) xs h = let e : leb block (length xs) ≡ false = ground arith in rw e (refl, refl)

-- Cutting a stream at any place: the blocks before, then those of the left-over with what follows.
pub blocks-append :
    (f : ℕ) (xs ys : List ℕ)
    → length (xs ++ ys) ≤ f
    → (blocks f (xs ++ ys) ≡ blocks f xs ++ blocks f (rest f xs ++ ys))
      × (rest f (xs ++ ys) ≡ rest f (rest f xs ++ ys))
blocks-append zero xs ys h = unfold blocks rest in (refl, refl)
blocks-append (suc f) xs ys h = elim (dec_lt (length xs) block) [
  | yes lt ↦ let (b, r) = blocks_lt (suc f) xs lt in rw (b, r) (refl, refl)
  | no ge ↦
      let long : block ≤ length xs = omega arith in
      let (b1, r1) = blocks_ge f xs long in
      let (b2, r2) = blocks_ge f (xs ++ ys) (omega (arith, length-append xs ys)) in
      let len = length-append xs ys in
      let (ib, ir) =
        blocks-append f (drop block xs) ys
          (omega (arith, length-append (drop block xs) ys, length-drop block xs, len)) in
      let tail = rest f (drop block xs) ++ ys in
      let short : length tail ≤ f = omega (
        arith,
        length-append (rest f (drop block xs)) ys,
        length-rest-le f (drop block xs),
        length-drop block xs,
        len,
      ) in
      let (fb, fr) = blocks_fuel f (suc f) tail short (omega arith) in
      rw (b1, r1, b2, r2, take-append-le block xs ys long, drop-append-le block xs ys long)
        (ap (λ l. take block xs ∷ l) (ib ∙ ap (λ l. blocks f (drop block xs) ++ l) fb), ir ∙ fr)
]
