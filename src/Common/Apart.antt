-- ===== src/Common/Apart.antt =====
-- Lists of distinct numbers: how they are put together and taken apart, and that those below a
-- bound are no more than the bound.
use Prim.Native.Nat.{ℕ, zero, suc, ◌≤◌, ◌<◌}
use mathlib.Core.Path.{◌≡◌, sym, subst}
use mathlib.Core.Logic.{inl, inr}
use mathlib.Core.Bool.{true, false}
use mathlib.Core.List.{List, [], ◌∷◌, ◌++◌}
use native.Mathlib.Omega.{arith}
use titan_hft.Common.Tests.{◌==◌, Bool-cases, ==→eq, eq_refl}
use titan_hft.Common.Lists.{
  length, has, Distinct, erase, has-append, has-erase, has-erase_self, erase-Distinct, length-erase,
}

pub Distinct-apart :
    (xs ys : List ℕ)
    → Distinct (xs ++ ys)
    → Distinct xs × Distinct ys × ((k : ℕ) → has k xs ≡ true → has k ys ≡ false)
Distinct-apart [] ys d = (tt, d, λ k h. ground arith)
Distinct-apart (x ∷ xs) ys d =
    let (a, b, c) = Distinct-apart xs ys d.1 in
    (
      (ground (arith, has-append x xs ys), a),
      b,
      λ k h. elim (Bool-cases (k == x)) [
        | inl e ↦
            subst (λ z. has z ys ≡ false) (sym (==→eq k x e)) (ground (arith, has-append x xs ys))
        | inr e ↦ c k (ground arith)
      ],
    )

pub Distinct-append :
    (xs ys : List ℕ)
    → Distinct xs
    → Distinct ys
    → ((k : ℕ) → has k xs ≡ true → has k ys ≡ false)
    → Distinct (xs ++ ys)
Distinct-append [] ys a b c = b
Distinct-append (x ∷ xs) ys a b c = (
  ground (arith, has-append x xs ys, c x, eq_refl x),
  Distinct-append xs ys a.1 b (λ k h. c k (ground arith)),
)

-- A number moves to the front, and back.
pub Distinct-front : (xs ys : List ℕ) (n : ℕ) → Distinct (xs ++ n ∷ ys) → Distinct (n ∷ xs ++ ys)
Distinct-front xs ys n d =
    let (a, b, c) = Distinct-apart xs (n ∷ ys) d in
    let out : has n xs ≡ false = elim (Bool-cases (has n xs)) [
      | inr e ↦ e
      | inl e ↦ absurd (ground (arith, c n e, eq_refl n))
    ] in
    (
      ground (arith, has-append n xs ys, out),
      Distinct-append xs ys a b.1 (λ k h. ground (arith, c k h)),
    )

pub Distinct-back : (xs ys : List ℕ) (n : ℕ) → Distinct (n ∷ xs ++ ys) → Distinct (xs ++ n ∷ ys)
Distinct-back xs ys n d =
    let (a, b, c) = Distinct-apart xs ys d.1 in
    Distinct-append xs (n ∷ ys) a (ground (arith, has-append n xs ys), b)
      (λ k h. elim (Bool-cases (k == n)) [
        | inl e ↦
            absurd
              (ground (arith, has-append n xs ys, subst (λ z. has z xs ≡ true) (==→eq k n e) h))
        | inr e ↦ ground (arith, c k h)
      ])

pub length-le_of_bounded :
    (n : ℕ) (xs : List ℕ) → Distinct xs → ((k : ℕ) → has k xs ≡ true → k < n) → length xs ≤ n
length-le_of_bounded zero [] d b = omega arith
length-le_of_bounded zero (x ∷ xs) d b = absurd (omega (arith, b x (ground (arith, eq_refl x))))
length-le_of_bounded (suc n) xs d b = elim (Bool-cases (has n xs)) [
  | inl e ↦
      let r = length-le_of_bounded n (erase n xs) (erase-Distinct n xs d) (λ k h.
        elim (Bool-cases (k == n)) [
          | inl f ↦ absurd (
              ground (
                arith,
                has-erase_self n xs d,
                subst (λ z. has z (erase n xs) ≡ true) (==→eq k n f) h,
              ))
          | inr f ↦ ground (arith, b k, has-erase n k xs)
        ]) in
      omega (arith, r, length-erase n xs e)
  | inr e ↦
      let r = length-le_of_bounded n xs d (λ k h. elim (Bool-cases (k == n)) [
        | inl f ↦ absurd (ground (arith, e, subst (λ z. has z xs ≡ true) (==→eq k n f) h))
        | inr f ↦ ground (arith, b k h)
      ]) in
      omega (arith, r)
]
