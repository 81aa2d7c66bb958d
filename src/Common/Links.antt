-- ===== src/Common/Links.antt =====
-- Intrusive doubly linked lists: two index arrays thread the elements of a list in order. The
-- FIFO of a PIN node and the neighbour links of the price index are such lists.
use Prim.Native.Nat.{ℕ}
use mathlib.Core.Path.{◌≡◌, refl, sym, ap, ◌∙◌, subst, subst₂}
use mathlib.Core.Logic.{inl, inr}
use mathlib.Core.Bool.{Bool, true, false}
use mathlib.Core.List.{List, [], ◌∷◌, ◌++◌, append-nil}
use native.Mathlib.Omega.{arith}
use titan_hft.Common.Tests.{◌==◌, if◌then◌else◌, Bool-cases, ==→eq, eq_refl}
use titan_hft.Common.Lists.{update, has, Distinct, erase, last_or, head_or, has-append}

-- From the cursor `c`, entered from `p`, the links lead through `xs` to the cursor `e`.
abbrev pub Seg : (next prev : ℕ → ℕ) → ℕ → ℕ → List ℕ → ℕ → Type 0
Seg next prev p c [] e = c ≡ e
Seg next prev p c (x ∷ xs) e = (c ≡ x) × (prev x ≡ p) × Seg next prev x (next x) xs e

pub Seg-frame :
    (next prev next' prev' : ℕ → ℕ) (p c : ℕ) (xs : List ℕ) (e : ℕ)
    → ((a : ℕ) → has a xs ≡ true → (next' a ≡ next a) × (prev' a ≡ prev a))
    → Seg next prev p c xs e
    → Seg next' prev' p c xs e
Seg-frame next prev next' prev' p c [] e same s = s
Seg-frame next prev next' prev' p c (x ∷ xs) e same s =
    let (n, q) = same x (ground arith) in
    (
      s.0,
      q ∙ s.1,
      rw n (Seg-frame next prev next' prev' x (next x) xs e (λ a h. same a (ground arith)) s.2),
    )

pub Seg-split :
    (next prev : ℕ → ℕ) (p c : ℕ) (xs ys : List ℕ) (e : ℕ)
    → Seg next prev p c (xs ++ ys) e
    → Seg next prev p c xs (head_or e ys) × Seg next prev (last_or p xs) (head_or e ys) ys e
Seg-split next prev p c [] [] e s = (s, refl)
Seg-split next prev p c [] (y ∷ ys) e s = (s.0, (refl, s.1, s.2))
Seg-split next prev p c (x ∷ xs) ys e s =
    let (l, r) = Seg-split next prev x (next x) xs ys e s.2 in ((s.0, s.1, l), r)

pub Seg-join :
    (next prev : ℕ → ℕ) (p c : ℕ) (xs ys : List ℕ) (d e : ℕ)
    → Seg next prev p c xs d
    → Seg next prev (last_or p xs) d ys e
    → Seg next prev p c (xs ++ ys) e
Seg-join next prev p c [] ys d e s t = rw s t
Seg-join next prev p c (x ∷ xs) ys d e s t =
    (s.0, s.1, Seg-join next prev x (next x) xs ys d e s.2 t)

pub last_or-append : (d : ℕ) (xs : List ℕ) (x : ℕ) → last_or d (xs ++ x ∷ []) ≡ x
last_or-append d [] x = refl
last_or-append d (y ∷ xs) x = last_or-append y xs x

last_or-append_cons : (d : ℕ) (xs ys : List ℕ) (y : ℕ) → last_or d (xs ++ y ∷ ys) ≡ last_or y ys
last_or-append_cons d [] ys y = refl
last_or-append_cons d (x ∷ xs) ys y = last_or-append_cons x xs ys y

pub has-last_or : (x : ℕ) (xs : List ℕ) → has (last_or x xs) (x ∷ xs) ≡ true
has-last_or x [] = ground arith
has-last_or x (y ∷ xs) = ground (arith, has-last_or y xs)

-- The link out of the last element.
Seg-next_last :
    (next prev : ℕ → ℕ) (p c x : ℕ) (xs : List ℕ) (e e' : ℕ)
    → Distinct (x ∷ xs)
    → Seg next prev p c (x ∷ xs) e
    → Seg (update next (last_or x xs) e') prev p c (x ∷ xs) e'
Seg-next_last next prev p c x [] e e' d s = (s.0, s.1, ground arith)
Seg-next_last next prev p c x (y ∷ xs) e e' d s =
    let apart : (x == last_or y xs) ≡ false = ground (arith, has-last_or y xs) in
    (s.0, s.1, rw apart (Seg-next_last next prev x (next x) y xs e e' d.1 s.2))

-- The link back from the first element.
Seg-prev_first :
    (next prev : ℕ → ℕ) (p p' c x : ℕ) (xs : List ℕ) (e : ℕ)
    → Distinct (x ∷ xs)
    → Seg next prev p c (x ∷ xs) e
    → Seg next (update prev x p') p' c (x ∷ xs) e
Seg-prev_first next prev p p' c x xs e d s = (
  s.0,
  ground arith,
  Seg-frame next prev next (update prev x p') x (next x) xs e
      (λ a h. (refl, let apart : (a == x) ≡ false = ground arith in rw apart refl)) s.2,
)

pub has-split :
    (s : ℕ) (xs : List ℕ)
    → has s xs ≡ true
    → (ls : List ℕ) × (rs : List ℕ) × (xs ≡ ls ++ s ∷ rs) × (erase s xs ≡ ls ++ rs)
has-split s [] h = cc
has-split s (x ∷ xs) h = elim (Bool-cases (s == x)) [
  | inl e ↦ ([], xs, ground arith, ground arith)
  | inr e ↦
      let (ls, rs, p, q) = has-split s xs (ground arith) in
      (x ∷ ls, rs, ap (λ l. x ∷ l) p, rw e (ap (λ l. x ∷ l) q))
]

-- The two halves of a distinct list are distinct and have no element in common.
pub Distinct-split :
    (ls rs : List ℕ)
    → Distinct (ls ++ rs)
    → Distinct ls × Distinct rs × ((a : ℕ) → has a ls ≡ true → has a rs ≡ false)
Distinct-split [] rs d = (tt, d, λ a h. cc)
Distinct-split (x ∷ ls) rs d =
    let (l, r, apart) = Distinct-split ls rs d.1 in
    (
      (ground (arith, has-append x ls rs), l),
      r,
      λ a h. elim (Bool-cases (a == x)) [
        | inl e ↦ rw (==→eq a x e) (ground (arith, has-append x ls rs))
        | inr e ↦ apart a (ground arith)
      ],
    )

-- The writes of an append of `s` behind the last element `tail`.
abbrev pub append_next : (ℕ → ℕ) → ℕ → ℕ → ℕ → ℕ → ℕ
append_next next nil tail s =
    if tail == nil then update next s nil else update (update next s nil) tail s

-- The writes that take out an element with the neighbours `p` and `n`.
abbrev pub unlink_next : (ℕ → ℕ) → ℕ → ℕ → ℕ → ℕ → ℕ
unlink_next next nil p n = if p == nil then next else update next p n

abbrev pub unlink_prev : (ℕ → ℕ) → ℕ → ℕ → ℕ → ℕ → ℕ
unlink_prev prev nil p n = if n == nil then prev else update prev n p

module _ (next prev : ℕ → ℕ) (nil head : ℕ) where
  pub Seg-append_last :
      (xs : List ℕ) (s : ℕ)
      → Distinct xs
      → has nil xs ≡ false
      → has s xs ≡ false
      → Seg next prev nil head xs nil
      → let tail = last_or nil xs in
        Seg
          (append_next next nil tail s)
          (update prev s tail)
          nil
          (if tail == nil then s else head)
          (xs ++ s ∷ [])
          nil
  Seg-append_last [] s d nn ns sg = ground arith
  Seg-append_last (x ∷ xs) s d nn ns sg =
      let t = last_or x xs in
      let ne : (t == nil) ≡ false = ground (arith, has-last_or x xs) in
      subst
        (λ b.
          Seg (if b then update next s nil else update (update next s nil) t s) (update prev s t)
            nil (if b then s else head) (x ∷ xs ++ s ∷ []) nil)
        (sym ne)
        (Seg-join (update (update next s nil) t s) (update prev s t) nil head (x ∷ xs) (s ∷ []) s
          nil
          (Seg-next_last (update next s nil) (update prev s t) nil head x xs nil s d (
            Seg-frame next prev (update next s nil) (update prev s t) nil head (x ∷ xs) nil
              (λ a h. let out : (a == s) ≡ false = ground arith in (rw out refl, rw out refl)) sg))
          (refl, ground arith, ground (arith, has-last_or x xs)))

  -- The list after an unlink with the neighbours `p` and `n`; the tests for `nil` are arguments.
  abbrev Unlinked : ℕ → ℕ → ℕ → List ℕ → Bool → Bool → Type 0
  Unlinked p n tail xs first last =
      Seg (if first then next else update next p n) (if last then prev else update prev n p) nil
        (if first then n else head) xs nil
      × ((if last then p else tail) ≡ last_or nil xs)

  -- The four shapes of an unlink: alone, first, last, inside.
  Seg-unlink_split :
      (ls rs : List ℕ) (s : ℕ)
      → Distinct (ls ++ s ∷ rs)
      → has nil (ls ++ s ∷ rs) ≡ false
      → Seg next prev nil head (ls ++ s ∷ rs) nil
      → let p = last_or nil ls in
        let n = head_or nil rs in Unlinked p n (last_or s rs) (ls ++ rs) (p == nil) (n == nil)
  Seg-unlink_split [] [] s d nn sg =
      subst₂ (Unlinked nil nil s []) (sym (eq_refl nil)) (sym (eq_refl nil)) (refl, refl)
  Seg-unlink_split [] (r ∷ rs) s d nn sg =
      let ne : (r == nil) ≡ false = ground arith in
      subst₂ (Unlinked nil r (last_or r rs) (r ∷ rs)) (sym (eq_refl nil)) (sym ne)
        (Seg-prev_first next prev s nil r r rs nil d.1 (refl, sg.2.1, sg.2.2), refl)
  Seg-unlink_split (l ∷ ls) [] s d nn sg =
      let p = last_or l ls in
      let (left, mid) = Seg-split next prev nil head (l ∷ ls) (s ∷ []) nil sg in
      let (dl, dr, apart) = Distinct-split (l ∷ ls) (s ∷ []) d in
      let ne : (p == nil) ≡ false =
        ground (arith, has-last_or l ls, has-append nil (l ∷ ls) (s ∷ [])) in
      subst (λ zs. Unlinked p nil s zs (p == nil) (nil == nil)) (sym (append-nil (l ∷ ls)))
        (subst₂ (Unlinked p nil s (l ∷ ls)) (sym ne) (sym (eq_refl nil))
          (Seg-next_last next prev nil head l ls s nil dl left, refl))
  Seg-unlink_split (l ∷ ls) (r ∷ rs) s d nn sg =
      let p = last_or l ls in
      let (left, mid) = Seg-split next prev nil head (l ∷ ls) (s ∷ r ∷ rs) nil sg in
      let (dl, dr, apart) = Distinct-split (l ∷ ls) (s ∷ r ∷ rs) d in
      let ne : (p == nil) ≡ false =
        ground (arith, has-last_or l ls, has-append nil (l ∷ ls) (s ∷ r ∷ rs)) in
      let ne' : (r == nil) ≡ false = ground (arith, has-append nil (l ∷ ls) (s ∷ r ∷ rs)) in
      subst₂ (Unlinked p r (last_or r rs) (l ∷ ls ++ r ∷ rs)) (sym ne) (sym ne') (
        Seg-join (update next p r) (update prev r p) nil head (l ∷ ls) (r ∷ rs) r nil
            (Seg-frame (update next p r) prev (update next p r) (update prev r p) nil head (l ∷ ls)
              r
              (λ a h. (refl, let out : (a == r) ≡ false = ground (arith, apart a h) in rw out refl))
              (Seg-next_last next prev nil head l ls s r dl left))
            (Seg-frame next (update prev r p) (update next p r) (update prev r p) p r (r ∷ rs) nil
              (λ a h. (
                let out : (a == p) ≡ false = ground (arith, apart p (has-last_or l ls)) in
                    rw out refl,
                refl,
              ))
              (Seg-prev_first next prev s p r r rs nil dr.1 (refl, mid.2.1, mid.2.2))),
        sym (last_or-append_cons l ls rs r),
      )

  -- An unlink of `s` by its own links, whatever its place, leaves the list without `s`.
  pub Seg-unlink :
      (xs : List ℕ) (s tail : ℕ)
      → Distinct xs
      → has nil xs ≡ false
      → has s xs ≡ true
      → tail ≡ last_or nil xs
      → Seg next prev nil head xs nil
      → let p = prev s in
        let n = next s in
        Seg
          (unlink_next next nil p n)
          (unlink_prev prev nil p n)
          nil
          (if p == nil then n else head)
          (erase s xs)
          nil
        × ((if n == nil then p else tail) ≡ last_or nil (erase s xs))
  Seg-unlink xs s tail d nn h t sg =
      let (ls, rs, e, er) = has-split s xs h in
      let sg' = subst (λ l. Seg next prev nil head l nil) e sg in
      let (left, mid) = Seg-split next prev nil head ls (s ∷ rs) nil sg' in
      let (right, rest) = Seg-split next prev s (next s) [] rs nil mid.2 in
      let same_tail = t ∙ ap (last_or nil) e ∙ last_or-append_cons nil ls rs s in
      let done =
        Seg-unlink_split ls rs s (subst Distinct e d) (subst (λ l. has nil l ≡ false) e nn) sg' in
      subst (λ p. Unlinked p (next s) tail (erase s xs) (p == nil) (next s == nil)) (sym mid.1)
        (subst
          (λ n. Unlinked (last_or nil ls) n tail (erase s xs) (last_or nil ls == nil) (n == nil))
          (sym right)
          (subst₂
            (λ l z.
              Unlinked (last_or nil ls) (head_or nil rs) z l (last_or nil ls == nil)
                (head_or nil rs == nil))
            (sym er) (sym same_tail) done))
