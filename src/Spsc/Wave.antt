-- ===== src/Spsc/Wave.antt =====
-- One wave of `publish_batch`: the one or two copy runs put the items behind the window in order.
use titan_hft.Common.{
  ℕ, zero, suc, ◌+◌, ◌-◌, ◌%◌, ◌^◌, ◌≤◌, ◌<◌, ◌≡◌, refl, sym, ap, ap₂, ◌∙◌, ◌⊎◌, inl, inr, List, [],
  ◌∷◌, ◌++◌, append-nil, append_assoc, arith, ltb, leb, if◌then◌else◌, Bool-cases, update, length,
  take, drop, u64, sub64,
}
use native.Mathlib.Nat.{mod-lt, mod-eq_of_lt, mod-add-mod, add-mod_right}
use titan_hft.Spsc.{Spsc, copy, refresh, wave_size, send, publish_wave}
use titan_hft.Spsc.Window.{window, window-update_of_ge, window-append}
use titan_hft.Spsc.Refine.{IsValid, contents, length-contents}

module _ {A : Type 0} (size : ℕ) where
  -- The same writes at consecutive positions, each wrapped on its own.
  put_all : (ℕ → A) → (p n : ℕ) → List A → ℕ → A
  put_all slots p zero items = slots
  put_all slots p (suc n) [] = slots
  put_all slots p (suc n) (x ∷ xs) = put_all (update slots (p % size) x) (p + 1) n xs

  copy-eq-put_all :
      (slots : ℕ → A) (p n : ℕ) (items : List A)
      → p % size + n ≤ size
      → copy size slots (p % size) n items ≡ put_all slots p n items
  unfolding copy put_all
  copy-eq-put_all slots p zero items h = refl
  copy-eq-put_all slots p (suc n) [] h = refl
  copy-eq-put_all slots p (suc zero) (x ∷ xs) h = refl
  copy-eq-put_all slots p (suc (suc n)) (x ∷ xs) h =
      let e : p % size + 1 ≡ (p + 1) % size =
        sym (mod-eq_of_lt {n = p % size + 1} {m = size} (omega arith)) ∙ mod-add-mod p size 1 in
      ap (λ b. copy size (update slots (p % size) x) b (suc n) xs) e
      ∙ copy-eq-put_all (update slots (p % size) x) (p + 1) (suc n) xs (omega (arith, e))

  put_all-add :
      (slots : ℕ → A) (p m n : ℕ) (items : List A)
      → m ≤ length items
      → put_all slots p (m + n) items ≡ put_all (put_all slots p m items) (p + m) n (drop m items)
  unfolding put_all
  put_all-add slots p zero n items h =
      let a : 0 + n ≡ n = omega arith in let b : p + 0 ≡ p = omega arith in rw (a, b) refl
  put_all-add slots p (suc m) n [] h = absurd (omega arith)
  put_all-add slots p (suc m) n (x ∷ xs) h =
      let a : suc m + n ≡ suc (m + n) = omega arith in
      let b : p + suc m ≡ p + 1 + m = omega arith in
      rw (a, b) (put_all-add (update slots (p % size) x) (p + 1) m n xs (omega arith))

  window-put_all :
      (slots : ℕ → A) (i m n p : ℕ) (items : List A)
      → i + m ≡ p
      → p + n ≤ i + size
      → n ≤ length items
      → window size (put_all slots p n items) i (m + n) ≡ window size slots i m ++ take n items
  unfolding put_all
  window-put_all slots i m zero p items e f l =
      let a : m + 0 ≡ m = omega arith in rw a (sym (append-nil (window size slots i m)))
  window-put_all slots i m (suc n) p [] e f l = absurd (omega arith)
  window-put_all slots i m (suc n) p (x ∷ xs) e f l =
      let a : m + suc n ≡ m + 1 + n = omega arith in
      let s = update slots (p % size) x in
      let here : s (p % size) ≡ x = ground arith in
      rw a (
        window-put_all s i (m + 1) n (p + 1) xs (omega arith) (omega arith) (omega arith)
        ∙ ap (λ l. l ++ take n xs)
            (window-append size s i m 1
              ∙ ap₂ ◌++◌ (window-update_of_ge size slots i m p x (omega arith) (omega arith))
                  (rw e (ap (λ y. y ∷ []) here)))
        ∙ append_assoc (window size slots i m) (x ∷ []) (take n xs))

  -- The two runs of a wave: up to the end of the array, and from its start.
  two_runs :
      (slots : ℕ → A) (p n : ℕ) (items : List A)
      → 0 < size
      → n ≤ size
      → n ≤ length items
      → let base = p % size in
        let first = if leb (base + n) size then n else size - base in
        copy size (copy size slots base first items) 0 (n - first) (drop first items)
        ≡ put_all slots p n items
  two_runs slots p n items z h l = elim (Bool-cases (leb (p % size + n) size)) [
    | inl e ↦
        let none_left : n - n ≡ 0 = omega arith in
        rw (e, none_left) (unfold copy in (copy-eq-put_all slots p n items (ground arith)))
    | inr e ↦
        let first = size - p % size in
        let lt = mod-lt p z in
        let split : n ≡ first + (n - first) = ground arith in
        let wrap : 0 ≡ (p + first) % size =
          sym (mod-eq_of_lt z ∙ refl)
          ∙ sym (add-mod_right 0 size)
          ∙ ap (λ k. k % size) (omega (arith, lt))
          ∙ mod-add-mod p size first in
        rw e (
          ap (λ s. copy size s 0 (n - first) (drop first items))
            (copy-eq-put_all slots p first items (omega (arith, lt)))
          ∙ ap (λ b. copy size (put_all slots p first items) b (n - first) (drop first items)) wrap
          ∙ copy-eq-put_all (put_all slots p first items) (p + first) (n - first) (drop first items)
              (rw (← wrap) (omega (arith, lt)))
          ∙ sym (put_all-add slots p first (n - first) items (ground arith))
          ∙ ap (λ k. put_all slots p k items) (sym split))
  ]

  refresh-IsValid :
      (r : Spsc A)
      → IsValid size r
      → let q = refresh size r in
        IsValid size q
        × (q.cursor ≡ r.cursor)
        × (q.next ≡ r.next)
        × (q.slots ≡ r.slots)
        × (q.cursor < r.next + size → q.cursor < q.cached_consumer + size)
  unfolding refresh
  refresh-IsValid r v = elim (Bool-cases (ltb (sub64 r.cursor r.cached_consumer) size)) [
    | inl e ↦ rw e (v, refl, refl, refl, ground arith)
    | inr e ↦ rw e (omega arith, refl, refl, refl, λ h. h)
  ]

  wave_size_bounds :
      (r : Spsc A) (items : List A)
      → IsValid size r
      → let n = wave_size size r items in
        (n ≤ length items)
        × (r.cursor + n ≤ r.next + size)
        × (r.cursor < r.cached_consumer + size → 0 < length items → 0 < n)
  unfolding wave_size
  wave_size_bounds r items v = ground arith

  send-IsValid :
      (r : Spsc A) (items : List A) (n : ℕ)
      → IsValid size r
      → n ≤ length items
      → r.cursor + n ≤ r.next + size
      → r.cursor + n < 2 ^ 64
      → IsValid size (send size r items n)
        × (contents size (send size r items n) ≡ contents size r ++ take n items)
  unfolding send
  send-IsValid r items n v l f w =
      let e : u64 (r.cursor + n) ≡ r.cursor + n = omega arith in
      let k : r.cursor + n - r.next ≡ r.cursor - r.next + n = omega arith in
      rw e (
        omega arith,
        ap (λ s. window size s r.next (r.cursor + n - r.next))
              (two_runs r.slots r.cursor n items v.pos (omega arith) l)
            ∙ ap (window size (put_all r.slots r.cursor n items) r.next) k
            ∙ window-put_all r.slots r.next (r.cursor - r.next) n r.cursor items (omega arith) f l,
      )

  -- A wave takes as many of the items as the producer knows room for, at least one if the ring is
  -- not full and an item is left, and appends just those, in order.
  pub publish_wave_refines :
      (r : Spsc A) (items : List A)
      → IsValid size r
      → r.cursor + length items < 2 ^ 64
      → let (r', n) = publish_wave size r items in
        IsValid size r'
        × (n ≤ length items)
        × ((0 < n) ⊎ ((length items ≡ 0) ⊎ (length (contents size r) ≡ size)))
        × (contents size r' ≡ contents size r ++ take n items)
  unfolding publish_wave
  publish_wave_refines r items v w =
      let q = refresh size r in
      let (qv, ec, en, es, room) = refresh-IsValid r v in
      let (le, fits, some_room) = wave_size_bounds q items qv in
      let n = wave_size size q items in
      let (sv, sc) = send-IsValid q items n qv le fits (omega arith) in
      let same : contents size q ≡ contents size r = rw (es, en, ec) refl in
      (
        sv,
        le,
        elim (Bool-cases (ltb 0 (length items))) [
          | inr e ↦ inr (inl (ground arith))
          | inl e ↦ elim (Bool-cases (ltb (length (contents size r)) size)) [
            | inr f ↦ inr (inr (ground (arith, length-contents size r, v.behind)))
            | inl f ↦
                inl (
                  some_room (room (ground (arith, length-contents size r, v.behind)))
                    (ground arith))
          ]
        ],
        sc ∙ ap (λ l. l ++ take n items) same,
      )
