-- ===== src/Spsc/Refine.antt =====
-- The ring is a bounded FIFO queue of its in-flight items, whatever the two caches hold, as long
-- as fewer than 2^64 items have gone through it.
use titan_hft.Common.{
  ℕ, zero, suc, ◌+◌, ◌-◌, ◌%◌, ◌^◌, ◌≤◌, ◌<◌, ◌≡◌, refl, sym, ap, ap₂, ◌∙◌, ◌⊎◌, inl, inr, true,
  false, Option, none, some, List, [], ◌∷◌, ◌++◌, arith, ltb, ◌==◌, Bool-cases, update, length, u64,
  sub64,
}
use mathlib.Core.List.{foldl}
use titan_hft.Spsc.{Spsc, create, put, try_publish, try_consume, get, drain_from, consume_batch}
use titan_hft.Spsc.Window.{window, length-window, window-update_of_ge, window-append}

module _ {A : Type 0} (size : ℕ) where
  pub record IsValid (r : Spsc A) : Type 0 where
    pub pos : 0 < size
    pub small : size ≤ 2 ^ 63
    pub word : r.cursor < 2 ^ 64
    pub behind : r.next ≤ r.cursor
    pub fits : r.cursor ≤ r.next + size
    pub producer_cache : r.cached_consumer ≤ r.next
    pub consumer_cache : r.cached_cursor ≤ r.cursor

  -- The items in flight, oldest first.
  abbrev pub contents : Spsc A → List A
  contents r = window size r.slots r.next (r.cursor - r.next)

  pub create-IsValid : (storage : ℕ → A) → 0 < size → size ≤ 2 ^ 63 → IsValid (create size storage)
  unfolding create
  create-IsValid storage p s = omega arith

  pub length-contents : (r : Spsc A) → length (contents r) ≡ r.cursor - r.next
  length-contents r = length-window size r.slots r.next (r.cursor - r.next)

  contents-put :
      (r : Spsc A) (x : A)
      → IsValid r
      → r.cursor < r.next + size
      → window size (update r.slots (r.cursor % size) x) r.next (r.cursor + 1 - r.next)
        ≡ contents r ++ x ∷ []
  contents-put r x v h =
      let n = r.cursor - r.next in
      let e : r.cursor + 1 - r.next ≡ n + 1 = omega arith in
      let e' : r.next + n ≡ r.cursor = omega arith in
      rw (e, window-append size (update r.slots (r.cursor % size) x) r.next n 1)
        (ap₂ ◌++◌ (window-update_of_ge size r.slots r.next n r.cursor x (omega arith) h)
          (rw e' (ground arith)))

  put-IsValid :
      (r : Spsc A) (x : A)
      → IsValid r
      → r.cursor + 1 < 2 ^ 64
      → r.cursor < r.next + size
      → IsValid (put size r x) × (contents (put size r x) ≡ contents r ++ x ∷ [])
  unfolding put
  put-IsValid r x v w h =
      let e : u64 (r.cursor + 1) ≡ r.cursor + 1 = omega arith in
      (rw e (omega arith), rw e (contents-put r x v h))

  -- `try_publish` fails exactly on a full ring, which it leaves as it was; else it appends the
  -- item. A stale cache is refreshed before the ring counts as full.
  pub try_publish_refines :
      (r : Spsc A) (x : A)
      → IsValid r
      → r.cursor + 1 < 2 ^ 64
      → let (r', done) = try_publish size r x in
        IsValid r'
        × (((done ≡ true) × (length (contents r) < size) × (contents r' ≡ contents r ++ x ∷ []))
            ⊎ ((done ≡ false) × (length (contents r) ≡ size) × (contents r' ≡ contents r)))
  unfolding try_publish
  try_publish_refines r x v w =
      let refreshed = record r { cached_consumer = r.next } in
      let v1 : IsValid refreshed = omega arith in
      elim (Bool-cases (ltb (sub64 r.cursor r.cached_consumer) size)) [
        | inl e ↦
            let (pv, pc) = put-IsValid r x v w (ground arith) in
            rw e (pv, inl (refl, ground (arith, length-contents r), pc))
        | inr e ↦ elim (Bool-cases (ltb (sub64 r.cursor r.next) size)) [
          | inl e1 ↦
              let (pv, pc) = put-IsValid refreshed x v1 w (ground arith) in
              rw (e, e1) (pv, inl (refl, ground (arith, length-contents r), pc))
          | inr e1 ↦ rw (e, e1) (v1, inr (refl, ground (arith, length-contents r), refl))
        ]
      ]

  window_of_pos :
      (slots : ℕ → A) (i n : ℕ)
      → 0 < n
      → window size slots i n ≡ slots (i % size) ∷ window size slots (i + 1) (n - 1)
  window_of_pos slots i zero h = absurd (omega arith)
  window_of_pos slots i (suc n) h = ap (λ k. window size slots i (suc k)) (omega arith)

  -- What a consumer sees: nothing of an empty ring, else its oldest item, which is gone after.
  abbrev pub Consumed : Spsc A → Spsc A × Option A → Type 0
  Consumed r (r', none) = IsValid r' × (contents r ≡ []) × (contents r' ≡ [])
  Consumed r (r', some x) = IsValid r' × (contents r ≡ x ∷ contents r')

  get-Consumed : (r : Spsc A) → IsValid r → r.next < r.cursor → Consumed r (get size r)
  unfolding get
  get-Consumed r v h =
      let e : u64 (r.next + 1) ≡ r.next + 1 = omega arith in
      let k : r.cursor - r.next - 1 ≡ r.cursor - (r.next + 1) = omega arith in
      rw e (
        omega arith,
        window_of_pos r.slots r.next (r.cursor - r.next) (omega arith)
            ∙ ap (λ n. r.slots (r.next % size) ∷ window size r.slots (r.next + 1) n) k,
      )

  contents-nil : (r : Spsc A) → IsValid r → r.cursor ≤ r.next → contents r ≡ []
  contents-nil r v h = let e : r.cursor - r.next ≡ 0 = omega arith in rw e refl

  -- `try_consume` fails exactly on an empty ring; else it takes the oldest item.
  pub try_consume_refines : (r : Spsc A) → IsValid r → Consumed r (try_consume size r)
  unfolding try_consume
  try_consume_refines r v =
      let refreshed = record r { cached_cursor = r.cursor } in
      let v1 : IsValid refreshed = omega arith in
      elim (Bool-cases (ltb r.next r.cached_cursor)) [
        | inl e ↦ rw e (get-Consumed r v (ground arith))
        | inr e ↦ elim (Bool-cases (ltb r.next r.cursor)) [
          | inl e1 ↦ rw (e, e1) (get-Consumed refreshed v1 (ground arith))
          | inr e1 ↦
              rw (e, e1)
                (v1, contents-nil r v (ground arith), contents-nil refreshed v1 (ground arith))
        ]
      ]

  -- `n + 1` rounds of the drain loop fold the handler over the items.
  drain_from_lem :
      {S : Type 0} (fn : S → A → S) (slots : ℕ → A) (n seq : ℕ) (s : S)
      → seq + n < 2 ^ 64
      → drain_from size fn slots n seq s ≡ foldl fn s (window size slots seq (suc n))
  unfolding drain_from
  drain_from_lem fn slots zero seq s h = refl
  drain_from_lem fn slots (suc n) seq s h =
      let e : u64 (seq + 1) ≡ seq + 1 = omega arith in
      rw e (drain_from_lem fn slots n (seq + 1) (fn s (slots (seq % size))) (omega arith))

  -- `consume_batch` hands every item in flight to the handler, oldest first, empties the ring, and
  -- returns the number of items.
  pub consume_batch_refines :
      {S : Type 0} (fn : S → A → S) (s : S) (r : Spsc A)
      → IsValid r
      → let (r', s', n) = consume_batch size fn s r in
        IsValid r' × (s' ≡ foldl fn s (contents r)) × (n ≡ length (contents r)) × (contents r' ≡ [])
  unfolding consume_batch
  consume_batch_refines fn s r v = elim (Bool-cases (r.next == r.cursor)) [
    | inl e ↦
        let none_left = contents-nil r v (ground arith) in rw (e, none_left) (v, refl, refl, refl)
    | inr e ↦
        let d : sub64 r.cursor r.next ≡ r.cursor - r.next = omega arith in
        let k : suc (r.cursor - r.next - 1) ≡ r.cursor - r.next = ground arith in
        let drained = record r { cached_cursor = r.cursor; next = r.cursor } in
        let v1 : IsValid drained = omega arith in
        rw (e, d)
          (
            v1,
            drain_from_lem fn r.slots (r.cursor - r.next - 1) r.next s (omega arith)
                ∙ ap (λ m. foldl fn s (window size r.slots r.next m)) k,
            sym (length-contents r),
            contents-nil drained v1 (omega arith),
          )
  ]
