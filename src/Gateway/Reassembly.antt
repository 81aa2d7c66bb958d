-- ===== src/Gateway/Reassembly.antt =====
-- Whatever chunks a connection's bytes arrive in, the gateway pushes the orders of the stream.
use titan_hft.Common.{
  ℕ, zero, suc, ◌+◌, ◌-◌, ◌≤◌, ◌<◌, ◌≡◌, refl, sym, ap, ◌∙◌, subst, subst₂, inl, inr, true, false,
  List, [], ◌∷◌, ◌++◌, map, append-nil, append_assoc, arith, ltb, leb, if◌then◌else◌, Bool-cases,
  length, take, drop, length-append, length-take, length-drop,
}
use native.Mathlib.Decide.{dec_lt}
use titan_hft.Domain.{Order, is_admissible}
use titan_hft.Gateway.{
  order_size, Conn, Gateway, memcpy, push, keep, parse_whole, taken_bytes, complete, parse_carried,
  parse_chunk,
}
use titan_hft.Gateway.Stream.{blocks, rest, blocks_fuel, blocks_lt, blocks_ge, take-append-le}

-- The bytes of an order that is still incomplete.
abbrev pub carried : Conn → List ℕ
carried c = take c.filled c.pending

pub record IsConn (c : Conn) : Type 0 where
  pub memory : length c.pending ≡ order_size
  pub partial : c.filled < order_size

-- The whole orders of a stream, and the bytes after the last one.
abbrev pub stream_blocks : List ℕ → List (List ℕ)
stream_blocks xs = blocks (length xs) xs

abbrev pub stream_rest : List ℕ → List ℕ
stream_rest xs = rest (length xs) xs

-- The orders that a push counts as inadmissible.
abbrev pub count_bad : List Order → ℕ
count_bad [] = 0
count_bad (o ∷ os) = (if is_admissible o then 0 else 1) + count_bad os

abbrev pub push_all : Gateway → List Order → Gateway
push_all g [] = g
push_all g (o ∷ os) = push_all (push g o) os

pub push_all-append :
    (g : Gateway) (os ps : List Order) → push_all g (os ++ ps) ≡ push_all (push_all g os) ps
push_all-append g [] ps = refl
push_all-append g (o ∷ os) ps = push_all-append (push g o) os ps

take_all : (xs : List ℕ) → take (length xs) xs ≡ xs
take_all [] = refl
take_all (x ∷ xs) = ap (λ l. x ∷ l) (take_all xs)

take-append-length : (xs ys : List ℕ) → take (length xs) (xs ++ ys) ≡ xs
take-append-length xs ys = take-append-le (length xs) xs ys (omega arith) ∙ take_all xs

length-memcpy :
    (mem src : List ℕ) (off : ℕ)
    → off + length src ≤ length mem
    → length (memcpy mem off src) ≡ length mem
length-memcpy mem src off h = omega (
  arith,
  length-append (take off mem) (src ++ drop (off + length src) mem),
  length-append src (drop (off + length src) mem),
  length-take off mem,
  length-drop (off + length src) mem,
)

-- After a copy behind the first `off` bytes the memory starts with those and the copied ones.
take-memcpy :
    (mem src : List ℕ) (off : ℕ)
    → off + length src ≤ length mem
    → take (off + length src) (memcpy mem off src) ≡ take off mem ++ src
take-memcpy mem src off h =
    let front = take off mem ++ src in
    let len : length front ≡ off + length src =
      omega (arith, length-append (take off mem) src, length-take off mem) in
    ap (λ k. take k (memcpy mem off src)) (sym len)
    ∙ ap (take (length front)) (sym (append_assoc (take off mem) src (drop (off + length src) mem)))
    ∙ take-append-length front (drop (off + length src) mem)

take-append-add : (xs ys : List ℕ) (n : ℕ) → take (length xs + n) (xs ++ ys) ≡ xs ++ take n ys
take-append-add [] ys n = let e : 0 + n ≡ n = omega arith in rw e refl
take-append-add (x ∷ xs) ys n =
    let e : suc (length xs) + n ≡ suc (length xs + n) = omega arith in
    rw e (ap (λ l. x ∷ l) (take-append-add xs ys n))

drop-append-add : (xs ys : List ℕ) (n : ℕ) → drop (length xs + n) (xs ++ ys) ≡ drop n ys
drop-append-add [] ys n = let e : 0 + n ≡ n = omega arith in rw e refl
drop-append-add (x ∷ xs) ys n =
    let e : suc (length xs) + n ≡ suc (length xs + n) = omega arith in
    rw e (drop-append-add xs ys n)

drop_all : (n : ℕ) (xs : List ℕ) → length xs ≤ n → drop n xs ≡ []
drop_all zero [] h = refl
drop_all zero (x ∷ xs) h = absurd (omega arith)
drop_all (suc n) [] h = refl
drop_all (suc n) (x ∷ xs) h = drop_all n xs (omega arith)

length-carried : (c : Conn) → IsConn c → length (carried c) ≡ c.filled
length-carried c v = omega (arith, length-take c.filled c.pending, v.memory, v.partial)

module _ (decode : List ℕ → Order) where
  abbrev pub orders_of : List ℕ → List Order
  orders_of xs = map decode (stream_blocks xs)

  keep-IsConn :
      (c : Conn) (xs : List ℕ)
      → length xs < order_size
      → length c.pending ≡ order_size
      → c.filled ≡ 0
      → (carried (keep c xs) ≡ xs) × IsConn (keep c xs)
  unfolding keep
  keep-IsConn c [] h m z = (rw z refl, record { memory = m; partial = omega arith })
  keep-IsConn c (x ∷ xs) h m z =
      let e : ltb 0 (suc (length xs)) ≡ true = ground arith in
      let k : 0 + suc (length xs) ≡ suc (length xs) = omega arith in
      rw e (
        subst (λ n. take n (memcpy c.pending 0 (x ∷ xs)) ≡ x ∷ xs) k
            (take-memcpy c.pending (x ∷ xs) 0 (omega arith)),
        record { memory = length-memcpy c.pending (x ∷ xs) 0 (omega arith) ∙ m; partial = h },
      )

  -- What the gateway and the connection are after the bytes `xs` with nothing carried.
  abbrev pub Parsed : Gateway → List (List ℕ) → List ℕ → Gateway × Conn → Type 0
  Parsed g bs left (g', c') = (g' ≡ push_all g (map decode bs)) × (carried c' ≡ left) × IsConn c'

  parse_whole_lem :
      (fuel : ℕ) (g : Gateway) (c : Conn) (xs : List ℕ)
      → length xs ≤ fuel
      → length c.pending ≡ order_size
      → c.filled ≡ 0
      → Parsed g (blocks fuel xs) (rest fuel xs) (parse_whole decode fuel g c xs)
  unfolding parse_whole
  parse_whole_lem zero g c xs h m z =
      let (b, r) = blocks_lt 0 xs (omega arith) in
      let (k, v) = keep-IsConn c xs (omega arith) m z in rw (b, r) (refl, k, v)
  parse_whole_lem (suc fuel) g c xs h m z = elim (Bool-cases (leb order_size (length xs))) [
    | inl e ↦
        let (b, r) = blocks_ge fuel xs (ground arith) in
        rw (e, b, r)
          (parse_whole_lem fuel (push g (decode (take order_size xs))) c (drop order_size xs)
            (ground (arith, length-drop order_size xs)) m z)
    | inr e ↦
        let (b, r) = blocks_lt (suc fuel) xs (ground arith) in
        let (k, v) = keep-IsConn c xs (ground arith) m z in rw (e, b, r) (refl, k, v)
  ]

  -- The carried order and a chunk that completes it.
  completed :
      (c : Conn) (input : List ℕ)
      → IsConn c
      → order_size ≤ c.filled + length input
      → let xs = carried c ++ input in
        ((complete c input).filled ≡ order_size)
        × ((complete c input).pending ≡ take order_size xs)
        × (drop (taken_bytes c input) input ≡ drop order_size xs)
        × (taken_bytes c input ≡ order_size - c.filled)
  unfolding complete taken_bytes
  completed c input v h =
      let need = order_size - c.filled in
      let e : (if ltb (length input) need then length input else need) ≡ need = ground arith in
      let len = length-carried c v in
      let full : length (carried c) + need ≡ order_size = omega (arith, len, v.partial) in
      let sum : c.filled + need ≡ order_size = omega (arith, v.partial) in
      let src = take need input in
      let all_used : c.filled + length src ≡ order_size =
        omega (arith, length-take need input, v.partial) in
      rw e (
        sum,
        ap (λ n. carried c ++ (src ++ drop n c.pending)) all_used
            ∙ ap (λ l. carried c ++ (src ++ l))
                (drop_all order_size c.pending (omega (arith, v.memory)))
            ∙ ap (λ l. carried c ++ l) (append-nil src)
            ∙ sym (take-append-add (carried c) input need)
            ∙ ap (λ n. take n (carried c ++ input)) full,
        sym (drop-append-add (carried c) input need) ∙ ap (λ n. drop n (carried c ++ input)) full,
        refl,
      )

  -- A chunk that does not complete the carried order.
  uncompleted :
      (c : Conn) (input : List ℕ)
      → IsConn c
      → c.filled + length input < order_size
      → (carried (complete c input) ≡ carried c ++ input)
        × IsConn (complete c input)
        × ((complete c input).filled ≡ c.filled + length input)
  unfolding complete taken_bytes
  uncompleted c input v h =
      let need = order_size - c.filled in
      let e : (if ltb (length input) need then length input else need) ≡ length input =
        ground arith in
      rw (e, take_all input)
        (
          take-memcpy c.pending input c.filled (omega (arith, v.memory)),
          record {
            memory = length-memcpy c.pending input c.filled (omega (arith, v.memory)) ∙ v.memory;
            partial = h;
          },
          refl,
        )

  parse_carried_lem :
      (g : Gateway) (c : Conn) (input : List ℕ)
      → IsConn c
      → let xs = carried c ++ input in
        Parsed g (stream_blocks xs) (stream_rest xs) (parse_carried decode g c input)
  unfolding parse_carried
  parse_carried_lem g c input v = elim (dec_lt (c.filled + length input) order_size) [
    | yes lt ↦
        let (same, ok, f) = uncompleted c input v lt in
        let short : length (carried c ++ input) < order_size =
          omega (arith, length-append (carried c) input, length-carried c v) in
        let (b, r) = blocks_lt (length (carried c ++ input)) (carried c ++ input) short in
        let e : ltb (complete c input).filled order_size ≡ true = ground (arith, f) in
        rw (e, b, r) (refl, same, ok)
    | no ge ↦
        let (f, whole, left, _) = completed c input v (omega arith) in
        let xs = carried c ++ input in
        let len : length xs ≡ c.filled + length input =
          omega (arith, length-append (carried c) input, length-carried c v) in
        let e : ltb (complete c input).filled order_size ≡ false = ground (arith, f) in
        let k = length xs - 1 in
        let s : length xs ≡ suc k = omega (arith, len) in
        let (b, r) = blocks_ge k xs (omega (arith, len)) in
        let mem : length (complete c input).pending ≡ order_size =
          ap length whole ∙ omega (arith, length-take order_size xs, len) in
        let bound : length (drop order_size xs) ≤ length input =
          omega (arith, length-drop order_size xs, len, v.partial) in
        let (fb, fr) =
          blocks_fuel k (length input) (drop order_size xs)
            (omega (arith, length-drop order_size xs, len, v.partial)) bound in
        let g1 = push g (decode (take order_size xs)) in
        let c1 = record (complete c input) { filled = 0 } in
        let done = parse_whole_lem (length input) g1 c1 (drop order_size xs) bound mem refl in
        let (eg, ec, ev) =
          subst
            (λ z.
              Parsed g1 (blocks k (drop order_size xs)) (rest k (drop order_size xs))
                (parse_whole decode (length input) g1 c1 z))
            (sym left)
            (subst₂
              (λ x y. Parsed g1 x y (parse_whole decode (length input) g1 c1 (drop order_size xs)))
              (sym fb) (sym fr) done) in
        let bs : stream_blocks xs ≡ take order_size xs ∷ blocks k (drop order_size xs) =
          ap (λ n. blocks n xs) s ∙ b in
        let rs : stream_rest xs ≡ rest k (drop order_size xs) = ap (λ n. rest n xs) s ∙ r in
        rw e (
          subst₂
            (λ z w. Parsed g z w (
              parse_whole decode (length input) (push g (decode (complete c input).pending)) c1
                (drop (taken_bytes c input) input)))
            (sym bs) (sym rs)
            (subst
              (λ m.
                Parsed g (take order_size xs ∷ blocks k (drop order_size xs))
                  (rest k (drop order_size xs))
                  (parse_whole decode (length input) (push g (decode m)) c1
                    (drop (taken_bytes c input) input)))
              (sym whole) (eg, ec, ev)))
  ]

  -- One chunk: the gateway pushes the whole orders of what was carried and the chunk, in order,
  -- and carries the bytes after the last one.
  pub parse_chunk_lem :
      (g : Gateway) (c : Conn) (input : List ℕ)
      → IsConn c
      → let xs = carried c ++ input in
        Parsed g (stream_blocks xs) (stream_rest xs) (parse_chunk decode g c input)
  unfolding parse_chunk
  parse_chunk_lem g c input v = elim (Bool-cases (ltb 0 c.filled)) [
    | inr e ↦
        let z : c.filled ≡ 0 = ground arith in
        rw e (
          subst
            (λ k.
              let xs = take k c.pending ++ input in
              Parsed g (stream_blocks xs) (stream_rest xs)
                (parse_whole decode (length input) g c input))
            (sym z) (parse_whole_lem (length input) g c input (omega arith) v.memory z))
    | inl e ↦ rw e (parse_carried_lem g c input v)
  ]
