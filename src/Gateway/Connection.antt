-- ===== src/Gateway/Connection.antt =====
-- One readiness event of a connection: all that `handle_conn` does to the gateway, on every
-- sequence of results of recv(2).
use titan_hft.Common.{
  ℕ, ◌+◌, ◌^◌, ◌≤◌, ◌<◌, ◌≡◌, ◌≢◌, refl, sym, ap, ap₂, ◌∙◌, subst₂, inl, inr, Bool, true, false,
  Option, none, some, List, [], ◌∷◌, ◌++◌, map, map-append, append-nil, append_assoc, arith, ◌==◌,
  if◌then◌else◌, ==→eq, Bool-cases, length, length-append, length-take,
}
use titan_hft.Domain.{Order}
use titan_hft.Gateway.{
  order_size, Conn, Gateway, Recv, bytes, fin, again, interrupted, failed, push, parse_chunk,
  close_conn, receive, handle_conn,
}
use titan_hft.Gateway.Stream.{blocks, rest, blocks_fuel, blocks-append, blocks_lt, length-rest-le}
use titan_hft.Gateway.Reassembly.{
  carried, IsConn, stream_blocks, stream_rest, count_bad, push_all, orders_of, parse_chunk_lem,
}

-- The bytes that arrive before the event is drained or the connection ends.
abbrev pub payload : List Recv → List ℕ
payload [] = []
payload (bytes ds ∷ rs) = ds ++ payload rs
payload (interrupted ∷ rs) = payload rs
payload (fin ∷ rs) = []
payload (again ∷ rs) = []
payload (failed ∷ rs) = []

-- The event ends the connection.
abbrev pub closes : List Recv → Bool
closes [] = false
closes (bytes ds ∷ rs) = closes rs
closes (interrupted ∷ rs) = closes rs
closes (fin ∷ rs) = true
closes (again ∷ rs) = false
closes (failed ∷ rs) = true

stream-append :
    (xs ys : List ℕ)
    → (stream_blocks (xs ++ ys) ≡ stream_blocks xs ++ stream_blocks (stream_rest xs ++ ys))
      × (stream_rest (xs ++ ys) ≡ stream_rest (stream_rest xs ++ ys))
stream-append xs ys =
    let n = length (xs ++ ys) in
    let len = length-append xs ys in
    let (b, r) = blocks-append n xs ys (omega arith) in
    let (fb, fr) = blocks_fuel n (length xs) xs (omega (arith, len)) (omega arith) in
    let left = stream_rest xs ++ ys in
    let short : length left ≤ n =
      omega (arith, len, length-append (stream_rest xs) ys, length-rest-le (length xs) xs) in
    let (gb, gr) = blocks_fuel n (length left) left short (omega arith) in
    (b ∙ ap₂ ◌++◌ fb (ap (λ z. blocks n (z ++ ys)) fr ∙ gb), r ∙ ap (λ z. rest n (z ++ ys)) fr ∙ gr)

inbound-push_all : (g : Gateway) (os : List Order) → (push_all g os).inbound ≡ g.inbound ++ os
unfolding push
inbound-push_all g [] = sym (append-nil g.inbound)
inbound-push_all g (o ∷ os) = inbound-push_all (push g o) os ∙ append_assoc g.inbound (o ∷ []) os

conns-push_all : (g : Gateway) (os : List Order) → (push_all g os).conns ≡ g.conns
unfolding push
conns-push_all g [] = refl
conns-push_all g (o ∷ os) = conns-push_all (push g o) os

rejected-push_all :
    (g : Gateway) (os : List Order)
    → g.rejected + count_bad os < 2 ^ 64
    → (push_all g os).rejected ≡ g.rejected + count_bad os
unfolding push
rejected-push_all g [] h = omega arith
rejected-push_all g (o ∷ os) h = ground (arith, rejected-push_all (push g o) os)

count_bad-append : (os ps : List Order) → count_bad (os ++ ps) ≡ count_bad os + count_bad ps
count_bad-append [] ps = omega arith
count_bad-append (o ∷ os) ps = omega (arith, count_bad-append os ps)

-- What becomes of the connection after the bytes `xs` in all.
abbrev pub LeftOver : Bool → List ℕ → Option Conn → Type 0
LeftOver true xs o = o ≡ none
LeftOver false xs o = (c : Conn) × (o ≡ some c) × IsConn c × (carried c ≡ stream_rest xs)

LeftOver-cong :
    (cl : Bool) (us vs : List ℕ) (o : Option Conn)
    → stream_rest us ≡ stream_rest vs
    → LeftOver cl vs o
    → LeftOver cl us o
LeftOver-cong true us vs o e l = l
LeftOver-cong false us vs o e (c, s, v, q) = (c, s, v, q ∙ sym e)

frame :
    {f h : ℕ → Option Conn} {fd : ℕ}
    → ((k : ℕ) → k ≢ fd → h k ≡ f k)
    → (k : ℕ) → h k ≡ (if k == fd then h fd else f k)
frame {f} {h} {fd} others k = elim (Bool-cases (k == fd)) [
  | inl t ↦ rw (t, ==→eq k fd t) refl
  | inr e ↦ rw e (others k (λ q. ground arith))
]

module _ (decode : List ℕ → Order) where
  pub record Received (g : Gateway) (fd : ℕ) (xs : List ℕ) (closing : Bool) (g' : Gateway)
      : Type 0 where
    pub pushed : g'.inbound ≡ g.inbound ++ orders_of decode xs
    pub counted :
        g.rejected + count_bad (orders_of decode xs) < 2 ^ 64
        → g'.rejected ≡ g.rejected + count_bad (orders_of decode xs)
    pub others : (k : ℕ) → k ≢ fd → g'.conns k ≡ g.conns k
    pub left_over : LeftOver closing xs (g'.conns fd)

  -- A step of the loop: the whole orders of `xs` pushed, the rest carried on.
  Received-chain :
      (g g' : Gateway) (fd : ℕ) (xs ys : List ℕ) (closing : Bool)
      → Received (push_all g (orders_of decode xs)) fd (stream_rest xs ++ ys) closing g'
      → Received g fd (xs ++ ys) closing g'
  Received-chain g g' fd xs ys closing r =
      let (b, e) = stream-append xs ys in
      let os : orders_of decode (xs ++ ys)
          ≡ orders_of decode xs ++ orders_of decode (stream_rest xs ++ ys) =
        ap (map decode) b
        ∙ map-append decode (stream_blocks xs) (stream_blocks (stream_rest xs ++ ys)) in
      let left = orders_of decode (stream_rest xs ++ ys) in
      let bad = count_bad-append (orders_of decode xs) left in
      record {
        pushed =
            r.pushed
            ∙ ap (λ l. l ++ left) (inbound-push_all g (orders_of decode xs))
            ∙ append_assoc g.inbound (orders_of decode xs) left
            ∙ ap (λ l. g.inbound ++ l) (sym os);
        counted = rw os (λ h.
            let one = rejected-push_all g (orders_of decode xs) (omega (arith, bad)) in
            r.counted (omega (arith, one, bad)) ∙ omega (arith, one, bad));
        others = λ k ne. r.others k ne ∙ ap (λ f. f k) (conns-push_all g (orders_of decode xs));
        left_over =
            LeftOver-cong closing (xs ++ ys) (stream_rest xs ++ ys) (g'.conns fd) e r.left_over;
      }

  -- The end of the loop, with the fragment kept or dropped.
  drained :
      (g : Gateway) (fd : ℕ) (c : Conn)
      → IsConn c
      → Received g fd
          (carried c ++ [])
          false
          (record g { conns = λ k. if k == fd then some c else g.conns k })
  drained g fd c v =
      let short : length (carried c) < order_size =
        omega (arith, length-take c.filled c.pending, v.partial) in
      let (b, r) = blocks_lt (length (carried c)) (carried c) short in
      rw append-nil (record {
        pushed = rw b (sym (append-nil g.inbound));
        counted = rw b (λ h. omega arith);
        others = λ k ne. ground arith;
        left_over = (c, ground arith, v, sym r);
      })

  closed :
      (g : Gateway) (fd : ℕ) (c : Conn)
      → IsConn c
      → Received g fd (carried c ++ []) true (close_conn g fd)
  unfolding close_conn
  closed g fd c v =
      let short : length (carried c) < order_size =
        omega (arith, length-take c.filled c.pending, v.partial) in
      let (b, r) = blocks_lt (length (carried c)) (carried c) short in
      rw append-nil (record {
        pushed = rw b (sym (append-nil g.inbound));
        counted = rw b (λ h. omega arith);
        others = λ k ne. ground arith;
        left_over = ground arith;
      })

  receive_lem :
      (g : Gateway) (fd : ℕ) (c : Conn) (rs : List Recv)
      → IsConn c
      → Received g fd (carried c ++ payload rs) (closes rs) (receive decode g fd c rs)
  unfolding receive
  receive_lem g fd c [] v = drained g fd c v
  receive_lem g fd c (bytes ds ∷ rs) v =
      let (eg, ec, v1) = parse_chunk_lem decode g c ds v in
      let (g1, c1) = parse_chunk decode g c ds in
      let step = receive_lem g1 fd c1 rs v1 in
      rw (← append_assoc (carried c) ds (payload rs)) (
        Received-chain g (receive decode g1 fd c1 rs) fd (carried c ++ ds) (payload rs) (closes rs)
          (subst₂
            (λ h xs. Received h fd (xs ++ payload rs) (closes rs) (receive decode g1 fd c1 rs)) eg
            ec step))
  receive_lem g fd c (fin ∷ rs) v = closed g fd c v
  receive_lem g fd c (again ∷ rs) v = drained g fd c v
  receive_lem g fd c (interrupted ∷ rs) v = receive_lem g fd c rs v
  receive_lem g fd c (failed ∷ rs) v = closed g fd c v

  -- An event of a live connection without an error flag, whatever recv(2) returns and however it
  -- cuts the bytes: the gateway pushes just the whole orders of the carried bytes and the new
  -- ones, in order, counts the inadmissible ones (when the counter has room for them), touches
  -- no other connection, and either closes this one or keeps it with the bytes after the last order.
  pub handle_conn_lem :
      (g : Gateway) (fd : ℕ) (c : Conn) (rs : List Recv)
      → g.conns fd ≡ some c
      → IsConn c
      → g.rejected + count_bad (orders_of decode (carried c ++ payload rs)) < 2 ^ 64
      → let g' = handle_conn decode g fd false rs in
        let xs = carried c ++ payload rs in
        (g'.inbound ≡ g.inbound ++ orders_of decode xs)
        × (g'.rejected ≡ g.rejected + count_bad (orders_of decode xs))
        × ((k : ℕ) → g'.conns k ≡ (if k == fd then g'.conns fd else g.conns k))
        × LeftOver (closes rs) xs (g'.conns fd)
  unfolding handle_conn
  handle_conn_lem g fd c rs e v room =
      let r = receive_lem g fd c rs v in
      rw (e, handle_conn) (r.pushed, r.counted room, frame r.others, r.left_over)
