-- ===== src/Gateway.antt =====
-- include/titan/net/tcp_gateway.hpp: the reassembly of orders from the byte stream of each
-- connection, and the push onto the inbound ring. What recv(2) returns is an argument, and so is
-- `decode`, the host's reading of the 40 bytes of an Order. The pushes are a list: `push` retries
-- until the ring takes the order.
pub mod Stream
pub mod Reassembly
pub mod Connection
mod Tests
use titan_hft.Common.{
  ℕ, zero, suc, ◌+◌, ◌-◌, ◌*◌, ◌/◌, ◌%◌, ◌^◌, ◌≤◌, ◌<◌, min, ◌≡◌, ◌≢◌, refl, sym, ap, ap₂, ◌∙◌,
  subst, subst₂, ◌↔◌, ◌⊎◌, inl, inr, Bool, true, false, not, ◌&&◌, ◌||◌, Option, none, some, List,
  [], ◌∷◌, ◌++◌, map, map-append, append-nil, append_assoc, arith, ltb, leb, ◌==◌, if◌then◌else◌,
  ==→eq, eq_refl, Bool-cases, Option-cases, update, length, get_elem?, take, drop, length-append,
  take-append-drop, length-take, length-drop, has, Distinct, erase, last_or, head_or, All,
  All-append, has-append, has-erase, has-erase_self, erase-Distinct, length-erase, append-Distinct,
  u32, u64, sub64, test_bit, set_bit, clear_bit, lowest_clear, popcount, test_bit-set_bit,
  test_bit-clear_bit, test_bit-zero, lowest_clear_lem, set_bit-lt, clear_bit-le, popcount-le,
  popcount-none, popcount-clear_bit, popcount-full_iff, popcount-eq-zero, ℤ, pos, negsuc, ◌≤ℤ◌,
  ◌<ℤ◌, leb_ℤ, ltb_ℤ, eqb_ℤ, cast_u64, eq_of_parts, eqb_ℤ→eq, eqb_ℤ_refl, Seg, Seg-frame, Seg-split,
  Seg-join, last_or-append, has-last_or, has-split, Distinct-split, append_next, unlink_next,
  unlink_prev, Seg-append_last, Seg-unlink,
}
use titan_hft.Domain.{Order, is_admissible}

-- sizeof(Order)
abbrev pub order_size : ℕ
order_size = 40

-- `pending` is the memory of an Order, of which the first `filled` bytes have arrived.
pub record Conn : Type 0 where
  pub pending : List ℕ
  pub filled : ℕ

pub record Gateway : Type 0 where
  pub conns : ℕ → Option Conn
  pub rejected : ℕ
  pub inbound : List Order

-- What a call of recv(2) returns.
pub data Recv : Type 0 where
  bytes : List ℕ → Recv  -- n > 0
  fin : Recv  -- n == 0
  again : Recv  -- EAGAIN, EWOULDBLOCK
  interrupted : Recv  -- EINTR
  failed : Recv

-- `memcpy(mem + off, src, length src)`
abbrev pub memcpy : List ℕ → ℕ → List ℕ → List ℕ
memcpy mem off src = take off mem ++ (src ++ drop (off + length src) mem)

-- An inadmissible order is counted, and forwarded all the same.
unfoldable pub push : Gateway → Order → Gateway
push g o = record g {
  rejected = if is_admissible o then g.rejected else u64 (g.rejected + 1);
  inbound = g.inbound ++ o ∷ [];
}

-- Step (3) of `parse_chunk`: the fragment goes into `pending`.
keep : Conn → List ℕ → Conn
keep c fragment =
    if ltb 0 (length fragment)
    then record { pending = memcpy c.pending 0 fragment; filled = length fragment }
    else c

-- Step (1): how many bytes the carried order takes, and the connection with them in `pending`.
taken_bytes : Conn → List ℕ → ℕ
taken_bytes c input =
    let need = order_size - c.filled in if ltb (length input) need then length input else need

complete : Conn → List ℕ → Conn
unfolding taken_bytes
complete c input = record {
  pending = memcpy c.pending c.filled (take (taken_bytes c input) input);
  filled = c.filled + taken_bytes c input;
}

unfoldable pub close_conn : Gateway → ℕ → Gateway
close_conn g fd = record g { conns = λ k. if k == fd then none else g.conns k }

module _ (decode : List ℕ → Order) where
  -- Steps (2) and (3) on the bytes from `off` on. The fuel is their number at least.
  parse_whole : ℕ → Gateway → Conn → List ℕ → Gateway × Conn
  unfolding keep
  parse_whole zero g c input = (g, keep c input)
  parse_whole (suc fuel) g c input =
      let more =
        parse_whole fuel (push g (decode (take order_size input))) c (drop order_size input) in
      if leb order_size (length input) then more else (g, keep c input)

  -- A chunk for a connection that carries a part of an order.
  parse_carried : Gateway → Conn → List ℕ → Gateway × Conn
  unfolding parse_whole complete
  parse_carried g c input =
      let c1 = complete c input in
      if ltb c1.filled order_size
      then (g, c1)
      else parse_whole (length input) (push g (decode c1.pending)) (record c1 { filled = 0 })
          (drop (taken_bytes c input) input)

  unfoldable pub parse_chunk : Gateway → Conn → List ℕ → Gateway × Conn
  unfolding parse_carried parse_whole
  parse_chunk g c input =
      if ltb 0 c.filled then parse_carried g c input else parse_whole (length input) g c input

  -- The loop of `handle_conn` over what recv(2) returns, call by call; the end of the list stands
  -- for EAGAIN. The connection lives in the map, and is written back.
  receive : Gateway → ℕ → Conn → List Recv → Gateway
  receive g fd c [] = record g { conns = λ k. if k == fd then some c else g.conns k }
  receive g fd c (bytes ds ∷ rs) = let (g', c') = parse_chunk g c ds in receive g' fd c' rs
  receive g fd c (fin ∷ rs) = close_conn g fd
  receive g fd c (again ∷ rs) = record g { conns = λ k. if k == fd then some c else g.conns k }
  receive g fd c (interrupted ∷ rs) = receive g fd c rs
  receive g fd c (failed ∷ rs) = close_conn g fd

  -- `hung_up` is EPOLLERR or EPOLLHUP among the events.
  unfoldable pub handle_conn : Gateway → ℕ → (hung_up : Bool) → List Recv → Gateway
  unfolding receive close_conn
  handle_conn g fd hung_up rs =
      if hung_up
      then close_conn g fd
      else elim (g.conns fd) [ none ↦ g | some c ↦ receive g fd c rs ]
