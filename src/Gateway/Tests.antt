-- ===== src/Gateway/Tests.antt =====
-- A connection that carries ten bytes and receives eighty-five more, in three reads.
use titan_hft.Common.{
  ℕ, zero, suc, ◌+◌, ◌≡◌, refl, false, none, some, List, [], ◌∷◌, ◌++◌, arith, ◌==◌, if◌then◌else◌,
  drop, head_or, pos,
}
use titan_hft.Domain.{Order, Side, OrderType, is_admissible}
use titan_hft.Gateway.Stream.{blocks}
use titan_hft.Gateway.{Conn, Gateway, Recv, bytes, again, interrupted, parse_chunk, handle_conn}
use titan_hft.Gateway.Reassembly.{
  carried, IsConn, stream_blocks, stream_rest, count_bad, orders_of, Parsed, parse_chunk_lem,
}
use titan_hft.Gateway.Connection.{payload, closes, LeftOver, handle_conn_lem}

abbrev repeat : ℕ → ℕ → List ℕ
repeat zero x = []
repeat (suc n) x = x ∷ repeat n x

-- The bytes of an order whose id and price fit in a byte.
abbrev decode : List ℕ → Order
decode bs = record {
  id = head_or 0 bs;
  seq = 0;
  price = pos (head_or 0 (drop 16 bs));
  quantity = 1;
  remaining = 1;
  side = Side.buy;
  type = OrderType.limit;
}

abbrev ten : Conn
ten = record { pending = repeat 10 7 ++ repeat 30 0; filled = 10 }

ten-IsConn : IsConn ten
ten-IsConn = record { memory = refl; partial = omega arith }

abbrev gateway : Gateway
gateway = record { conns = λ fd. if fd == 5 then some ten else none; rejected = 3; inbound = [] }

abbrev reads : List Recv
reads = bytes (repeat 20 8) ∷ interrupted ∷ bytes (repeat 50 0) ∷ bytes (repeat 15 9) ∷ again ∷ []

parse_chunk_lem_example :
    let xs = carried ten ++ repeat 50 8 in
    Parsed decode gateway
      (stream_blocks xs)
      (stream_rest xs)
      (parse_chunk decode gateway ten (repeat 50 8))
parse_chunk_lem_example = parse_chunk_lem decode gateway ten (repeat 50 8) ten-IsConn

one_bad : count_bad (orders_of decode (carried ten ++ payload reads)) ≡ 1
unfolding blocks is_admissible
one_bad = refl

handle_conn_lem_example :
    let g' = handle_conn decode gateway 5 false reads in
    let xs = carried ten ++ payload reads in
    (g'.inbound ≡ [] ++ orders_of decode xs)
    × (g'.rejected ≡ 3 + count_bad (orders_of decode xs))
    × ((k : ℕ) → g'.conns k ≡ (if k == 5 then g'.conns 5 else gateway.conns k))
    × LeftOver (closes reads) xs (g'.conns 5)
handle_conn_lem_example =
    handle_conn_lem decode gateway 5 ten reads refl ten-IsConn (omega (arith, one_bad))
