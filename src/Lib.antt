-- ===== src/Lib.antt =====
-- Titan-HFT, a single-symbol matching server: gateways read orders from TCP connections, the
-- sequencer stamps and journals them, the matcher crosses them on the order book, and the trades
-- leave over UDP. Rings connect the stages:
--   TcpGateway -> MpscRing -> Sequencer (and the log) -> SpscRing -> Matcher -> SpscRing -> publisher.
--
-- The files, and the code that each is about (paths from the repository's root):
--   Domain       include/titan/domain/types.hpp, book/order.hpp, book/trade_event.hpp
--   PinNode      include/titan/book/pin_node.hpp; Fifo is its invariant, Refine its operations
--                against a bounded queue, Lookup what `at` finds
--   Book.Level   include/titan/book/price_level.hpp
--   Book.Index   the container interface that the template parameters BidMapT and AskMapT stand for;
--                Listing is what the matcher relies on of it
--   Book.RbIndex include/titan/book/rb_price_index.hpp, which fills that interface;
--                Links and Listed show it to be a sequence, Validate runs the code's own checks
--   Book.Pool, Book.OrderBook   include/titan/book/order_book.hpp: the node pool with the id slab;
--                add, cancel and the best levels
--   Book.Matcher include/titan/book/matcher.hpp; Sweep is sweep_level, Fill a round of it;
--                Priority has price-time priority as functions of the quotes, and below it Sweep, Cross
--                and Submit take sweep_level, cross and submit against them
--   Book.Queue   a level as a queue of orders in a chain of nodes of the pool; Front is front_node,
--                Release free_level_nodes
--   Spsc         include/titan/pipeline/spsc_ring.hpp; Refine and Wave take each operation against
--                a bounded queue, Trace sequences of calls
--   Gateway      include/titan/net/tcp_gateway.hpp: parse_chunk and handle_conn; Stream cuts a
--                byte stream into orders, Reassembly and Connection compare the code with it
--   Journal      include/titan/io/journaler.hpp; Records is the log as a list, Flush the calls of msync,
--                Written a log from its creation on
--   Sequencer    include/titan/pipeline/sequencer.hpp; Stamp, Cadence and Replay
--   Book.Snapshot  serialize_l2 of include/titan/book/order_book.hpp
--   SnapshotPool include/titan/book/snapshot.hpp; Claim is the exclusion of writer and reader,
--                Reserve the search for a free slot
--   Mpsc         include/titan/pipeline/mpsc_ring.hpp, as moves of any number of producers;
--                Invariant and Exclusion keep the threads off each other's cells
--   Udp          include/titan/net/udp_publisher.hpp: publish and send_raw; Datagrams is what publish
--                does with a batch
--   Server       src/main.cpp: the egress sink and the publisher's batches; Cascade is the shutdown
--                as moves of the threads, Drain, Phase and Shutdown are about what it keeps
--   Bot          bots/market_maker.cpp: the market-making client; Cycle is a round of its loop, Feed
--                what the feeds do to it, Halt its circuit breaker, Tidy and Quotes its live orders
--   Common       helpers: Boolean tests, lists, machine words, signed numbers, linked lists in arrays
--
-- State is passed explicitly. A pointer or an index into a vector is a number, an array a function
-- of its index, an unsigned word a natural number with its wrap-around written out, and int64_t the
-- integers: the engine compares prices and does no arithmetic on them but conversions, and the bot
-- adds those that its feeds bring, unchecked, which the model follows only while the sums stay
-- within int64_t. A null pointer or an exception is a value.
-- An iterator of a price index is its node number, and a write through it is `set_level`.
--
-- Loops that the data does not bound run on fuel. Of the loops of the Matcher and of
-- free_level_nodes `none` means that the fuel ran out; the bounds are the nodes of the pool for a
-- chain of nodes, the live orders for a sweep and the levels for a crossing. The descents and the
-- rebalancing of the Red-Black tree have the size of the tree as fuel: on a tree a path visits a
-- node at most once. parse_chunk has the length of the input.
--
-- A spin on a full ring is modelled by its end: the item has been taken. In Spsc itself a refused
-- item and a wave that takes nothing are seen.
--
-- That the Red-Black index lists prices best first and that its fuel is enough is not proved here; the
-- matcher's theorems go by the order in which an index lists its levels.
--
-- Not modelled: sockets, epoll, signals and memory orders; the setup of the UDP publisher; the
-- snapshot thread of src/main.cpp; the telemetry of the bot; the arena, a wrapper of a library class;
-- the prefetch hints of the book. What recv(2) and sendto(2) return, the outcome of the bot's sends
-- and its double arithmetic, the reading of an order's bytes (`decode`), the first contents of memory
-- and files, and the page size are arguments.
pub mod Common
pub mod Domain
pub mod PinNode
pub mod Book
pub mod Spsc
pub mod Gateway
pub mod Journal
pub mod Sequencer
pub mod SnapshotPool
pub mod Udp
pub mod Server
pub mod Mpsc
pub mod Bot
