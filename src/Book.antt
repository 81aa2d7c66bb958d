-- ===== src/Book.antt =====
-- include/titan/book: price levels, the price index, the order book and the matcher.
pub mod Level
pub mod Index
pub mod RbIndex
pub mod Pool
pub mod OrderBook
pub mod Matcher
pub mod Queue
pub mod Snapshot
mod Tests
