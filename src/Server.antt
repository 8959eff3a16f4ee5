-- ===== src/Server.antt =====
-- src/server: the messages, the order engine, the write-ahead log, the router and the sessions.
pub mod Messages
pub mod Engine
pub mod OpenOrders
pub mod Batches
pub mod Wal
pub mod Table
pub mod Router
pub mod Events
pub mod Books
pub mod Owner
pub mod Entered
pub mod Session
mod Tests
