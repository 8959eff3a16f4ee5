-- ===== src/Lib.antt =====
-- cixrs, a stock exchange: the order book library of src/libcix and the server of src/server.
--
-- The program matches orders in one OrderBook per symbol. A book has two sides; each BookSide keeps
-- its orders in a TreeHeap, greatest priority first, and a map from order ids to the heap's handles.
-- The BasicMatcher runs a new order against the opposite side and rests what remains on its own.
-- In the server an OrderEngine owns the books and processes the messages of a channel. A session turns a
-- user's request into a message, which it writes to the write-ahead log and then routes to the engine;
-- the engine's answers come back to the publisher, which hands them to the sessions that wait. At the
-- start the log is replayed into the engine, and a serialization point tells when that is done.
--
-- Files and the code they model:
--   Base, Run, Words: shared names; how a call ends (it returns, it panics, the fuel runs out); shifts
--     and masks as arithmetic.
--   Heap (src/libcix/heap.rs): TreeHeap. The vector of nodes is a function from indices with a length; the
--     pointers -1 and i are none and some i. Each function of the source is one of the model, with
--     the same name: new, insert, remove, update, pop, peek, get, validate and the private ones. get,
--     get_node and get_node_md and their mutable kin are reads and writes that panic out of bounds.
--     Heap/Tree is the abstract tree; Heap/Owns says that the pool stores it; Heap/PullUp, Graft, Path,
--     Remove, Insert and Attach are about the private functions, Heap/Contents about the values held,
--     Heap/Order about the heap order, Heap/Valid, Laws, Views and Validate about the public ones.
--   Heap/Iterator (src/libcix/heap.rs): HeapIterator, new is iterate.
--   TradeTypes (src/libcix/order.rs): TradingId, OrderId and ExecutionId are numbers of 64 bits; Symbol is
--     a list that stands for an array of eight bytes; Price is the bits of an f64, of which the code
--     uses the comparisons only; a time is a parameter with its comparison.
--   Book (src/libcix/book.rs): comparers, the id map (a HashMap as an association list) and the id generator
--     in Book; Book/Side has BookSide, Book/Depth get_l2_data, Book/Match match_order, Book/Matcher
--     OrderBook and BasicMatcher. BuyComparer and SellComparer are the names of the sides. The
--     generator that the sides share is one component of the book. The time read for an execution is
--     a parameter; the calls of an ExecutionHandler are returned as a list of events.
--     Book/Priority is about the comparers, Book/Index about the id map, Book/Laws about the sides,
--     Book/Execute, Crossing, Filled and Matching about match_order, Book/Valid, Place, Cancel and Find about
--     the whole book.
--   Server/Messages and Server/Engine, Server/OpenOrders (src/server/messages.rs, src/server/engine.rs): the
--     engine that owns the books and processes the sessions' messages. The messages it sends and the
--     handler's calls are kept in its state; whether the responder's channel takes a message is a
--     parameter. Server/Books, Owner and Entered are about the books, cancellations and new orders,
--     Server/Batches about the responses of get_open_orders.
--   Server/Wal (src/server/wal.rs and init_wal of src/server/server.rs): the write-ahead log. A disk is the
--     list of the log's files with their bytes; an open file shares its bytes with its map. What bincode
--     does is the parameter codec, with its documented behaviour in Wal/File (IsCodec); which files
--     the operating system fails to open is the parameter fault. The index of a file is not bounded.
--     WalFile::write_entry is write_to_file, Wal::new is new, WalFile::next is advance_entry,
--     and in Wal/Reader WalDirectoryReader::new is new_reader, its next is next, and init_wal's loop is
--     replay. Wal/File is about one file, Disk about the directory, Write and Rotate about writing,
--     Replay, Resume and Short about starting again.
--   Server/Table: a HashMap of the server as an association list with a test of the keys.
--   Server/Router (SymbolLookup, SingleRouter and init_wal's replay in src/server/server.rs): the messages that
--     the engine is sent are kept in the router, with a parameter for what its channel takes.
--     Router/Lookup is about the symbols, Fresh about new ids, Replay about the restart.
--   Server/Events (src/server/events.rs): the polls of the futures over the maps they read.
--   Server/Session (src/server/session.rs): the ServerContext, with the disk of its log; Session/Requests:
--     a session's requests, which keep their names; submit_order, submit_cancel, request_orders and subscribe_user
--     are their parts after the authentication. Reply is what the client gets or waits for.
--     Session/Publisher has FeedExecutionHandler and ExecutionPublisher of src/server/server.rs.
--     Session/Auth (subscriptions), Durable, Sync and Answer are about the log, the serialization points
--     and the open orders.
--
-- Fuel: pull_up, insert_node, decrement_size and validate_node take one more than the pool has nodes;
-- a path in the tree is shorter than that. match_order takes as much: every turn but the last
-- removes an order. The iterator's loop in get_l2_data takes as much: it yields a node a turn.
-- get_open_orders takes one more than there are orders: each response but the last holds ten.
-- next_file takes one more than there are files, a reader's turn one more than files are listed; the
-- loops over the entries take a bound as an argument that the theorems ask to be above their number.
--
-- A u32 that overflows and a subtraction below 0 are panics, as in a build with overflow checks; only the
-- server's counters (tickets, requests for open orders, indices of log files) are not bounded.
--
-- Not modelled: the Display implementations and print_books (output), the cap'n proto conversions
-- (calls of generated code), the engine's thread with its channel and timer, the server's main with its
-- sockets, the publisher of market data (src/server/md.rs, which the repository does not hold),
-- walread and src/client (command line tools), a new log file that opens but cannot be sized or mapped.
pub mod Base
pub mod Run
pub mod Words
pub mod Heap
pub mod TradeTypes
pub mod Book
pub mod Server
