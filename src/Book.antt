-- ===== src/Book.antt =====
-- src/libcix/book.rs: the order book of one symbol and its matcher.
-- The comparers BuyComparer and SellComparer are the sides' names. A time of the time package is a
-- parameter, with its comparison; `clock` gives the time that is read when an execution is made.
-- The calls of an ExecutionHandler are returned as a list of events. A HashMap is an association
-- list. The generator of execution ids that the two sides share is one component of the state.
pub mod Priority
mod Tests
pub mod Samples
pub mod Side
pub mod Index
pub mod Laws
pub mod Depth
pub mod Match
pub mod Execute
pub mod Crossing
pub mod Matching
pub mod Filled
pub mod Matcher
pub mod Valid
pub mod Place
pub mod Cancel
pub mod Find
use cixrs.Base.{
  ℕ, zero, suc, ◌+◌, ◌-◌, ◌%◌, ◌^◌, min, ltb, leb, ◌==◌, ◌≡◌, refl, Bool, true, false, not, ◌||◌,
  Option, none, some, List, [], ◌∷◌, ◌++◌, map, length, Ordering, Result, failure, if◌then◌else◌,
  map_result,
}
use cixrs.Base as Base
use cixrs.Run.{
  Run, Cmd, ok, panic, out_of_fuel, pure, get_state, put_state, panics, assert, ◌>>=◌, ◌>>◌, within,
}
use cixrs.Heap.{TreeHeap, HeapHandle, peek, get, insert, remove, update}
use cixrs.Heap as Heap
use cixrs.Heap.Iterator.{HeapIterator, iterate, next}
use cixrs.TradeTypes.OrderId.{OrderId, OrderSide, buy, sell, symbol_id}
use cixrs.TradeTypes.OrderId as OrderId
use cixrs.TradeTypes.ExecutionId.{ExecutionId}
use cixrs.TradeTypes.ExecutionId as ExecutionId
use cixrs.TradeTypes.Symbol.{Symbol}
use cixrs.TradeTypes.Price.{Price, partial_cmp, ge, le, gt, price_eq, price_zero, minus_one}
use cixrs.TradeTypes.Orders.{Order, Execution, ErrorCode, id_eq}
use cixrs.TradeTypes.Orders as Orders
use cixrs.TradeTypes.MarketData.{
  MdEntry, MdExecution, L1Md, L2Md, l2_md_depth, l2_md_side, md_execution, default_entry,
}

abbrev pub reverse : Ordering → Ordering
reverse Ordering.lt = Ordering.gt
reverse Ordering.eq = Ordering.eq
reverse Ordering.gt = Ordering.lt

-- the lexical order of two comparisons
abbrev pub lex : Ordering → Ordering → Ordering
lex Ordering.lt second = Ordering.lt
lex Ordering.eq second = second
lex Ordering.gt second = Ordering.gt

-- `partial_cmp(…).unwrap_or(Ordering::Equal)`
unfoldable pub price_cmp : Price → Price → Ordering
unfolding partial_cmp
price_cmp x y = elim (partial_cmp x y) [ none ↦ Ordering.eq | some o ↦ o ]

abbrev pub Lookup : Type 0
Lookup = List (OrderId × HeapHandle)

unfoldable pub lookup_get : OrderId → Lookup → Option HeapHandle
lookup_get id [] = none
lookup_get id (e ∷ es) = if id_eq id e.0 then some e.1 else lookup_get id es

unfoldable pub lookup_remove : OrderId → Lookup → Lookup
lookup_remove id [] = []
lookup_remove id (e ∷ es) = if id_eq id e.0 then lookup_remove id es else e ∷ lookup_remove id es

unfoldable pub lookup_insert : OrderId → HeapHandle → Lookup → Lookup
unfolding lookup_remove
lookup_insert id h es = (id, h) ∷ lookup_remove id es

pub record ExecutionIdGenerator : Type 0 where
  pub symbol_id : ℕ
  pub seq : ℕ

-- ExecutionIdGenerator::new
unfoldable pub new_generator : ℕ → ExecutionIdGenerator
new_generator symbol_id = record { symbol_id = symbol_id; seq = 0 }

-- the unwrap panics on an error
unfoldable pub next_id : Cmd ExecutionIdGenerator ExecutionId
unfolding ExecutionId.new
next_id gen = elim (ExecutionId.new gen.symbol_id gen.seq) [
  | Base.success id ↦ ok id (record gen { seq = gen.seq + 1 })
  | failure e ↦ panic
]

pub record BookSide (Time : Type 0) : Type 0 where
  pub orders : TreeHeap (Order Time)
  pub lookup : Lookup

module _ {Time : Type 0} where
  -- OrderComparer::does_cross: `book_order` is on the side of the comparer
  unfoldable pub does_cross : OrderSide → Order Time → Order Time → Bool
  unfolding ge le
  does_cross buy new_order book_order = ge book_order.price new_order.price
  does_cross sell new_order book_order = le book_order.price new_order.price

module _ {Time : Type 0} (time_cmp : Time → Time → Ordering) where
  -- Comparer::compare
  unfoldable pub compare_orders : OrderSide → Order Time → Order Time → Ordering
  unfolding price_cmp
  compare_orders buy x y = lex (price_cmp x.price y.price) (reverse (time_cmp x.update y.update))
  compare_orders sell x y =
      lex (reverse (price_cmp x.price y.price)) (reverse (time_cmp x.update y.update))

module _ {Time : Type 0} (clock : ExecutionId → Time) where
  -- OrderComparer::create_execution
  unfoldable pub create_execution :
      OrderSide → ExecutionId → Order Time → Order Time → ℕ → Execution Time
  create_execution buy id new_order book_order quantity = record {
    symbol = book_order.symbol;
    ts = clock id;
    id = id;
    buy_user = book_order.user;
    buy_order = book_order.id;
    sell_user = new_order.user;
    sell_order = new_order.id;
    price = book_order.price;
    quantity = quantity;
  }
  create_execution sell id new_order book_order quantity = record {
    symbol = book_order.symbol;
    ts = clock id;
    id = id;
    buy_user = new_order.user;
    buy_order = new_order.id;
    sell_user = book_order.user;
    sell_order = book_order.id;
    price = book_order.price;
    quantity = quantity;
  }
