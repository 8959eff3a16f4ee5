-- ===== src/Server/OpenOrders.antt =====
-- get_open_orders, process_message and publish_md of src/server/engine.rs.
use cixrs.Base.{
  ℕ, zero, suc, ◌+◌, ◌==◌, Bool, ltb, List, [], ◌∷◌, ◌++◌, length, Result, success, failure,
  Ordering, if◌then◌else◌,
}
use cixrs.Run.{Run, Cmd, ok, panic, out_of_fuel, pure, get_state, put_state, panics, ◌>>=◌, ◌>>◌}
use cixrs.Heap.{TreeHeap}
use cixrs.Heap.Iterator.{iterate, collect}
use cixrs.TradeTypes.OrderId.{buy, sell}
use cixrs.TradeTypes.ExecutionId.{ExecutionId}
use cixrs.TradeTypes.Symbol.{Symbol}
use cixrs.TradeTypes.Orders.{Order}
use cixrs.Book.{compare_orders}
use cixrs.Book.Matcher.{OrderBook, Event, get_order}
use cixrs.Book.Matcher as Matcher
use cixrs.Server.Messages.{
  NewOrderMessage, CancelOrderMessage, EngineMessage, null_message, serialization_message,
  get_open_orders_message, SessionMessage, serialization_response, open_orders_response, OpenOrders,
  OpenOrdersSequence, open_order_msg_max_length,
}
use cixrs.Server.Messages as Messages
use cixrs.Run.{and_then}
use cixrs.Base.{take, replicate}
use cixrs.Heap.Iterator.{HeapIterator}
use cixrs.TradeTypes.Symbol.{overwrite}
use cixrs.TradeTypes.OrderId.{OrderSide}
use cixrs.Server.Engine.{
  EngineError, open_orders_failed, OrderEngine, Books, new_order, cancel_order, serialization_point,
  send, on_book,
}

-- the result of a computation on another state
abbrev returned : {S Z A : Type 0} → Run Z A → Cmd S A
returned (ok a z) = pure a
returned panic = panics
returned out_of_fuel = λ _. out_of_fuel

abbrev pub drop : {A : Type 0} → ℕ → List A → List A
drop zero xs = xs
drop (suc n) [] = []
drop (suc n) (x ∷ xs) = drop n xs

module _ {Time : Type 0} (time_cmp : Time → Time → Ordering) (clock : ExecutionId → Time)
    (accepts : SessionMessage Time → Bool) where
  -- one iterator of OrderBook::orders, from its start to its end
  unfoldable pub side_orders :
      OrderSide
      → Order Time
      → TreeHeap (Order Time)
      → Run (HeapIterator (Order Time)) (List (Order Time))
  unfolding iterate collect compare_orders
  side_orders side d heap =
      and_then (iterate (compare_orders time_cmp side) d heap)
        (λ _. collect (compare_orders time_cmp side) (heap.pool_len + 1))

  -- the orders of the user in all books; the code reads them as the responses need them
  unfoldable pub user_orders :
      Order Time → ℕ → Books Time → Cmd (OrderEngine Time) (List (Order Time))
  unfolding side_orders
  user_orders d user [] = pure []
  user_orders d user (e ∷ es) = do
    bids ← returned (side_orders buy d e.1.buys.orders)
    asks ← returned (side_orders sell d e.1.sells.orders)
    rest ← user_orders d user es
    pure (of_user user (bids ++ asks) ++ rest)
    where
      of_user : ℕ → List (Order Time) → List (Order Time)
      of_user u [] = []
      of_user u (o ∷ os) = if o.user == u then o ∷ of_user u os else of_user u os

  -- the response with the first ten orders at most
  unfoldable pub fill : Order Time → OpenOrdersSequence → List (Order Time) → OpenOrders Time
  unfolding Messages.new
  fill d seq orders =
      let batch = take open_order_msg_max_length orders in
      record (Messages.new d seq) {
        orders = overwrite (replicate open_order_msg_max_length d) batch;
        n_order = length batch;
        last_response = ltb (length orders) open_order_msg_max_length;
      }

  -- the loop of get_open_orders
  unfoldable pub send_batches :
      Order Time
      → OpenOrdersSequence
      → ℕ
      → List (Order Time)
      → Cmd (OrderEngine Time) (Result EngineError (Unit {0}))
  unfolding fill send
  send_batches d seq zero orders = λ _. out_of_fuel
  send_batches d seq (suc k) orders = do
    r ← send time_cmp clock accepts open_orders_failed (open_orders_response (fill d seq orders))
    elim r [
      | failure e ↦ pure (failure e)
      | success _ ↦
          (if ltb (length orders) open_order_msg_max_length
            then pure (success tt)
            else send_batches d seq k (drop open_order_msg_max_length orders))
    ]

  unfoldable pub get_open_orders :
      Order Time → OpenOrdersSequence → Cmd (OrderEngine Time) (Result EngineError (Unit {0}))
  unfolding user_orders send_batches
  get_open_orders d seq = do
    engine ← get_state
    orders ← user_orders d seq.user engine.books
    send_batches d seq (length orders + 1) orders

  unfoldable pub process_message :
      Order Time → Time → EngineMessage → Cmd (OrderEngine Time) (Result EngineError (Unit {0}))
  unfolding new_order cancel_order serialization_point get_open_orders
  process_message d now null_message = panics
  process_message d now (Messages.new_order msg) = new_order time_cmp clock accepts now msg
  process_message d now (Messages.cancel_order msg) = cancel_order time_cmp clock accepts msg
  process_message d now (serialization_message seq) = serialization_point time_cmp clock accepts seq
  process_message d now (get_open_orders_message seq) = get_open_orders d seq

  -- the loop of publish_md
  unfoldable pub publish_symbols : Order Time → List Symbol → Cmd (OrderEngine Time) (Unit {0})
  unfolding on_book Matcher.publish_md
  publish_symbols d [] = pure tt
  publish_symbols d (symbol ∷ rest) = do
    on_book time_cmp clock accepts symbol (Matcher.publish_md time_cmp clock d)
    publish_symbols d rest

  unfoldable pub publish_md : Order Time → Cmd (OrderEngine Time) (Unit {0})
  unfolding publish_symbols
  publish_md d = do
    engine ← get_state
    publish_symbols d engine.dirty_symbols
    after ← get_state
    put_state (record after { dirty_symbols = [] })
