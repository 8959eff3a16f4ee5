-- ===== src/Book/Matcher.antt =====
-- OrderBook and BasicMatcher of src/libcix/book.rs.
use cixrs.Base.{ℕ, ◌+◌, ltb, Option, none, some, List, [], ◌∷◌, ◌++◌, map, Ordering, if◌then◌else◌}
use cixrs.Run.{Run, Cmd, ok, panic, out_of_fuel, pure, get_state, put_state, ◌>>=◌, ◌>>◌, within}
use cixrs.TradeTypes.OrderId.{OrderId, OrderSide, buy, sell, symbol_id}
use cixrs.TradeTypes.OrderId as OrderId
use cixrs.TradeTypes.ExecutionId.{ExecutionId}
use cixrs.TradeTypes.Symbol.{Symbol}
use cixrs.TradeTypes.Orders.{Order, Execution, ErrorCode, id_eq}
use cixrs.TradeTypes.Orders as Orders
use cixrs.TradeTypes.MarketData.{MdExecution, L1Md, L2Md, l2_md_depth, l2_md_side, md_execution}
use cixrs.Book.{ExecutionIdGenerator, new_generator, BookSide}
use cixrs.Book.Side.{new_side, find_order, remove_order, top_order, has_order, add_to_side}
use cixrs.Book.Depth.{get_l2_data}
use cixrs.Book.Match.{Matching, match_order}

pub record OrderBook (Time : Type 0) : Type 0 where
  pub symbol : Symbol
  pub buys : BookSide Time
  pub sells : BookSide Time
  pub last_exec : Option (MdExecution Time)
  pub id_gen : ExecutionIdGenerator

-- a call of an ExecutionHandler
pub data Event (Time : Type 0) : Type 0 where
  ack_order : OrderId → ErrorCode → Event Time
  handle_match : Execution Time → Event Time
  handle_market_data_l1 : L1Md Time → Event Time
  handle_market_data_l2 : L2Md Time → Event Time

abbrev pub last : {A : Type 0} → List A → Option A
last [] = none
last (x ∷ xs) = elim (last xs) [ none ↦ some x | some y ↦ some y ]

abbrev pub opposite : OrderSide → OrderSide
opposite buy = sell
opposite sell = buy

module _ {Time : Type 0} where
  abbrev pub side_of : OrderSide → OrderBook Time → BookSide Time
  side_of buy book = book.buys
  side_of sell book = book.sells

  abbrev pub with_side : OrderSide → OrderBook Time → BookSide Time → OrderBook Time
  with_side buy book s = record book { buys = s }
  with_side sell book s = record book { sells = s }

  abbrev pub in_side : {A : Type 0} → OrderSide → Cmd (BookSide Time) A → Cmd (OrderBook Time) A
  in_side side = within (side_of side) (with_side side)

module _ {Time : Type 0} (time_cmp : Time → Time → Ordering) (clock : ExecutionId → Time) where
  -- OrderBook::new
  unfoldable pub new : Order Time → Symbol → ℕ → OrderBook Time
  unfolding new_side new_generator
  new d symbol symbol_id = record {
    symbol = symbol;
    buys = new_side time_cmp d;
    sells = new_side time_cmp d;
    last_exec = none;
    id_gen = new_generator symbol_id;
  }

  -- OrderBook::get_order
  unfoldable pub get_order : OrderId → Cmd (OrderBook Time) (Option (Order Time))
  unfolding OrderId.side find_order
  get_order id = in_side (OrderId.side id) (find_order time_cmp (OrderId.side id) id)

  -- the book after the matching with the side `far`; the reduced order and the executions
  unfoldable pub after_match :
      OrderSide
      → OrderBook Time
      → Run (Matching Time) (List (Execution Time))
      → Run (OrderBook Time) (Order Time × List (Execution Time))
  after_match far book (ok execs m) =
      ok (m.new_order, execs) (record (with_side far book m.side) { id_gen = m.id_gen })
  after_match far book panic = panic
  after_match far book out_of_fuel = out_of_fuel

  -- the matching of a new order on `side` with the opposite side
  unfoldable pub match_new :
      OrderSide → Order Time → Cmd (OrderBook Time) (Order Time × List (Execution Time))
  unfolding match_order after_match
  match_new side order book =
      let far = opposite side in
      after_match far book (
        match_order time_cmp clock far ((side_of far book).orders.pool_len + 1)
          (record { side = side_of far book; id_gen = book.id_gen; new_order = order }))

  -- what remains of a new order comes to rest on its own side
  unfoldable pub rest_order : OrderSide → Order Time → Cmd (OrderBook Time) (Unit {0})
  unfolding add_to_side
  rest_order side o =
      if ltb 0 o.quantity then (in_side side (add_to_side time_cmp side o) >> pure tt) else pure tt

  -- BasicMatcher::add_order, of an order on the side `side`
  unfoldable pub add_on : OrderSide → Order Time → Cmd (OrderBook Time) (List (Event Time))
  unfolding has_order match_new rest_order md_execution
  add_on side order = do
    book ← get_state
    if has_order time_cmp order.id (side_of side book)
        then pure (ack_order order.id Orders.duplicate_id ∷ [])
        else (do
          r ← match_new side order
          book1 ← get_state
          put_state (record book1 {
            last_exec = elim (last r.1) [ none ↦ book1.last_exec | some e ↦ some (md_execution e) ];
          })
          rest_order side r.0
          pure (map handle_match r.1 ++ (ack_order order.id Orders.success ∷ [])))

  unfoldable pub add_order : Order Time → Cmd (OrderBook Time) (List (Event Time))
  unfolding add_on
  add_order order = add_on order.side order

  -- BasicMatcher::cancel_order
  unfoldable pub cancel_order : OrderId → Cmd (OrderBook Time) (List (Event Time))
  unfolding OrderId.side remove_order
  cancel_order order = do
    in_side (OrderId.side order) (remove_order time_cmp (OrderId.side order) order)
    pure []

  -- BasicMatcher::publish_md, with the default order for the iterators' heaps
  unfoldable pub publish_md : Order Time → Cmd (OrderBook Time) (List (Event Time))
  unfolding top_order get_l2_data l2_md_side
  publish_md d = do
    book ← get_state
    bid ← in_side buy (top_order time_cmp buy)
    ask ← in_side sell (top_order time_cmp sell)
    l2_bids ← in_side buy (get_l2_data time_cmp buy d l2_md_depth)
    l2_asks ← in_side sell (get_l2_data time_cmp sell d l2_md_depth)
    pure (
        handle_market_data_l1
          (record { symbol = book.symbol; bid = bid; ask = ask; last = book.last_exec })
        ∷ handle_market_data_l2 (record {
          symbol = book.symbol;
          bids = l2_md_side l2_bids;
          asks = l2_md_side l2_asks;
          last = book.last_exec;
        })
        ∷ [])
