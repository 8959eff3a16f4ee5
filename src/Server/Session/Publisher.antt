-- ===== src/Server/Session/Publisher.antt =====
-- ExecutionPublisher and FeedExecutionHandler of src/server/server.rs: what becomes of the engine's messages.
use cixrs.Base.{
  ℕ, ◌+◌, ◌-◌, ◌==◌, ltb, Bool, true, false, none, some, List, [], ◌∷◌, ◌++◌, if◌then◌else◌,
}
use cixrs.Run.{Cmd, ok, panic, pure, assert, get_state, put_state, ◌>>=◌, ◌>>◌}
use cixrs.Run.{Run, out_of_fuel}
use cixrs.TradeTypes.OrderId.{OrderId, OrderSide, buy, sell}
use cixrs.TradeTypes.Orders.{Execution, ErrorCode, id_eq}
use cixrs.TradeTypes.MarketData.{md_execution}
use cixrs.Book.Matcher.{
  Event, ack_order, handle_match, handle_market_data_l1, handle_market_data_l2,
}
use cixrs.Server.Messages.{
  SessionMessage, new_order_ack, execution, serialization_response, open_orders_response,
  OpenOrders, MdMessage, l1_message, l2_message, md_execution_message,
}
use cixrs.Server.Table.{find, insert, remove}
use cixrs.Server.Events.{ack, recv, seq_eq, OpenOrdersContext}
use cixrs.Server.Session.{ServerContext, ServerState, loading, running, SyncWaitRecord}

abbrev pub is_running : ServerState → Bool
is_running loading = false
is_running running = true

module _ {Time : Type 0} where
  -- FeedExecutionHandler: what a call of the handler sends to the sessions
  unfoldable pub session_messages : Event Time → List (SessionMessage Time)
  session_messages (ack_order order_id status) = new_order_ack order_id status ∷ []
  session_messages (handle_match e) = execution e ∷ []
  session_messages (handle_market_data_l1 md) = []
  session_messages (handle_market_data_l2 md) = []

  -- and what it sends to the publisher of market data
  unfoldable pub md_messages : Event Time → List (MdMessage Time)
  unfolding md_execution
  md_messages (ack_order order_id status) = []
  md_messages (handle_match e) = md_execution_message (md_execution e) ∷ []
  md_messages (handle_market_data_l1 md) = l1_message md ∷ []
  md_messages (handle_market_data_l2 md) = l2_message md ∷ []

  -- the counter of engines that have not answered yet; u32, so that it does not go below 0
  unfoldable pub count_down : SyncWaitRecord → Cmd (ServerContext Time) SyncWaitRecord
  count_down w c =
      if w.pending_count == 0
      then panic
      else ok (record w { pending_count = w.pending_count - 1 }) c

  -- notify_serializations, for the record of the generation
  unfoldable pub notify_waiter : ℕ → SyncWaitRecord → Cmd (ServerContext Time) (Unit {0})
  unfolding count_down insert remove
  notify_waiter gen w = do
    w' ← count_down w
    c ← get_state
    if ltb 0 w'.pending_count
        then put_state (record c { pending_syncs = insert ◌==◌ gen w' c.pending_syncs })
        else (do
          assert (gen == c.sync_gen + 1)
          put_state (record c { sync_gen = gen; pending_syncs = remove ◌==◌ gen c.pending_syncs }))

  unfoldable pub notify_serializations : ℕ → Cmd (ServerContext Time) (Unit {0})
  unfolding find notify_waiter
  notify_serializations gen c = elim (find ◌==◌ gen c.pending_syncs) [
    | none ↦ ok tt c
    | some w ↦ notify_waiter gen w c
  ]

  -- the user of a side of an execution
  abbrev pub side_user : Execution Time → OrderSide → ℕ
  side_user e buy = e.buy_user
  side_user e sell = e.sell_user

  -- handle_execution_side; the generated code's calls that build the message are taken not to fail
  unfoldable pub handle_execution_side :
      Execution Time → OrderSide → Cmd (ServerContext Time) (Unit {0})
  unfolding find
  handle_execution_side e side c = elim (find ◌==◌ (side_user e side) c.sub_map) [
    | none ↦ ok tt c
    | some client ↦ ok tt (record c { feed = c.feed ++ ((client, (side, e)) ∷ []) })
  ]

  unfoldable pub handle_ack : OrderId → ErrorCode → Cmd (ServerContext Time) (Unit {0})
  unfolding find insert
  handle_ack order_id status c = elim (find id_eq order_id c.pending_orders) [
    | none ↦ ok tt c
    | some waiter ↦
        ok tt
          (record c { pending_orders = insert id_eq order_id (ack status waiter) c.pending_orders })
  ]

  -- what is left of a run on a waiter's context
  abbrev pub received :
      OpenOrders Time
      → ServerContext Time
      → Run (OpenOrdersContext Time) (Unit {0})
      → Run (ServerContext Time) (Unit {0})
  received orders c (ok _ w) =
      ok tt (record c { pending_open_orders = insert seq_eq orders.seq w c.pending_open_orders })
  received orders c panic = panic
  received orders c out_of_fuel = out_of_fuel

  unfoldable pub handle_orders : OpenOrders Time → Cmd (ServerContext Time) (Unit {0})
  unfolding find insert recv
  handle_orders orders c = elim (find seq_eq orders.seq c.pending_open_orders) [
    | none ↦ ok tt c
    | some waiter ↦ received orders c (recv orders waiter)
  ]

  -- the body of handle_executions, for one message
  unfoldable pub handle_message : SessionMessage Time → Cmd (ServerContext Time) (Unit {0})
  unfolding handle_execution_side handle_ack notify_serializations handle_orders
  handle_message (execution e) = do
    c ← get_state
    if is_running c.state
        then (handle_execution_side e buy >> handle_execution_side e sell)
        else pure tt
  handle_message (new_order_ack order_id status) = do
    c ← get_state
    if is_running c.state then handle_ack order_id status else pure tt
  handle_message (serialization_response gen) = notify_serializations gen
  handle_message (open_orders_response orders) = handle_orders orders

  -- handle_executions over the messages that arrive
  unfoldable pub handle_executions :
      List (SessionMessage Time) → Cmd (ServerContext Time) (Unit {0})
  unfolding handle_message
  handle_executions [] = pure tt
  handle_executions (m ∷ ms) = handle_message m >> handle_executions ms
