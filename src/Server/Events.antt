-- ===== src/Server/Events.antt =====
-- src/server/events.rs: the values that sessions wait for. A task that is woken polls again; parking and
-- waking it is the event loop's.
use cixrs.Base.{
  ℕ, ◌-◌, leb, ltb, ◌==◌, ◌&&◌, Bool, Option, none, some, List, [], ◌++◌, take, if◌then◌else◌,
}
use cixrs.Run.{Cmd, ok, panic, pure, assert, get_state, put_state, ◌>>=◌, ◌>>◌}
use cixrs.TradeTypes.OrderId.{OrderId}
use cixrs.TradeTypes.Orders.{Order, ErrorCode, id_eq}
use cixrs.Server.Messages.{OpenOrders, OpenOrdersSequence, open_order_msg_max_length}
use cixrs.Server.Table.{Table, find, remove}

pub data Poll (A : Type 0) : Type 0 where
  ready : A → Poll A
  not_ready : Poll A
  poll_error : Poll A

-- WaitEvent: its status
abbrev pub WaitEvent : Type 0 → Type 0
WaitEvent A = Option A

-- WaitEvent::new and WaitEvent::ack
abbrev pub new_event : {A : Type 0} → WaitEvent A
new_event = none

abbrev pub ack : {A : Type 0} → A → WaitEvent A → WaitEvent A
ack result event = some result

abbrev pub OrderMap : Type 0
OrderMap = Table OrderId (WaitEvent ErrorCode)

-- the poll of NewOrderSend
unfoldable pub poll_new_order : OrderId → OrderMap → Poll ErrorCode
unfolding find
poll_new_order order_id status_map = elim (find id_eq order_id status_map) [
  | none ↦ not_ready
  | some none ↦ not_ready
  | some (some c) ↦ ready c
]

-- the drop of NewOrderSend
unfoldable pub drop_new_order : OrderId → OrderMap → OrderMap
unfolding remove
drop_new_order order_id status_map = remove id_eq order_id status_map

pub record OpenOrdersContext (Time : Type 0) : Type 0 where
  pub in_flight : ℕ
  pub orders : List (Order Time)

-- the derived equality of OpenOrdersSequence
abbrev pub seq_eq : OpenOrdersSequence → OpenOrdersSequence → Bool
seq_eq a b = (a.user == b.user) && (a.seq == b.seq)

abbrev pub OpenOrderMap : Type 0 → Type 0
OpenOrderMap Time = Table OpenOrdersSequence (OpenOrdersContext Time)

-- SerializationPoint, whose generation is read when it is polled
pub record SerializationPoint : Type 0 where
  pub target : ℕ

unfoldable pub poll_point : ℕ → SerializationPoint → Poll (Unit {0})
poll_point gen p = if leb p.target gen then ready tt else not_ready

module _ {Time : Type 0} where
  -- OpenOrdersContext::new
  unfoldable pub new_context : ℕ → OpenOrdersContext Time
  new_context in_flight = record { in_flight = in_flight; orders = [] }

  -- the last response of an engine
  unfoldable pub finish : Cmd (OpenOrdersContext Time) (Unit {0})
  finish c = if c.in_flight == 0 then panic else ok tt (record c { in_flight = c.in_flight - 1 })

  unfoldable pub recv : OpenOrders Time → Cmd (OpenOrdersContext Time) (Unit {0})
  unfolding finish
  recv msg = do
    assert (ltb msg.n_order open_order_msg_max_length)
    c ← get_state
    put_state (record c { orders = c.orders ++ take msg.n_order msg.orders })
    if msg.last_response then finish else pure tt

  -- the poll of OpenOrdersSend
  unfoldable pub poll_open_orders :
      OpenOrdersSequence → OpenOrderMap Time → Poll (List (Order Time))
  unfolding find
  poll_open_orders seq context_map = elim (find seq_eq seq context_map) [
    | none ↦ poll_error
    | some c ↦ (if ltb 0 c.in_flight then not_ready else ready c.orders)
  ]
