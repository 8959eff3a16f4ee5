-- ===== src/Server/Session.antt =====
-- src/server/session.rs: the context that all sessions share, and the requests of one session, with the
-- SingleRouter as the router. The maps behind Rc<RefCell<_>> are fields of the one context. The disk of
-- the log is part of it; a client's capability is a number. A request's parameters are what the generated
-- code reads of them, or none if it fails.
pub mod Requests
pub mod Publisher
pub mod Auth
pub mod Durable
pub mod Sync
pub mod Answer
mod Tests
use cixrs.Base.{
  ℕ, zero, suc, ◌+◌, ◌==◌, not, Bool, true, false, Option, none, some, List, [], ◌∷◌, ◌++◌, Result,
  success, failure, if◌then◌else◌,
}
use cixrs.Run.{
  Run, Cmd, ok, panic, out_of_fuel, pure, panics, within, get_state, put_state, ◌>>=◌, ◌>>◌,
}
use cixrs.TradeTypes.OrderId.{OrderId, OrderSide}
use cixrs.TradeTypes.OrderId as OrderId
use cixrs.TradeTypes.Symbol.{Symbol}
use cixrs.TradeTypes.Price.{Price}
use cixrs.TradeTypes.Orders.{Order, Execution, ErrorCode, id_eq}
use cixrs.Server.Messages.{
  EngineMessage, NewOrderMessage, CancelOrderMessage, OpenOrdersSequence, serialization_message,
  get_open_orders_message,
}
use cixrs.Server.Messages as Messages
use cixrs.Server.Table.{Table, find, insert, remove}
use cixrs.Server.Wal.{Codec, WalError, Wal, Disk, write_entry}
use cixrs.Server.Router.{
  SingleRouter, RouterError, create_order_id, route_order, broadcast_message, n_engine,
}
use cixrs.Server.Events.{
  WaitEvent, OrderMap, new_event, OpenOrdersContext, OpenOrderMap, new_context, seq_eq,
  SerializationPoint,
}

pub data ServerState : Type 0 where
  loading : ServerState
  running : ServerState

pub record SyncWaitRecord : Type 0 where
  pub event : WaitEvent (Unit {0})
  pub pending_count : ℕ

abbrev pub SyncMap : Type 0
SyncMap = Table ℕ SyncWaitRecord

abbrev pub SubscriptionMap : Type 0
SubscriptionMap = Table ℕ ℕ

-- `disk` is what the log is written to, `feed` the executions sent to clients.
pub record ServerContext (Time : Type 0) : Type 0 where
  pub router : SingleRouter
  pub sub_map : SubscriptionMap
  pub pending_orders : OrderMap
  pub wal : Wal
  pub sync_gen : ℕ
  pub sync_ticket : ℕ
  pub pending_syncs : SyncMap
  pub state : ServerState
  pub pending_open_orders : OpenOrderMap Time
  pub disk : Disk
  pub feed : List (ℕ × (OrderSide × Execution Time))

-- ServerContext::new
unfoldable pub new_server : {Time : Type 0} → SingleRouter → Wal → Disk → ServerContext Time
new_server router wal disk = record {
  router = router;
  sub_map = [];
  pending_orders = [];
  wal = wal;
  sync_gen = 0;
  sync_ticket = 0;
  pending_syncs = [];
  state = loading;
  pending_open_orders = [];
  disk = disk;
  feed = [];
}

pub record Session : Type 0 where
  pub user : ℕ
  pub authenticated : Bool
  pub open_order_seq : ℕ

-- Session::new
unfoldable pub new : Session
new = record { user = 0; authenticated = false; open_order_seq = 0 }

-- a session and the context it shares
pub record Served (Time : Type 0) : Type 0 where
  pub context : ServerContext Time
  pub session : Session

-- cp::ErrorCode, as far as the requests set it
pub data ReplyCode : Type 0 where
  code_ok : ReplyCode
  code_other : ReplyCode
  not_authenticated : ReplyCode
  invalid_args : ReplyCode
  already_subscribed : ReplyCode

-- What a request leads to: a code, a value to wait for, the subscription of a user, or a failed call.
pub data Reply : Type 0 where
  code : ReplyCode → Reply
  waits_for_ack : OrderId → Reply
  waits_for_orders : OpenOrdersSequence → Reply
  subscribed : ℕ → Reply
  call_failed : Reply

pub record NewOrderParams : Type 0 where
  pub symbol : Symbol
  pub side : OrderSide
  pub price : Price
  pub quantity : ℕ

-- the code of a new order's reply, when the engine has acknowledged it
unfoldable pub ack_code : ErrorCode → ReplyCode
ack_code ErrorCode.success = code_ok
ack_code _ = code_other

-- ExecutionSubscriptionMd::drop
unfoldable pub drop_subscription : {Time : Type 0} → ℕ → Cmd (ServerContext Time) (Unit {0})
unfolding remove
drop_subscription user c = ok tt (record c { sub_map = remove ◌==◌ user c.sub_map })

module _ {Time : Type 0} (codec : Codec) (fault : ℕ → Option WalError)
    (takes : EngineMessage → Bool) where
  abbrev on_router : {A : Type 0} → Cmd SingleRouter A → Cmd (ServerContext Time) A
  on_router m = within (λ c. c.router) (λ c r. record c { router = r }) m

  abbrev on_context : {A : Type 0} → Cmd (ServerContext Time) A → Cmd (Served Time) A
  on_context m = within (λ s. s.context) (λ s c. record s { context = c }) m

  -- ServerContext::serialization_point
  unfoldable pub serialization_point : Cmd (ServerContext Time) SerializationPoint
  unfolding broadcast_message insert
  serialization_point = do
    c ← get_state
    put_state (record c { sync_ticket = c.sync_ticket + 1 })
    r ← on_router (broadcast_message takes (serialization_message (c.sync_ticket + 1)))
    elim r [
      | failure e ↦ panics
      | success _ ↦ (do
        c' ← get_state
        put_state (record c' {
          pending_syncs =
              insert ◌==◌ (c.sync_ticket + 1)
                (record { event = new_event; pending_count = n_engine }) c'.pending_syncs;
        })
        pure (record { target = c.sync_ticket + 1 }))
    ]

  -- the log's write_entry on its disk
  unfoldable pub log_entry : EngineMessage → Cmd (ServerContext Time) (Result WalError (Unit {0}))
  unfolding write_entry
  log_entry msg = do
    c ← get_state
    r ←
        within (λ (s : ServerContext Time). s.disk) (λ s d. record s { disk = d })
          (write_entry codec fault c.wal msg)
    c' ← get_state
    put_state (record c' { wal = r.0 })
    pure r.1

  -- the log gets a message before the engine does; true if both took it
  unfoldable pub log_and_route : EngineMessage → Cmd (ServerContext Time) Bool
  unfolding log_entry route_order
  log_and_route msg = do
    written ← log_entry msg
    elim written [
      | failure e ↦ pure false
      | success _ ↦ (do
        routed ← on_router (route_order takes msg)
        elim routed [ failure e ↦ pure false | success _ ↦ pure true ])
    ]
