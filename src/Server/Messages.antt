-- ===== src/Server/Messages.antt =====
-- src/server/messages.rs.
use cixrs.Base.{ℕ, Bool, false, List, replicate}
use cixrs.TradeTypes.OrderId.{OrderId, OrderSide}
use cixrs.TradeTypes.Symbol.{Symbol}
use cixrs.TradeTypes.Price.{Price}
use cixrs.TradeTypes.Orders.{Order, Execution, ErrorCode}
use cixrs.TradeTypes.MarketData.{L1Md, L2Md, MdExecution}

abbrev pub open_order_msg_max_length : ℕ
open_order_msg_max_length = 10

pub record OpenOrdersSequence : Type 0 where
  pub user : ℕ
  pub seq : ℕ

-- `orders` stands for an array of ten.
pub record OpenOrders (Time : Type 0) : Type 0 where
  pub seq : OpenOrdersSequence
  pub n_order : ℕ
  pub orders : List (Order Time)
  pub last_response : Bool

-- OpenOrders::new, with the default order
unfoldable pub new : {Time : Type 0} → Order Time → OpenOrdersSequence → OpenOrders Time
new d seq = record {
  seq = seq;
  n_order = 0;
  orders = replicate open_order_msg_max_length d;
  last_response = false;
}

pub data SessionMessage (Time : Type 0) : Type 0 where
  new_order_ack : OrderId → ErrorCode → SessionMessage Time
  execution : Execution Time → SessionMessage Time
  serialization_response : ℕ → SessionMessage Time
  open_orders_response : OpenOrders Time → SessionMessage Time

pub record NewOrderMessage : Type 0 where
  pub user : ℕ
  pub order_id : OrderId
  pub symbol : Symbol
  pub side : OrderSide
  pub price : Price
  pub quantity : ℕ

pub record CancelOrderMessage : Type 0 where
  pub user : ℕ
  pub order_id : OrderId

pub data EngineMessage : Type 0 where
  null_message : EngineMessage
  new_order : NewOrderMessage → EngineMessage
  cancel_order : CancelOrderMessage → EngineMessage
  serialization_message : ℕ → EngineMessage
  get_open_orders_message : OpenOrdersSequence → EngineMessage

pub data MdMessage (Time : Type 0) : Type 0 where
  l1_message : L1Md Time → MdMessage Time
  l2_message : L2Md Time → MdMessage Time
  md_execution_message : MdExecution Time → MdMessage Time
