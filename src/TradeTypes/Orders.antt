-- ===== src/TradeTypes/Orders.antt =====
-- Order, Execution and the errors' codes of src/libcix/order.rs. An OrderTime is a Timespec of the
-- time package: a parameter.
use cixrs.Base.{ℕ, Bool, ◌==◌}
use cixrs.TradeTypes.OrderId.{OrderId, OrderSide}
use cixrs.TradeTypes.ExecutionId.{ExecutionId}
use cixrs.TradeTypes.Symbol.{Symbol}
use cixrs.TradeTypes.Price.{Price}

pub data ErrorCode : Type 0 where
  success : ErrorCode
  duplicate_id : ErrorCode
  other : ErrorCode

pub record Order (Time : Type 0) : Type 0 where
  pub id : OrderId
  pub user : ℕ
  pub symbol : Symbol
  pub side : OrderSide
  pub price : Price
  pub quantity : ℕ
  pub update : Time

pub record Execution (Time : Type 0) : Type 0 where
  pub id : ExecutionId
  pub ts : Time
  pub buy_order : OrderId
  pub buy_user : ℕ
  pub sell_order : OrderId
  pub sell_user : ℕ
  pub symbol : Symbol
  pub price : Price
  pub quantity : ℕ

-- the derived equality of OrderId
abbrev pub id_eq : OrderId → OrderId → Bool
id_eq a b = a.id.val == b.id.val
