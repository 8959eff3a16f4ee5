-- ===== src/TradeTypes.antt =====
-- src/libcix/order.rs, module trade_types.
pub mod TradingId
pub mod OrderId
pub mod ExecutionId
pub mod Symbol
pub mod Price
pub mod Orders
pub mod MarketData
mod Tests
