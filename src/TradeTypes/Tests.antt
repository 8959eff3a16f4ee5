-- ===== src/TradeTypes/Tests.antt =====
-- Examples of src/libcix/order.rs.
use cixrs.Base.{ℕ, ◌^◌, ◌<◌, ◌≤◌, ◌≡◌, refl, arith, success, List, [], ◌∷◌, ◌++◌, length, take}
use cixrs.TradeTypes.TradingId.{TradingId, Fields, new-Fields, new-from_raw, new-success, from_raw}
use cixrs.TradeTypes.TradingId as TradingId
use cixrs.TradeTypes.OrderId.{OrderId, OrderSide, buy, sell, OrderFields, new-OrderFields}
use cixrs.TradeTypes.OrderId as OrderId
use cixrs.TradeTypes.ExecutionId.{ExecutionId, ExecutionFields, new-ExecutionFields}
use cixrs.TradeTypes.ExecutionId as ExecutionId
use cixrs.TradeTypes.Symbol.{Symbol, from_bytes, to_bytes, text, from_bytes-text}
use cixrs.TradeTypes.Price.{price_zero}
use cixrs.TradeTypes.MarketData.{MdEntry, l2_md_side, iter, iter-l2_md_side, default_entry}

new-Fields_example :
    (id : TradingId) × (TradingId.new 3 2 77 ≡ success id)
    × Fields id 3 2 77
    × (TradingId.raw id < 2 ^ 64)
new-Fields_example = new-Fields 3 2 77 (omega arith) (omega arith) (omega arith)

new-from_raw_example :
    TradingId.new
      (TradingId.symbol_id (from_raw 123456789))
      (TradingId.metadata (from_raw 123456789))
      (TradingId.sequence (from_raw 123456789))
    ≡ success (from_raw 123456789)
new-from_raw_example = new-from_raw 123456789 (omega arith)

new-success_example : (3 < 2 ^ 20) × (2 < 2 ^ 4) × (77 < 2 ^ 40)
unfolding TradingId.new
new-success_example = new-success 3 2 77 _ refl

new-OrderFields_example :
    (o : OrderId) × (OrderId.new 3 buy 77 ≡ success o) × OrderFields 3 buy 77 o
new-OrderFields_example = new-OrderFields 3 buy 77 (omega arith) (omega arith)

new-ExecutionFields_example :
    (e : ExecutionId) × (ExecutionId.new 3 77 ≡ success e) × ExecutionFields 3 77 e
new-ExecutionFields_example = new-ExecutionFields 3 77 (omega arith) (omega arith)

abbrev goog : List ℕ
goog = 71 ∷ 79 ∷ 79 ∷ 71 ∷ []

from_bytes-text_example :
    (symbol : Symbol) × (from_bytes goog ≡ success symbol)
    × (text (to_bytes symbol) ≡ goog)
    × (length (to_bytes symbol) ≡ 8)
from_bytes-text_example =
    from_bytes-text goog (omega arith)
      (omega arith, (omega arith, (omega arith, (omega arith, tt))))

abbrev two_levels : List MdEntry
two_levels =
    record { price = price_zero; quantity = 4 } ∷ record { price = price_zero; quantity = 9 } ∷ []

iter-l2_md_side_example :
    (length two_levels ≤ 4 → iter (l2_md_side two_levels) ≡ two_levels)
    × (5 ≤ length two_levels
        → iter (l2_md_side two_levels) ≡ take 4 two_levels ++ (default_entry ∷ []))
iter-l2_md_side_example = iter-l2_md_side two_levels
