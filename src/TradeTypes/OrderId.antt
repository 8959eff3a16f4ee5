-- ===== src/TradeTypes/OrderId.antt =====
-- OrderId and OrderSide of src/libcix/order.rs.
use cixrs.Base.{
  ℕ, ◌^◌, ◌<◌, bit_and, bit_or, ◌≡◌, refl, ap, ◌==◌, not, if◌then◌else◌, arith, Result, success,
  failure, map_result,
}
use cixrs.TradeTypes.TradingId.{
  TradingId, IdError, not_an_order, symbol_max, sequence_max, Fields, new-Fields,
}
use cixrs.TradeTypes.TradingId as TradingId

pub data OrderSide : Type 0 where
  buy : OrderSide
  sell : OrderSide

pub record OrderId : Type 0 where
  pub id : TradingId

abbrev pub trading_md_type_mask : ℕ
trading_md_type_mask = 1

abbrev pub trading_md_type_order : ℕ
trading_md_type_order = 0

abbrev pub order_md_side_mask : ℕ
order_md_side_mask = 2

abbrev pub order_md_side_buy : ℕ
order_md_side_buy = 2

abbrev pub order_md_side_sell : ℕ
order_md_side_sell = 0

abbrev pub side_md : OrderSide → ℕ
side_md buy = order_md_side_buy
side_md sell = order_md_side_sell

unfoldable pub new : ℕ → OrderSide → ℕ → Result IdError OrderId
new symbol_id side seq =
    map_result (λ t. record { id = t })
      (TradingId.new symbol_id (bit_or trading_md_type_order (side_md side)) seq)

unfoldable pub from_raw : ℕ → Result IdError OrderId
from_raw raw =
    let id = TradingId.from_raw raw in
    if not (bit_and (TradingId.metadata id) trading_md_type_mask == trading_md_type_order)
    then failure not_an_order
    else success (record { id = id })

unfoldable pub raw : OrderId → ℕ
raw o = TradingId.raw o.id

unfoldable pub symbol_id : OrderId → ℕ
symbol_id o = TradingId.symbol_id o.id

unfoldable pub side : OrderId → OrderSide
side o =
    if bit_and (TradingId.metadata o.id) order_md_side_mask == order_md_side_buy then buy else sell

unfoldable pub sequence : OrderId → ℕ
sequence o = TradingId.sequence o.id

-- OrderId::default: the unwrapped id, if `new` makes one
unfoldable pub default : Result IdError OrderId
unfolding new
default = new symbol_max buy sequence_max

-- The outcome of making an order id.
pub record OrderFields (s : ℕ) (b : OrderSide) (q : ℕ) (o : OrderId) : Type 0 where
  pub symbol_id_is : symbol_id o ≡ s
  pub side_is : side o ≡ b
  pub sequence_is : sequence o ≡ q
  pub reread : from_raw (raw o) ≡ success o

-- An order id made of a symbol id and a sequence number that fit their fields gives back the symbol
-- id, the side and the sequence number, and is read back from its raw value.
pub new-OrderFields :
    (s : ℕ) (b : OrderSide) (q : ℕ)
    → s < 2 ^ 20
    → q < 2 ^ 40
    → (o : OrderId) × (new s b q ≡ success o) × OrderFields s b q o
unfolding new symbol_id side sequence from_raw raw TradingId.from_raw TradingId.raw
new-OrderFields s buy q hs hq =
    let (id, e, f, _) = new-Fields s 2 q hs (omega arith) hq in
    (
      _,
      ap (map_result _) e,
      record {
        symbol_id_is = f.symbol_id_is;
        side_is = rw f.metadata_is refl;
        sequence_is = f.sequence_is;
        reread = rw f.metadata_is refl;
      },
    )
new-OrderFields s sell q hs hq =
    let (id, e, f, _) = new-Fields s 0 q hs (omega arith) hq in
    (
      _,
      ap (map_result _) e,
      record {
        symbol_id_is = f.symbol_id_is;
        side_is = rw f.metadata_is refl;
        sequence_is = f.sequence_is;
        reread = rw f.metadata_is refl;
      },
    )
