-- ===== src/TradeTypes/ExecutionId.antt =====
-- ExecutionId of src/libcix/order.rs.
use cixrs.Base.{
  ℕ, ◌^◌, ◌<◌, bit_and, ◌≡◌, refl, ap, ◌==◌, not, if◌then◌else◌, arith, Result, success, failure,
  map_result,
}
use cixrs.TradeTypes.TradingId.{
  TradingId, IdError, not_an_execution, not_an_order, symbol_max, sequence_max, Fields, new-Fields,
}
use cixrs.TradeTypes.TradingId as TradingId
use cixrs.TradeTypes.OrderId.{trading_md_type_mask}
use cixrs.TradeTypes.OrderId as OrderId

pub record ExecutionId : Type 0 where
  pub id : TradingId

abbrev pub trading_md_type_exec : ℕ
trading_md_type_exec = 1

unfoldable pub new : ℕ → ℕ → Result IdError ExecutionId
new symbol_id seq =
    map_result (λ t. record { id = t }) (TradingId.new symbol_id trading_md_type_exec seq)

unfoldable pub from_raw : ℕ → Result IdError ExecutionId
from_raw raw =
    let id = TradingId.from_raw raw in
    if not (bit_and (TradingId.metadata id) trading_md_type_mask == trading_md_type_exec)
    then failure not_an_execution
    else success (record { id = id })

unfoldable pub raw : ExecutionId → ℕ
raw e = TradingId.raw e.id

unfoldable pub symbol_id : ExecutionId → ℕ
symbol_id e = TradingId.symbol_id e.id

unfoldable pub sequence : ExecutionId → ℕ
sequence e = TradingId.sequence e.id

-- ExecutionId::default
unfoldable pub default : Result IdError ExecutionId
unfolding new
default = new symbol_max sequence_max

-- The outcome of making an execution id.
pub record ExecutionFields (s q : ℕ) (e : ExecutionId) : Type 0 where
  pub symbol_id_is : symbol_id e ≡ s
  pub sequence_is : sequence e ≡ q
  pub reread : from_raw (raw e) ≡ success e
  pub no_order : OrderId.from_raw (raw e) ≡ failure not_an_order

-- An execution id made of a symbol id and a sequence number that fit their fields gives both back, is
-- read back from its raw value, and its raw value is refused as an order id.
pub new-ExecutionFields :
    (s q : ℕ)
    → s < 2 ^ 20
    → q < 2 ^ 40
    → (e : ExecutionId) × (new s q ≡ success e) × ExecutionFields s q e
unfolding new symbol_id sequence from_raw raw TradingId.from_raw TradingId.raw OrderId.from_raw
new-ExecutionFields s q hs hq =
    let (id, e, f, _) = new-Fields s 1 q hs (omega arith) hq in
    (
      _,
      ap (map_result _) e,
      record {
        symbol_id_is = f.symbol_id_is;
        sequence_is = f.sequence_is;
        reread = rw f.metadata_is refl;
        no_order = rw f.metadata_is refl;
      },
    )
