-- ===== src/TradeTypes/MarketData.antt =====
-- The market data types of src/libcix/order.rs.
use cixrs.Base.{
  ℕ, suc, ◌-◌, ◌≤◌, ◌≡◌, refl, arith, min, Option, List, [], ◌∷◌, ◌++◌, length, take, replicate,
}
use cixrs.TradeTypes.Price.{Price, price_zero}
use cixrs.TradeTypes.Symbol.{Symbol, overwrite}
use cixrs.TradeTypes.Orders.{Execution}

abbrev pub l2_md_depth : ℕ
l2_md_depth = 5

pub record MdEntry : Type 0 where
  pub price : Price
  pub quantity : ℕ

-- MdEntry::default
abbrev pub default_entry : MdEntry
default_entry = record { price = price_zero; quantity = 0 }

pub record MdExecution (Time : Type 0) : Type 0 where
  pub symbol : Symbol
  pub price : Price
  pub quantity : ℕ
  pub ts : Time

-- MdExecution::from
unfoldable pub md_execution : {Time : Type 0} → Execution Time → MdExecution Time
md_execution e = record { symbol = e.symbol; price = e.price; quantity = e.quantity; ts = e.ts }

pub record L1Md (Time : Type 0) : Type 0 where
  pub symbol : Symbol
  pub bid : Option MdEntry
  pub ask : Option MdEntry
  pub last : Option (MdExecution Time)

-- `entries` stands for an array of five.
pub record L2MdSide : Type 0 where
  pub entries : List MdEntry
  pub n_entry : ℕ

pub record L2Md (Time : Type 0) : Type 0 where
  pub symbol : Symbol
  pub bids : L2MdSide
  pub asks : L2MdSide
  pub last : Option (MdExecution Time)

-- L2MdSide::from. The iterator is cut to five entries, so five defaults are enough of the repetition.
unfoldable pub l2_md_side : List MdEntry → L2MdSide
l2_md_side entry_vec =
    let size = min (length entry_vec) l2_md_depth in
    let entries = take l2_md_depth (entry_vec ++ replicate l2_md_depth default_entry) in
    record {
      entries = overwrite (replicate l2_md_depth default_entry) (take (l2_md_depth - 1) entries);
      n_entry = size;
    }

-- L2MdSide::iter
unfoldable pub iter : L2MdSide → List MdEntry
iter side = take side.n_entry side.entries

-- Up to four price levels are passed on as they are; the slice copied is one short, so of five or
-- more, the first four are followed by an empty entry in the place of the fifth.
pub iter-l2_md_side :
    (levels : List MdEntry)
    → (length levels ≤ 4 → iter (l2_md_side levels) ≡ levels)
      × (5 ≤ length levels → iter (l2_md_side levels) ≡ take 4 levels ++ (default_entry ∷ []))
unfolding iter l2_md_side
iter-l2_md_side [] = ((λ h. refl), (λ h. absurd (omega arith)))
iter-l2_md_side (a ∷ []) = ((λ h. refl), (λ h. absurd (omega arith)))
iter-l2_md_side (a ∷ b ∷ []) = ((λ h. refl), (λ h. absurd (omega arith)))
iter-l2_md_side (a ∷ b ∷ c ∷ []) = ((λ h. refl), (λ h. absurd (omega arith)))
iter-l2_md_side (a ∷ b ∷ c ∷ d ∷ []) = ((λ h. refl), (λ h. absurd (omega arith)))
iter-l2_md_side (a ∷ b ∷ c ∷ d ∷ e ∷ es) =
    let m : min (suc (suc (suc (suc (suc (length es)))))) 5 ≡ 5 = omega arith in
    ((λ h. absurd (omega arith)), (λ h. rw m refl))
