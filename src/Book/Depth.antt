-- ===== src/Book/Depth.antt =====
-- BookSide::get_l2_data of src/libcix/book.rs: the price levels of one side, best first.
use cixrs.Base.{
  ℕ, zero, suc, ◌+◌, ◌^◌, ltb, leb, not, ◌||◌, none, some, List, [], ◌∷◌, ◌++◌, length, Ordering,
  if◌then◌else◌,
}
use cixrs.Run.{Cmd, ok, panic, out_of_fuel, pure, assert, ◌>>=◌, ◌>>◌}
use cixrs.Heap.Iterator.{HeapIterator, iterate, next}
use cixrs.TradeTypes.OrderId.{OrderSide}
use cixrs.TradeTypes.Price.{gt, price_eq, price_zero, minus_one}
use cixrs.TradeTypes.Orders.{Order}
use cixrs.TradeTypes.MarketData.{MdEntry, default_entry}
use cixrs.Book.{BookSide, compare_orders}

module _ {Time : Type 0} (time_cmp : Time → Time → Ordering) where
  -- the price level that is open goes out, unless it is the -1 of the start
  unfoldable pub close_level : MdEntry → List MdEntry → List MdEntry
  unfolding gt
  close_level entry results = if gt entry.price price_zero then results ++ (entry ∷ []) else results

  -- The loop of get_l2_data. The sum of quantities is a u32, and panics on an overflow.
  unfoldable pub l2_levels :
      OrderSide → ℕ → ℕ → MdEntry → List MdEntry → Cmd (HeapIterator (Order Time)) (List MdEntry)
  unfolding next compare_orders close_level price_eq
  l2_levels side zero depth entry results = λ _. out_of_fuel
  l2_levels side (suc k) depth entry results = do
    item ← next (compare_orders time_cmp side)
    elim item [
      | none ↦ pure (close_level entry results)
      | some o ↦
          (let same = price_eq entry.price o.price in
            let sum = entry.quantity + o.quantity in
            let entry' : MdEntry =
              if same
              then record entry { quantity = sum }
              else record { price = o.price; quantity = o.quantity } in
            let results' = if same then results else close_level entry results in
            do
              assert (not same || ltb sum (2 ^ 32))
              if leb depth (length results')
                  then pure results'
                  else l2_levels side k depth entry' results')
    ]

  -- `d` is the default order, for the iterator's own heap
  unfoldable pub get_l2_data : OrderSide → Order Time → ℕ → Cmd (BookSide Time) (List MdEntry)
  unfolding iterate l2_levels compare_orders
  get_l2_data side d depth s = elim (iterate (compare_orders time_cmp side) d s.orders) [
    | panic ↦ panic
    | out_of_fuel ↦ out_of_fuel
    | ok _ it ↦
        (elim (l2_levels side (s.orders.pool_len + 1) depth
          (record default_entry { price = minus_one }) [] it) [
            | panic ↦ panic
            | out_of_fuel ↦ out_of_fuel
            | ok levels _ ↦ ok levels s
          ])
  ]
