-- ===== src/Book/Match.antt =====
-- BookSide::match_order of src/libcix/book.rs: a new order against the opposite side.
use cixrs.Base.{
  ℕ, zero, suc, ◌-◌, min, ◌==◌, not, none, some, List, Option, [], ◌∷◌, Ordering, if◌then◌else◌,
}
use cixrs.Run.{Cmd, out_of_fuel, pure, get_state, put_state, assert, ◌>>=◌, ◌>>◌, within}
use cixrs.Heap.{HeapHandle, peek, get, update}
use cixrs.TradeTypes.OrderId.{OrderSide}
use cixrs.TradeTypes.ExecutionId.{ExecutionId}
use cixrs.TradeTypes.Orders.{Order, Execution}
use cixrs.Book.{
  ExecutionIdGenerator, next_id, BookSide, does_cross, compare_orders, create_execution,
}
use cixrs.Book.Side.{on_orders, remove_order}

-- what match_order changes of the book: the opposite side, the shared generator and the new order
pub record Matching (Time : Type 0) : Type 0 where
  pub side : BookSide Time
  pub id_gen : ExecutionIdGenerator
  pub new_order : Order Time

module _ {Time : Type 0} (time_cmp : Time → Time → Ordering) (clock : ExecutionId → Time) where
  abbrev pub on_side : {A : Type 0} → Cmd (BookSide Time) A → Cmd (Matching Time) A
  on_side = within (λ m. m.side) (λ m s. record m { side = s })

  abbrev pub on_id_gen : {A : Type 0} → Cmd ExecutionIdGenerator A → Cmd (Matching Time) A
  on_id_gen = within (λ m. m.id_gen) (λ m g. record m { id_gen = g })

  abbrev pub reduce : ℕ → Order Time → Order Time
  reduce quantity order = record order { quantity = order.quantity - quantity }

  -- An execution with the order at the top of the side, from the quantity on: the generator's id, the
  -- new order and the top order reduced, the top order removed when nothing of it remains.
  unfoldable pub execute :
      OrderSide → HeapHandle → Order Time → ℕ → Cmd (Matching Time) (Execution Time)
  unfolding next_id create_execution update get compare_orders remove_order
  execute side handle book_order quantity = do
    m ← get_state
    exec_id ← on_id_gen next_id
    let ex = create_execution clock side exec_id m.new_order book_order quantity
    m1 ← get_state
    put_state (record m1 { new_order = reduce quantity m1.new_order })
    on_side (on_orders time_cmp (update (compare_orders time_cmp side) (reduce quantity) handle))
    left ← on_side (on_orders time_cmp (get (compare_orders time_cmp side) handle))
    if left.quantity == 0 then on_side (remove_order time_cmp side left.id) else pure tt
    pure ex

  -- One turn of the loop of match_order; `again` is the rest of the loop.
  unfoldable pub match_step :
      OrderSide
      → Cmd (Matching Time) (List (Execution Time))
      → Option HeapHandle
      → Cmd (Matching Time) (List (Execution Time))
  unfolding get compare_orders does_cross execute
  match_step side again none = pure []
  match_step side again (some handle) = do
    book_order ← on_side (on_orders time_cmp (get (compare_orders time_cmp side) handle))
    m ← get_state
    if not (does_cross side m.new_order book_order) then pure [] else (do
      let quantity = min m.new_order.quantity book_order.quantity
      assert (not (quantity == 0))
      ex ← execute side handle book_order quantity
      m2 ← get_state
      if m2.new_order.quantity == 0 then pure (ex ∷ []) else (do rest ← again; pure (ex ∷ rest)))

  -- The loop of match_order. Every turn but the last removes an order of the side.
  unfoldable pub match_order : OrderSide → ℕ → Cmd (Matching Time) (List (Execution Time))
  unfolding peek match_step
  match_order side zero = λ _. out_of_fuel
  match_order side (suc k) = λ m. match_step side (match_order side k) (peek m.side.orders) m
