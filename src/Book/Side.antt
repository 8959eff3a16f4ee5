-- ===== src/Book/Side.antt =====
-- BookSide of src/libcix/book.rs: the orders of one side, by priority and by id.
use cixrs.Base.{Bool, true, false, Option, none, some, [], Ordering}
use cixrs.Run.{Cmd, pure, get_state, put_state, panics, ◌>>=◌, ◌>>◌, within}
use cixrs.Heap.{TreeHeap, HeapHandle, peek, get, insert, remove, update}
use cixrs.Heap as Heap
use cixrs.TradeTypes.OrderId.{OrderId, OrderSide}
use cixrs.TradeTypes.Orders.{Order}
use cixrs.TradeTypes.MarketData.{MdEntry}
use cixrs.Book.{lookup_get, lookup_remove, lookup_insert, BookSide, compare_orders}

module _ {Time : Type 0} (time_cmp : Time → Time → Ordering) where
  abbrev pub on_orders : {A : Type 0} → Cmd (TreeHeap (Order Time)) A → Cmd (BookSide Time) A
  on_orders = within (λ s. s.orders) (λ s h. record s { orders = h })

  -- BookSide::new, with the default order
  unfoldable pub new_side : Order Time → BookSide Time
  unfolding Heap.new
  new_side d = record { orders = Heap.new d 1024; lookup = [] }

  -- the order under a handle, if there is one
  unfoldable pub read_handle :
      OrderSide → Option HeapHandle → Cmd (BookSide Time) (Option (Order Time))
  unfolding get
  read_handle side none = pure none
  read_handle side (some h) = do o ← on_orders (get (compare_orders time_cmp side) h); pure (some o)

  -- BookSide::get_order
  unfoldable pub find_order : OrderSide → OrderId → Cmd (BookSide Time) (Option (Order Time))
  unfolding lookup_get read_handle
  find_order side order s = read_handle side (lookup_get order s.lookup) s

  unfoldable pub remove_found :
      OrderSide → OrderId → Option HeapHandle → Cmd (BookSide Time) (Unit {0})
  unfolding lookup_remove remove compare_orders
  remove_found side order none = pure tt
  remove_found side order (some h) = do
    s ← get_state
    put_state (record s { lookup = lookup_remove order s.lookup })
    on_orders (remove (compare_orders time_cmp side) h)

  unfoldable pub remove_order : OrderSide → OrderId → Cmd (BookSide Time) (Unit {0})
  unfolding lookup_get remove_found
  remove_order side order s = remove_found side order (lookup_get order s.lookup) s

  unfoldable pub top_order : OrderSide → Cmd (BookSide Time) (Option MdEntry)
  unfolding peek read_handle
  top_order side = do
    s ← get_state
    top ← read_handle side (peek s.orders)
    elim top [
      | none ↦ pure none
      | some order ↦ pure (some (record { price = order.price; quantity = order.quantity }))
    ]

  unfoldable pub has_order : OrderId → BookSide Time → Bool
  unfolding lookup_get
  has_order id s = elim (lookup_get id s.lookup) [ none ↦ false | some h ↦ true ]

  -- BookSide::add_order: the unwrap panics when the heap is full
  unfoldable pub add_to_side : OrderSide → Order Time → Cmd (BookSide Time) HeapHandle
  unfolding insert compare_orders lookup_insert
  add_to_side side new_order = do
    o ← on_orders (insert (compare_orders time_cmp side) new_order)
    elim o [
      | none ↦ panics
      | some handle ↦ (do
        s ← get_state
        put_state (record s { lookup = lookup_insert new_order.id handle s.lookup })
        pure handle)
    ]
