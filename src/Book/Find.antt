-- ===== src/Book/Find.antt =====
-- OrderBook::get_order and BookSide::get_order of src/libcix/book.rs.
use cixrs.Base.{◌≡◌, refl, ap, inl, inr, ◌≢◌, Option, some, none, Ordering, Option-cases}
use cixrs.Run.{ok}
use cixrs.Heap.{HeapHandle}
use cixrs.Heap.Tree.{Tree}
use cixrs.Heap.Views.{get-Holds}
use cixrs.TradeTypes.OrderId.{OrderId, OrderSide, buy, sell}
use cixrs.TradeTypes.OrderId as OrderId
use cixrs.TradeTypes.ExecutionId.{ExecutionId}
use cixrs.TradeTypes.Orders.{Order}
use cixrs.Book.{BookSide, lookup_get}
use cixrs.Book.Priority.{IsTimeOrder, compare_orders-IsComparer}
use cixrs.Book.Index.{IsSide, Resting}
use cixrs.Book.Side.{find_order, read_handle}
use cixrs.Book.Matcher.{OrderBook, side_of, with_side, get_order}
use cixrs.Book.Valid.{IsBook}

module _ {Time : Type 0} {time_cmp : Time → Time → Ordering} (t : IsTimeOrder time_cmp)
    (clock : ExecutionId → Time) where
  -- What looking an id up among the orders of a tree gives.
  abbrev pub Found : Tree (Order Time) → OrderId → Option (Order Time) → Type 0
  Found u id none = (o : Order Time) → Resting o u → o.id ≢ id
  Found u id (some o) = Resting o u × (o.id ≡ id)

  find_order-Found :
      (d : OrderSide) (s : BookSide Time) (u : Tree (Order Time)) (id : OrderId)
      → IsSide time_cmp d s u
      → (found : Option (Order Time)) × (find_order time_cmp d id s ≡ ok found s) × Found u id found
  unfolding find_order read_handle
  find_order-Found d s u id h = elim (Option-cases (lookup_get id s.lookup)) [
    | inl e ↦
        (none, rw (find_order, e) refl, (λ o (x, k) q. clash ((h.indexed id x).1 (o, k, q)) e))
    | inr (a, e) ↦
        (let (o, k, q) = (h.indexed id a.index).0 e in
          (
            some o,
            rw
                (
                  find_order,
                  e,
                  get-Holds (compare_orders-IsComparer t d) s.orders u a.index o h.valid k,
                )
                refl,
            ((a.index, k), q),
          ))
  ]
    where
      clash : {l : Option HeapHandle} {b : HeapHandle} → l ≡ some b → l ≡ none → ⊥
      clash k e = cc

  kept : (d : OrderSide) (book : OrderBook Time) → with_side d book (side_of d book) ≡ book
  kept buy book = refl
  kept sell book = refl

  -- Looking an id up on a book in order returns and changes nothing: it gives an order of this id that
  -- rests on the side that the id names, or none if there is none.
  pub get_order-Found :
      (book : OrderBook Time) (h : IsBook time_cmp book) (id : OrderId)
      → (found : Option (Order Time)) × (get_order time_cmp clock id book ≡ ok found book)
        × Found (h.tree (OrderId.side id)) id found
  unfolding get_order
  get_order-Found book h id =
      let d = OrderId.side id in
      let (found, run, f) = find_order-Found d (side_of d book) (h.tree d) id (h.side_ok d) in
      (found, rw run (ap (ok found) (kept d book)), f)
