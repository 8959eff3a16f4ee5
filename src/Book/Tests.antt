-- ===== src/Book/Tests.antt =====
-- Examples of src/libcix/book.rs, with numbers for times.
use cixrs.Book.Match.{Matching}
use cixrs.Base.{ℕ, ◌≡◌, refl, ◌⊎◌, ◌↔◌, true, List, [], ◌∷◌, compare, arith}
use cixrs.Run.{Run, Cmd, ok, panic, out_of_fuel, pure, ◌>>=◌, ◌>>◌, Returns}
use cixrs.Heap.{HeapHandle, TreeHeap, Pool, default_md, range_from, write}
use cixrs.Heap as Heap
use cixrs.Heap.Tree.{leaf, node, is_greater, is_less}
use cixrs.Heap.Order.{IsComparer}
use cixrs.TradeTypes.OrderId.{OrderSide, buy, sell}
use cixrs.TradeTypes.TradingId as TradingId
use cixrs.TradeTypes.Price.{key}
use cixrs.TradeTypes.Orders.{Order, id_eq}
use cixrs.Book.{lookup_get, compare_orders}
use cixrs.Book.Priority.{HasPrice, Better, compare_orders-priority, compare_orders-IsComparer}
use cixrs.Book.Side.{add_to_side, remove_order, new_side, has_order}
use cixrs.Book.Index.{IsSide}
use cixrs.Book.Laws.{Added, add_to_side-Added, Cancelled, remove_order-Cancelled, new_side-IsSide}
use cixrs.Book.Matcher.{
  OrderBook, Event, handle_match, ack_order, new, add_order, cancel_order, side_of,
}
use cixrs.Book.Valid.{IsBook}
use cixrs.Book.Place.{Placed, add_order-Placed}
use cixrs.Book.Cancel.{new-IsBook, Withdrawn, cancel_order-Withdrawn}
use cixrs.TradeTypes.Orders as Orders
use cixrs.Book.Samples.{
  nat_time, make_order, bid, one_side, one-IsSide, fresh_book, fresh-IsBook, fresh-CanPlace,
  one_book, one-IsBook,
}

abbrev higher_bid : Order ℕ
higher_bid = make_order 0x20000000002 buy 0x4026000000000000 20 6

abbrev ask : Order ℕ
ask = make_order 3 sell 0x4024000000000000 40 9

-- What a matcher reports: the quantities and prices that were exchanged.
exchanged : List (Event ℕ) → List (ℕ × ℕ)
exchanged [] = []
exchanged (handle_match e ∷ es) = (e.quantity, e.price.bits) ∷ exchanged es
exchanged (e ∷ es) = exchanged es

session : Cmd (OrderBook ℕ) (List (ℕ × ℕ))
unfolding add_order exchanged
session = do
  add_order compare (λ _. 0) bid
  add_order compare (λ _. 0) higher_bid
  es ← add_order compare (λ _. 0) ask
  pure (exchanged es)

outcome : Run (OrderBook ℕ) (List (ℕ × ℕ)) → List (ℕ × ℕ)
outcome (ok a s) = a
outcome panic = []
outcome out_of_fuel = []

better_price_first :
    outcome (session (new compare (λ _. 0) bid (record { s = [] }) 0))
    ≡ (20, 0x4026000000000000) ∷ (20, 0x4024000000000000) ∷ []
unfolding session new outcome TradingId.new
better_price_first = refl

compare_orders-IsComparer_example : IsComparer HasPrice (compare_orders {Time = ℕ} compare sell)
compare_orders-IsComparer_example = compare_orders-IsComparer nat_time sell

compare_orders-priority_example :
    is_greater (compare_orders compare buy higher_bid bid) ≡ true
    ↔ Better buy (key higher_bid.price) (key bid.price)
      ⊎ ((key higher_bid.price ≡ key bid.price)
          × (is_less (compare higher_bid.update bid.update) ≡ true))
compare_orders-priority_example = compare_orders-priority compare buy higher_bid bid refl refl

new_side-IsSide_example : IsSide compare buy (new_side compare bid) leaf
new_side-IsSide_example = new_side-IsSide nat_time buy bid

add_to_side-Added_example :
    Returns (λ _. Added nat_time buy leaf bid) (add_to_side compare buy bid (new_side compare bid))
unfolding new_side Heap.new has_order lookup_get
add_to_side-Added_example =
    add_to_side-Added nat_time buy (new_side compare bid) leaf 0 (range_from 1 1023) bid
      (new_side-IsSide nat_time buy bid) refl refl refl

remove_order-Cancelled_example :
    Returns
      (λ _. Cancelled nat_time buy one_side (node leaf 0 bid leaf) bid.id)
      (remove_order compare buy bid.id one_side)
remove_order-Cancelled_example =
    remove_order-Cancelled nat_time buy one_side (node leaf 0 bid leaf) bid.id one-IsSide

abbrev one_match : Matching ℕ
one_match = record { side = one_side; id_gen = record { symbol_id = 3; seq = 0 }; new_order = ask }

new-IsBook_example :
    (b : IsBook compare (new compare (λ _. 0) bid (record { s = [] }) 3)) × ((side : OrderSide)
      → b.tree side ≡ leaf)
new-IsBook_example = new-IsBook nat_time (λ _. 0) bid (record { s = [] }) 3 (omega arith)

add_order-Placed_example :
    Returns
      (λ events book'.
        ((has_order compare bid.id (side_of buy fresh_book) ≡ true)
          × (events ≡ ack_order bid.id Orders.duplicate_id ∷ [])
          × (book' ≡ fresh_book))
        ⊎ Placed nat_time (λ _. 0) buy fresh_book fresh-IsBook bid events book')
      (add_order compare (λ _. 0) bid fresh_book)
add_order-Placed_example =
    add_order-Placed nat_time (λ _. 0) fresh_book fresh-IsBook bid fresh-CanPlace

cancel_order-Withdrawn_example :
    Returns
      (Withdrawn nat_time (λ _. 0) one_book one-IsBook bid.id)
      (cancel_order compare (λ _. 0) bid.id one_book)
cancel_order-Withdrawn_example = cancel_order-Withdrawn nat_time (λ _. 0) one_book one-IsBook bid.id
