-- ===== src/Book/Cancel.antt =====
-- BasicMatcher::cancel_order and OrderBook::new of src/libcix/book.rs.
use mathlib.Core.Path.{subst}
use cixrs.Base.{ℕ, ◌^◌, ◌<◌, ◌≡◌, refl, sym, ap, ◌∙◌, ◌↔◌, ◌≢◌, List, [], Ordering}
use cixrs.Run.{ok, Returns, returns, Returns-inv}
use cixrs.Heap.Tree.{leaf}
use cixrs.TradeTypes.OrderId.{OrderId, OrderSide, buy, sell}
use cixrs.TradeTypes.OrderId as OrderId
use cixrs.TradeTypes.ExecutionId.{ExecutionId}
use cixrs.TradeTypes.Symbol.{Symbol}
use cixrs.TradeTypes.Orders.{Order}
use cixrs.Book.{BookSide, new_generator}
use cixrs.Book.Priority.{IsTimeOrder}
use cixrs.Book.Index.{IsSide, Resting}
use cixrs.Book.Laws.{remove_order-Cancelled, new_side-IsSide}
use cixrs.Book.Matcher.{OrderBook, Event, side_of, with_side, opposite, cancel_order, new}
use cixrs.Book.Valid.{IsBook, rebuilt, rebuilt-IsBook, sides-own, sides-opposite}

module _ {Time : Type 0} {time_cmp : Time → Time → Ordering} (t : IsTimeOrder time_cmp)
    (clock : ExecutionId → Time) where
  as_rebuilt :
      (d : OrderSide) (book : OrderBook Time) (s : BookSide Time)
      → rebuilt time_cmp t d book (side_of (opposite d) book) s book.id_gen book.last_exec
        ≡ with_side d book s
  as_rebuilt buy book s = refl
  as_rebuilt sell book s = refl

  -- The outcome of a cancellation.
  pub record Withdrawn (book : OrderBook Time) (h : IsBook time_cmp book) (id : OrderId)
      (events : List (Event Time)) (book' : OrderBook Time) : Type 0 where
    pub silent : events ≡ []
    pub book_ok : IsBook time_cmp book'
    pub own :
        (o : Order Time)
        → Resting o (book_ok.tree (OrderId.side id))
          ↔ (Resting o (h.tree (OrderId.side id)) × (o.id ≢ id))
    pub far : book_ok.tree (opposite (OrderId.side id)) ≡ h.tree (opposite (OrderId.side id))

  -- Cancelling an id on a book in order returns and calls no handler. On the side that the id names
  -- exactly the orders of other ids still rest; the other side is as before; and the book is in order.
  pub cancel_order-Withdrawn :
      (book : OrderBook Time) (h : IsBook time_cmp book) (id : OrderId)
      → Returns (Withdrawn book h id) (cancel_order time_cmp clock id book)
  unfolding cancel_order
  cancel_order-Withdrawn book h id =
      let d = OrderId.side id in
      let (_, s, run, c) =
        Returns-inv (remove_order-Cancelled t d (side_of d book) (h.tree d) id (h.side_ok d)) in
      let (b, e) =
        rebuilt-IsBook time_cmp t d book (side_of (opposite d) book) s book.id_gen book.last_exec
          c.tree (h.tree (opposite d)) c.side_ok (h.side_ok (opposite d))
          (λ o k. h.positive d o ((c.resting o).0 k).0) (h.positive (opposite d))
          (λ x y k q. h.uncrossed d x y ((c.resting x).0 k).0 q) h.symbol_id in
      let near : b.tree d ≡ c.tree = ap (λ f. f d) e ∙ sides-own c.tree (h.tree (opposite d)) d in
      rw run (
        subst (λ z. Returns (Withdrawn book h id) (ok [] z)) (as_rebuilt d book s)
          (returns (record {
            silent = refl;
            book_ok = b;
            own = λ o.
                subst (λ w. Resting o w ↔ (Resting o (h.tree d) × (o.id ≢ id))) (sym near)
                  (c.resting o);
            far = ap (λ f. f (opposite d)) e ∙ sides-opposite c.tree (h.tree (opposite d)) d;
          })))

  -- A new book for a symbol id of 20 bits is in order, and no order rests on it.
  pub new-IsBook :
      (d : Order Time) (symbol : Symbol) (symbol_id : ℕ)
      → symbol_id < 2 ^ 20
      → (b : IsBook time_cmp (new time_cmp clock d symbol symbol_id)) × ((side : OrderSide)
          → b.tree side ≡ leaf)
  unfolding new new_generator
  new-IsBook d symbol symbol_id h = (
    record {
      tree = λ _. leaf;
      side_ok = fresh;
      positive = λ _ o r. absurd (r.1);
      uncrossed = λ _ x y p q. absurd (p.1);
      symbol_id = h;
    },
    λ side. refl,
  )
    where
      fresh :
          (side : OrderSide)
          → IsSide time_cmp side (side_of side (new time_cmp clock d symbol symbol_id)) leaf
      fresh buy = new_side-IsSide t buy d
      fresh sell = new_side-IsSide t sell d
