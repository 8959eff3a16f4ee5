-- ===== src/Server/Owner.antt =====
-- cancel_order of src/server/engine.rs: whose order is cancelled.
use mathlib.Core.Path.{subst}
use cixrs.Base.{
  ℕ, ◌≡◌, refl, ap, ◌∙◌, inl, inr, ◌≢◌, ◌==◌, ==_iff, Bool, false, Option, some, none, [], Ordering,
  Option-cases, Bool-cases, get_elem?, Result, success, failure, arith,
}
use cixrs.Run.{ok, Returns, returns, Returns-inv}
use cixrs.TradeTypes.OrderId.{OrderId, OrderSide}
use cixrs.TradeTypes.OrderId as OrderId
use cixrs.TradeTypes.ExecutionId.{ExecutionId}
use cixrs.TradeTypes.Symbol.{Symbol}
use cixrs.TradeTypes.Orders.{Order}
use cixrs.Book.Priority.{IsTimeOrder}
use cixrs.Book.Index.{Resting}
use cixrs.Book.Matcher.{OrderBook, Event, get_order}
use cixrs.Book.Matcher as Matcher
use cixrs.Book.Valid.{IsBook}
use cixrs.Book.Find.{Found, get_order-Found}
use cixrs.Book.Cancel.{Withdrawn, cancel_order-Withdrawn}
use cixrs.Server.Messages.{CancelOrderMessage, SessionMessage}
use cixrs.Server.Engine.{
  OrderEngine, EngineError, invalid_order_id, not_the_owner, find_book, symbol_eq, symbol_dirty,
  cancel_found, cancel_in, cancel_order,
}
use cixrs.Server.Books.{
  IsEngine, changed, changed-IsEngine, on_book-changed, find-store_book, find-store_book_other,
  append_none,
}

module _ {Time : Type 0} {time_cmp : Time → Time → Ordering} (t : IsTimeOrder time_cmp)
    (clock : ExecutionId → Time) (accepts : SessionMessage Time → Bool) where
  -- How a cancellation ends.
  pub data Ended (engine : OrderEngine Time) (msg : CancelOrderMessage)
      : Result EngineError (Unit {0}) → OrderEngine Time → Type 0 where
    unknown :
        get_elem? engine.symbols (OrderId.symbol_id msg.order_id) ≡ none
        → Ended engine msg (failure invalid_order_id) engine
    absent :
        (symbol : Symbol) (book : OrderBook Time) (h : IsBook time_cmp book)
        → get_elem? engine.symbols (OrderId.symbol_id msg.order_id) ≡ some symbol
        → find_book symbol engine.books ≡ some book
        → ((o : Order Time) → Resting o (h.tree (OrderId.side msg.order_id)) → o.id ≢ msg.order_id)
        → Ended engine msg (success tt) engine
    foreign :
        (symbol : Symbol) (book : OrderBook Time) (h : IsBook time_cmp book) (o : Order Time)
        → get_elem? engine.symbols (OrderId.symbol_id msg.order_id) ≡ some symbol
        → find_book symbol engine.books ≡ some book
        → Resting o (h.tree (OrderId.side msg.order_id))
        → o.id ≡ msg.order_id
        → o.user ≢ msg.user
        → Ended engine msg (failure not_the_owner) engine
    withdrawn :
        (symbol : Symbol) (book book' : OrderBook Time) (h : IsBook time_cmp book) (o : Order Time)
        (engine' : OrderEngine Time)
        → get_elem? engine.symbols (OrderId.symbol_id msg.order_id) ≡ some symbol
        → find_book symbol engine.books ≡ some book
        → Resting o (h.tree (OrderId.side msg.order_id))
        → o.id ≡ msg.order_id
        → o.user ≡ msg.user
        → Withdrawn t clock book h msg.order_id [] book'
        → find_book symbol engine'.books ≡ some book'
        → ((s : Symbol)
            → symbol_eq s symbol ≡ false
            → find_book s engine'.books ≡ find_book s engine.books)
        → engine'.events ≡ engine.events
        → engine'.responses ≡ engine.responses
        → IsEngine t clock accepts engine'
        → Ended engine msg (success tt) engine'

  cancel_found-Ended :
      (engine : OrderEngine Time) (msg : CancelOrderMessage) (symbol : Symbol)
      (book : OrderBook Time) (h : IsBook time_cmp book) (found : Option (Order Time))
      → IsEngine t clock accepts engine
      → get_elem? engine.symbols (OrderId.symbol_id msg.order_id) ≡ some symbol
      → find_book symbol engine.books ≡ some book
      → Found t clock (h.tree (OrderId.side msg.order_id)) msg.order_id found
      → Returns (Ended engine msg) (cancel_found time_cmp clock accepts symbol msg found engine)
  unfolding cancel_found symbol_dirty
  cancel_found-Ended engine msg symbol book h none e at fb f =
      returns (absent symbol book h at fb f)
  cancel_found-Ended engine msg symbol book h (some o) e at fb f =
      elim (Bool-cases (o.user == msg.user)) [
        | inr q ↦
            rw (cancel_found, q) (returns (foreign symbol book h o at fb f.0 f.1 (λ d. differ q d)))
        | inl q ↦
            (let (es, book', run, w) =
                Returns-inv (cancel_order-Withdrawn t clock book h msg.order_id) in
              let silent : Matcher.cancel_order time_cmp clock msg.order_id book ≡ ok [] book' =
                run ∙ ap (λ z. ok z book') w.silent in
              rw
                (
                  cancel_found,
                  q,
                  on_book-changed t clock accepts engine e symbol book book' fb w.book_ok []
                      (Matcher.cancel_order time_cmp clock msg.order_id) silent,
                )
                (returns (
                  withdrawn symbol book book' h o
                    (changed t clock accepts engine e symbol book book' fb w.book_ok []) at fb f.0
                    f.1 ((==_iff o.user msg.user).0 q)
                    (subst (λ z. Withdrawn t clock book h msg.order_id z book') w.silent w)
                    (find-store_book symbol book book' engine.books fb)
                    (λ s n. find-store_book_other s symbol book' engine.books n)
                    (append_none t clock accepts engine.events) refl
                    (changed-IsEngine t clock accepts engine e symbol book book' fb w.book_ok []))))
      ]
    where
      differ : {a b : ℕ} → (a == b) ≡ false → a ≡ b → ⊥
      differ q d = ground arith

  -- Where each of the engine's symbols has a book in order, processing a cancellation returns. An id of
  -- no symbol is refused. An id that rests on no book of the engine does nothing. The order of another
  -- user stays, and nothing changes. The user's own order is withdrawn from its book, every other
  -- book is as before, and each symbol's book is in order again.
  pub cancel_order-Ended :
      (engine : OrderEngine Time) (msg : CancelOrderMessage)
      → IsEngine t clock accepts engine
      → Returns (Ended engine msg) (cancel_order time_cmp clock accepts msg engine)
  unfolding cancel_order cancel_in
  cancel_order-Ended engine msg e =
      elim (Option-cases (get_elem? engine.symbols (OrderId.symbol_id msg.order_id))) [
        | inl n ↦ rw (cancel_order, n) (returns (unknown n))
        | inr (symbol, at) ↦
            (let (book, fb, h) = e symbol (OrderId.symbol_id msg.order_id) at in
              let (found, run, f) = get_order-Found t clock book h msg.order_id in
              rw (cancel_order, at, cancel_in, fb, run)
                (cancel_found-Ended engine msg symbol book h found e at fb f))
      ]
