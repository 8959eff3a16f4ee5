-- ===== src/Server/Entered.antt =====
-- new_order of src/server/engine.rs: an order that comes to its symbol's book.
use mathlib.Core.Path.{subst}
use cixrs.Base.{
  ◌≡◌, refl, sym, ◌⊎◌, inl, inr, true, false, Bool, some, List, [], ◌∷◌, ◌++◌, Ordering, Result,
  success,
}
use cixrs.Run.{Returns, returns, Returns-inv}
use cixrs.TradeTypes.ExecutionId.{ExecutionId}
use cixrs.TradeTypes.Symbol.{Symbol}
use cixrs.TradeTypes.Orders.{Order}
use cixrs.TradeTypes.Orders as Orders
use cixrs.Book.Priority.{IsTimeOrder}
use cixrs.Book.Side.{has_order}
use cixrs.Book.Matcher.{OrderBook, Event, ack_order, side_of}
use cixrs.Book.Matcher as Matcher
use cixrs.Book.Valid.{IsBook}
use cixrs.Book.Place.{CanPlace, Placed, add_order-Placed}
use cixrs.Server.Messages.{NewOrderMessage, SessionMessage}
use cixrs.Server.Engine.{
  OrderEngine, EngineError, find_book, symbol_eq, listed_symbol, symbol_dirty, new_order,
}
use cixrs.Server.Books.{
  IsEngine, changed-IsEngine, on_book-changed, find-store_book, find-store_book_other, marked,
}

-- The order that a message asks for.
abbrev pub order_of : {Time : Type 0} → Time → NewOrderMessage → Order Time
order_of now msg = record {
  id = msg.order_id;
  user = msg.user;
  symbol = msg.symbol;
  side = msg.side;
  price = msg.price;
  quantity = msg.quantity;
  update = now;
}

module _ {Time : Type 0} {time_cmp : Time → Time → Ordering} (t : IsTimeOrder time_cmp)
    (clock : ExecutionId → Time) (accepts : SessionMessage Time → Bool) where
  -- How a new order ends, for the book of its symbol: the book takes it or refuses its id, the calls of
  -- the handler are kept after the former ones, and the rest of the engine is as before.
  pub record Entered (engine : OrderEngine Time) (order : Order Time) (book : OrderBook Time)
      (h : IsBook time_cmp book) (r : Result EngineError (Unit {0})) (engine' : OrderEngine Time)
      : Type 0 where
    pub taken : r ≡ success tt
    pub book' : OrderBook Time
    pub calls : List (Event Time)
    pub placed :
        ((has_order time_cmp order.id (side_of order.side book) ≡ true)
          × (calls ≡ ack_order order.id Orders.duplicate_id ∷ [])
          × (book' ≡ book))
        ⊎ Placed t clock order.side book h order calls book'
    pub stored : find_book order.symbol engine'.books ≡ some book'
    pub others :
        (s : Symbol)
        → symbol_eq s order.symbol ≡ false
        → find_book s engine'.books ≡ find_book s engine.books
    pub events : engine'.events ≡ engine.events ++ calls
    pub responses : engine'.responses ≡ engine.responses
    pub dirty : listed_symbol order.symbol engine'.dirty_symbols ≡ true
    pub engine_ok : IsEngine t clock accepts engine'

  -- Where each of the engine's symbols has a book in order, processing a new order for one of them
  -- returns, if the order's price is a number, its quantity is positive, its side has a free slot
  -- and there are ids for the executions: the symbol's book takes it as add_order does and the handler
  -- is called accordingly, the symbol is marked as dirty, every other book is as before, and each
  -- symbol's book is in order again.
  pub new_order-Entered :
      (engine : OrderEngine Time) (now : Time) (msg : NewOrderMessage) (book : OrderBook Time)
      (h : IsBook time_cmp book)
      → IsEngine t clock accepts engine
      → find_book msg.symbol engine.books ≡ some book
      → CanPlace t clock msg.side book (order_of now msg)
      → Returns
          (Entered engine (order_of now msg) book h)
          (new_order time_cmp clock accepts now msg engine)
  unfolding new_order symbol_dirty
  new_order-Entered engine now msg book h e fb c =
      let order : Order Time = order_of now msg in
      let (es, book', run, w) = Returns-inv (add_order-Placed t clock book h order c) in
      let h' : IsBook time_cmp book' = in_order w in
      rw
        (on_book-changed t clock accepts engine e msg.symbol book book' fb h' es
          (Matcher.add_order time_cmp clock order) run)
        (returns (record {
          taken = refl;
          book' = book';
          calls = es;
          placed = w;
          stored = find-store_book msg.symbol book book' engine.books fb;
          others = λ s n. find-store_book_other s msg.symbol book' engine.books n;
          events = refl;
          responses = refl;
          dirty = marked msg.symbol engine.dirty_symbols;
          engine_ok = changed-IsEngine t clock accepts engine e msg.symbol book book' fb h' es;
        }))
    where
      in_order :
          {es : List (Event Time)} {book' : OrderBook Time} {duplicate called : Type 0}
          → (duplicate × called × (book' ≡ book))
            ⊎ Placed t clock msg.side book h (order_of now msg) es book'
          → IsBook time_cmp book'
      in_order (inl (_, _, q)) = subst (IsBook time_cmp) (sym q) h
      in_order (inr p) = p.book_ok
