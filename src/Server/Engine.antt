-- ===== src/Server/Engine.antt =====
-- OrderEngine of src/server/engine.rs (but get_open_orders, process_message and publish_md), with the BasicMatcher.
-- A HashMap is an association list and a HashSet a list. The messages sent to the responder and the calls
-- of the handler are kept in the state in their order; `accepts` tells whether the responder's
-- channel takes a message. `now` is the time that is read while a message is processed.
use cixrs.Base.{
  ℕ, suc, ◌==◌, not, Bool, true, false, ◌&&◌, Option, none, some, List, [], ◌∷◌, ◌++◌, get_elem?,
  Result, success, failure, Ordering, if◌then◌else◌,
}
use cixrs.Run.{Cmd, ok, panic, out_of_fuel, pure, ◌>>◌}
use cixrs.TradeTypes.OrderId.{OrderId, buy, sell}
use cixrs.TradeTypes.OrderId as OrderId
use cixrs.TradeTypes.ExecutionId.{ExecutionId}
use cixrs.TradeTypes.Symbol.{Symbol}
use cixrs.TradeTypes.Orders.{Order}
use cixrs.Book.Matcher.{OrderBook, Event, get_order}
use cixrs.Book.Matcher as Matcher
use cixrs.Server.Messages.{
  NewOrderMessage, CancelOrderMessage, SessionMessage, serialization_response,
}

abbrev pub bytes_eq : List ℕ → List ℕ → Bool
bytes_eq [] [] = true
bytes_eq [] (y ∷ ys) = false
bytes_eq (x ∷ xs) [] = false
bytes_eq (x ∷ xs) (y ∷ ys) = (x == y) && bytes_eq xs ys

-- the derived equality of Symbol
abbrev pub symbol_eq : Symbol → Symbol → Bool
symbol_eq a b = bytes_eq a.s b.s

-- the strings of the engine's errors
pub data EngineError : Type 0 where
  duplicate_symbol : EngineError
  invalid_order_id : EngineError
  not_the_owner : EngineError
  serialization_failed : EngineError
  open_orders_failed : EngineError

abbrev pub Books : Type 0 → Type 0
Books Time = List (Symbol × OrderBook Time)

unfoldable pub find_book : {Time : Type 0} → Symbol → Books Time → Option (OrderBook Time)
find_book symbol [] = none
find_book symbol (e ∷ es) = if symbol_eq symbol e.0 then some e.1 else find_book symbol es

unfoldable pub store_book : {Time : Type 0} → Symbol → OrderBook Time → Books Time → Books Time
store_book symbol book [] = []
store_book symbol book (e ∷ es) =
    if symbol_eq symbol e.0 then (e.0, book) ∷ es else e ∷ store_book symbol book es

pub record OrderEngine (Time : Type 0) : Type 0 where
  pub symbols : List Symbol
  pub dirty_symbols : List Symbol
  pub books : Books Time
  pub responses : List (SessionMessage Time)
  pub events : List (Event Time)

unfoldable pub listed_symbol : Symbol → List Symbol → Bool
listed_symbol symbol [] = false
listed_symbol symbol (s ∷ ss) = if symbol_eq symbol s then true else listed_symbol symbol ss

module _ {Time : Type 0} (time_cmp : Time → Time → Ordering) (clock : ExecutionId → Time)
    (accepts : SessionMessage Time → Bool) where
  -- the books of OrderEngine::new: one for each symbol, its index the symbol's id
  unfoldable pub make_books :
      Order Time → ℕ → List Symbol → Books Time → Result EngineError (Books Time)
  unfolding listed_symbol find_book Matcher.new
  make_books d i [] books = success books
  make_books d i (symbol ∷ rest) books = elim (find_book symbol books) [
    | some b ↦ failure duplicate_symbol
    | none ↦
        make_books d (suc i) rest (books ++ ((symbol, Matcher.new time_cmp clock d symbol i) ∷ []))
  ]

  -- OrderEngine::new, with the default order
  unfoldable pub new : Order Time → List Symbol → Result EngineError (OrderEngine Time)
  unfolding make_books
  new d symbols = elim (make_books d 0 symbols []) [
    | failure e ↦ failure e
    | success books ↦ success (record {
      symbols = symbols;
      dirty_symbols = [];
      books = books;
      responses = [];
      events = [];
    })
  ]

  -- a command on the book of a symbol, which must exist; the handler's calls are kept
  unfoldable pub on_book :
      Symbol → Cmd (OrderBook Time) (List (Event Time)) → Cmd (OrderEngine Time) (Unit {0})
  unfolding find_book store_book
  on_book symbol m engine = elim (find_book symbol engine.books) [
    | none ↦ panic
    | some book ↦ (elim (m book) [
      | panic ↦ panic
      | out_of_fuel ↦ out_of_fuel
      | ok es book' ↦ ok tt (record engine {
        books = store_book symbol book' engine.books;
        events = engine.events ++ es;
      })
    ])
  ]

  unfoldable pub symbol_dirty : Symbol → Cmd (OrderEngine Time) (Unit {0})
  unfolding listed_symbol
  symbol_dirty symbol engine = ok tt (record engine {
    dirty_symbols =
        if listed_symbol symbol engine.dirty_symbols
        then engine.dirty_symbols
        else symbol ∷ engine.dirty_symbols;
  })

  unfoldable pub new_order :
      Time → NewOrderMessage → Cmd (OrderEngine Time) (Result EngineError (Unit {0}))
  unfolding on_book symbol_dirty Matcher.add_order
  new_order now msg = do
    let order : Order Time = record {
      id = msg.order_id;
      user = msg.user;
      symbol = msg.symbol;
      side = msg.side;
      price = msg.price;
      quantity = msg.quantity;
      update = now;
    }
    on_book msg.symbol (Matcher.add_order time_cmp clock order)
    symbol_dirty msg.symbol
    pure (success tt)

  -- the owner of the order that is to be cancelled decides
  unfoldable pub cancel_found :
      Symbol
      → CancelOrderMessage
      → Option (Order Time)
      → Cmd (OrderEngine Time) (Result EngineError (Unit {0}))
  unfolding on_book symbol_dirty Matcher.cancel_order
  cancel_found symbol msg none = pure (success tt)
  cancel_found symbol msg (some order) =
      if not (order.user == msg.user) then pure (failure not_the_owner) else (do
        on_book symbol (Matcher.cancel_order time_cmp clock msg.order_id)
        symbol_dirty symbol
        pure (success tt))

  -- the symbol of the order's id, and its book, which must exist
  unfoldable pub cancel_in :
      CancelOrderMessage → Option Symbol → Cmd (OrderEngine Time) (Result EngineError (Unit {0}))
  unfolding find_book get_order cancel_found
  cancel_in msg none = pure (failure invalid_order_id)
  cancel_in msg (some symbol) = λ engine. elim (find_book symbol engine.books) [
    | none ↦ panic
    | some book ↦ (elim (get_order time_cmp clock msg.order_id book) [
      | panic ↦ panic
      | out_of_fuel ↦ out_of_fuel
      | ok found _ ↦ cancel_found symbol msg found engine
    ])
  ]

  unfoldable pub cancel_order :
      CancelOrderMessage → Cmd (OrderEngine Time) (Result EngineError (Unit {0}))
  unfolding OrderId.symbol_id cancel_in
  cancel_order msg engine =
      cancel_in msg (get_elem? engine.symbols (OrderId.symbol_id msg.order_id)) engine

  -- `responder.send(…).wait()`
  unfoldable pub send :
      EngineError → SessionMessage Time → Cmd (OrderEngine Time) (Result EngineError (Unit {0}))
  send e msg engine =
      if accepts msg
      then ok (success tt) (record engine { responses = engine.responses ++ (msg ∷ []) })
      else ok (failure e) engine

  unfoldable pub serialization_point : ℕ → Cmd (OrderEngine Time) (Result EngineError (Unit {0}))
  unfolding send
  serialization_point seq = send serialization_failed (serialization_response seq)
