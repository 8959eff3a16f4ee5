-- ===== src/Server/Tests.antt =====
-- Examples of src/server/engine.rs, with numbers for times.
use cixrs.Base.{ℕ, ◌≡◌, refl, true, List, [], ◌∷◌, ◌++◌, compare, arith, success}
use cixrs.Run.{Returns}
use cixrs.TradeTypes.OrderId.{buy}
use cixrs.TradeTypes.Orders.{Order}
use cixrs.Server.Engine.{OrderEngine}
use cixrs.Server.OpenOrders.{send_batches}
use cixrs.Server.Batches.{opened, send_batches-opened}
use mathlib.Core.Path.{subst}
use cixrs.Base.{some, zero, suc}
use cixrs.Heap.{range_from}
use cixrs.Heap as Heap
use cixrs.TradeTypes.OrderId.{sell}
use cixrs.TradeTypes.Symbol.{Symbol}
use cixrs.Book.Side.{new_side}
use cixrs.Book.Place.{CanPlace}
use cixrs.Book.Samples.{nat_time, bid, one_book, one-IsBook}
use cixrs.Server.Messages.{NewOrderMessage, CancelOrderMessage}
use cixrs.Server.Engine.{find_book, new_order, cancel_order}
use cixrs.Server.Books.{IsEngine}
use cixrs.Server.Owner.{Ended, cancel_order-Ended}
use cixrs.Server.Entered.{Entered, order_of, new_order-Entered}

abbrev order : ℕ → Order ℕ
order quantity = record {
  id = record { id = record { val = quantity } };
  user = 7;
  symbol = record { s = [] };
  side = buy;
  price = record { bits = 0x4024000000000000 };
  quantity = quantity;
  update = 5;
}

abbrev idle : OrderEngine ℕ
idle = record { symbols = []; dirty_symbols = []; books = []; responses = []; events = [] }

abbrev twelve : List (Order ℕ)
twelve =
    order 1
    ∷ order 2
    ∷ order 3
    ∷ order 4
    ∷ order 5
    ∷ order 6
    ∷ order 7
    ∷ order 8
    ∷ order 9
    ∷ order 10
    ∷ order 11
    ∷ order 12
    ∷ []

send_batches-opened_example :
    Returns
      (λ r after. (r ≡ success tt) × (opened after.responses ≡ [] ++ twelve))
      (send_batches compare
        (λ _. 0)
        (λ _. true)
        (order 0)
        (record { user = 7; seq = 1 })
        13
        twelve
        idle)
send_batches-opened_example =
    send_batches-opened compare (λ _. 0) (λ _. true) (order 0) (record { user = 7; seq = 1 }) 13
      twelve idle (λ msg. refl) (omega arith)

abbrev symbol : Symbol
symbol = record { s = [] }

-- The engine with one symbol, on whose book a bid of 30 rests.
abbrev engine : OrderEngine ℕ
engine = record {
  symbols = symbol ∷ [];
  dirty_symbols = [];
  books = (symbol, one_book) ∷ [];
  responses = [];
  events = [];
}

found_one : find_book symbol engine.books ≡ some one_book
unfolding find_book
found_one = refl

engine-IsEngine : IsEngine nat_time (λ _. 0) (λ _. true) engine
engine-IsEngine s zero at =
    let e : symbol ≡ s = (cc) in
    (one_book, subst (λ z. find_book z engine.books ≡ some one_book) e found_one, one-IsBook)
engine-IsEngine s (suc i) at = absurd (cc)

abbrev cancellation : CancelOrderMessage
cancellation = record { user = 7; order_id = bid.id }

cancel_order-Ended_example :
    Returns
      (Ended nat_time (λ _. 0) (λ _. true) engine cancellation)
      (cancel_order compare (λ _. 0) (λ _. true) cancellation engine)
cancel_order-Ended_example =
    cancel_order-Ended nat_time (λ _. 0) (λ _. true) engine cancellation engine-IsEngine

-- An offer of 40 at the bid's price.
abbrev offer : NewOrderMessage
offer = record {
  user = 8;
  order_id = record { id = record { val = 3 } };
  symbol = symbol;
  side = sell;
  price = record { bits = 0x4024000000000000 };
  quantity = 40;
}

offer-CanPlace : CanPlace nat_time (λ _. 0) sell one_book (order_of 9 offer)
unfolding new_side Heap.new
offer-CanPlace = record {
  price = refl;
  quantity = omega arith;
  slot = 0;
  rest = range_from 1 1023;
  room = refl;
  seq = omega arith;
}

new_order-Entered_example :
    Returns
      (Entered nat_time (λ _. 0) (λ _. true) engine (order_of 9 offer) one_book one-IsBook)
      (new_order compare (λ _. 0) (λ _. true) 9 offer engine)
new_order-Entered_example =
    new_order-Entered nat_time (λ _. 0) (λ _. true) engine 9 offer one_book one-IsBook
      engine-IsEngine found_one offer-CanPlace
