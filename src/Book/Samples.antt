-- ===== src/Book/Samples.antt =====
-- Data for the examples: orders, a side and books of src/libcix/book.rs, with numbers for times.
use mathlib.Core.Path.{subst}
use cixrs.Book.Matching.{IsPositive}
use cixrs.Base.{
  ◌<◌, ℕ, ◌≡◌, refl, sym, ap, ◌∙◌, inl, inr, Option, none, some, [], ◌∷◌, compare, arith,
  Bool-cases, true≢false,
}
use cixrs.Heap.{HeapHandle, TreeHeap, Pool, default_md, range_from, write}
use cixrs.Heap as Heap
use cixrs.Heap.Tree.{leaf, node}
use cixrs.TradeTypes.OrderId.{OrderSide, buy, sell}
use cixrs.TradeTypes.Orders.{Order, id_eq}
use cixrs.Book.{lookup_get, BookSide}
use cixrs.Book.Priority.{IsTimeOrder}
use cixrs.Book.Side.{new_side}
use cixrs.Book.Index.{IsSide, id_eq_iff}
use cixrs.Book.Laws.{new_side-IsSide}
use cixrs.Book.Matcher.{OrderBook, new}
use cixrs.Book.Valid.{IsBook, rebuilt, rebuilt-IsBook}
use cixrs.Book.Place.{CanPlace}
use cixrs.Book.Cancel.{new-IsBook}
use cixrs.Book.{new_generator}

pub nat_time : IsTimeOrder compare
nat_time = record { swap = λ a b. ground arith; trans = λ a b c h k. ground arith }

abbrev pub make_order : ℕ → OrderSide → ℕ → ℕ → ℕ → Order ℕ
make_order raw side bits quantity time = record {
  id = record { id = record { val = raw } };
  user = 7;
  symbol = record { s = [] };
  side = side;
  price = record { bits = bits };
  quantity = quantity;
  update = time;
}

-- Prices 10.0 and 11.0
abbrev pub bid : Order ℕ
bid = make_order 0x20000000001 buy 0x4024000000000000 30 5

abbrev pub one_side : BookSide ℕ
one_side = record {
  orders = record {
    root = some 0;
    pool = write (λ i. none) 0 (record { value = bid; md = default_md });
    pool_len = 1;
    free_list = [];
  };
  lookup = (bid.id, record { index = 0 }) ∷ [];
}

pub one-IsSide : IsSide compare buy one_side (node leaf 0 bid leaf)
unfolding lookup_get
one-IsSide = record {
  valid = record {
    root = refl;
    owns = (refl, tt, tt);
    distinct = (refl, refl, (λ x h. refl), tt, tt);
    ordered = (refl, tt, tt, tt, tt);
    free = tt;
    room = omega arith;
  };
  indexed = λ id x. elim (Bool-cases (id_eq id bid.id)) [
    | inl e ↦ rw e (
      (λ k. (bid, inl (sym (index_of 0 x k), refl), sym ((id_eq_iff id bid.id).0 e))),
      (λ (o, k, q). elim k [
        | inl (d, _) ↦ ap (λ (n : ℕ). some (record { index = n })) (sym d)
        | inr (inl j) ↦ absurd j
        | inr (inr j) ↦ absurd j
      ]),
    )
    | inr e ↦ rw e (
      (λ k. absurd (none_some k)),
      (λ (o, k, q). elim k [
        | inl (_, d) ↦
            absurd (
              true≢false (sym ((id_eq_iff id bid.id).1 (sym q ∙ ap (λ (z : Order ℕ). z.id) d)) ∙ e))
        | inr (inl j) ↦ absurd j
        | inr (inr j) ↦ absurd j
      ]),
    )
  ];
}
  where
    none_some : {a : HeapHandle} → ◌≡◌ {A = Option HeapHandle} none (some a) → ⊥
    none_some k = cc

    index_of :
        (a b : ℕ)
        → ◌≡◌ {A = Option HeapHandle} (some (record { index = a })) (some (record { index = b }))
        → a ≡ b
    index_of a b k = cc

pub one-IsPositive : IsPositive (node leaf 0 bid leaf)
one-IsPositive o (y, inl (_, d)) = subst (λ (z : Order ℕ). 0 < z.quantity) (sym d) (omega arith)
one-IsPositive o (y, inr (inl j)) = absurd j
one-IsPositive o (y, inr (inr j)) = absurd j

abbrev pub fresh_book : OrderBook ℕ
fresh_book = new compare (λ _. 0) bid (record { s = [] }) 3

abbrev pub fresh-IsBook : IsBook compare fresh_book
fresh-IsBook = (new-IsBook nat_time (λ _. 0) bid (record { s = [] }) 3 (omega arith)).0

abbrev pub fresh-CanPlace : CanPlace nat_time (λ _. 0) buy fresh_book bid
unfolding new new_side new_generator Heap.new
fresh-CanPlace = record {
  price = refl;
  quantity = omega arith;
  slot = 0;
  rest = range_from 1 1023;
  room = refl;
  seq = omega arith;
}

-- the book on which only the bid rests
abbrev pub one_book : OrderBook ℕ
one_book =
    rebuilt compare nat_time buy fresh_book (new_side compare bid) one_side
      (record { symbol_id = 3; seq = 0 }) none

abbrev pub one-IsBook : IsBook compare one_book
one-IsBook =
    (rebuilt-IsBook compare nat_time buy fresh_book (new_side compare bid) one_side
      (record { symbol_id = 3; seq = 0 }) none (node leaf 0 bid leaf) leaf one-IsSide
      (new_side-IsSide nat_time sell bid) one-IsPositive (λ o r. absurd r.1) (λ x y p q. absurd q.1)
      (omega arith)).0
