-- ===== src/Server/Books.antt =====
-- The books of the OrderEngine of src/server/engine.rs, and commands on one of them.
use mathlib.Core.Path.{subst}
use cixrs.Base.{
  ℕ, ◌≡◌, refl, ap, ◌∙◌, inl, inr, Bool, true, false, some, List, [], ◌∷◌, ◌++◌, Ordering,
  Bool-cases, get_elem?, if◌then◌else◌,
}
use cixrs.Run.{ok, Cmd}
use cixrs.TradeTypes.ExecutionId.{ExecutionId}
use cixrs.TradeTypes.Symbol.{Symbol}
use cixrs.Book.Priority.{IsTimeOrder}
use cixrs.Book.Matcher.{OrderBook, Event}
use cixrs.Book.Valid.{IsBook}
use cixrs.Server.Messages.{SessionMessage}
use cixrs.Server.Engine.{
  OrderEngine, Books, find_book, store_book, symbol_eq, on_book, listed_symbol,
}
use cixrs.Server.Router.Lookup.{symbol_eq-IsSame}

module _ {Time : Type 0} where
  pub find-store_book :
      (symbol : Symbol) (old new : OrderBook Time) (books : Books Time)
      → find_book symbol books ≡ some old
      → find_book symbol (store_book symbol new books) ≡ some new
  unfolding find_book store_book
  find-store_book symbol old new [] h = absurd (cc)
  find-store_book symbol old new (e ∷ es) h = elim (Bool-cases (symbol_eq symbol e.0)) [
    | inl q ↦ rw (q, find_book, q) refl
    | inr q ↦ rw (q, find_book, q) (find-store_book symbol old new es (rw (find_book, q) at h))
  ]

  pub find-store_book_other :
      (s symbol : Symbol) (new : OrderBook Time) (books : Books Time)
      → symbol_eq s symbol ≡ false
      → find_book s (store_book symbol new books) ≡ find_book s books
  unfolding find_book store_book
  find-store_book_other s symbol new [] h = refl
  find-store_book_other s symbol new (e ∷ es) h = elim (Bool-cases (symbol_eq symbol e.0)) [
    | inl q ↦
        (let r : symbol_eq s e.0 ≡ false =
            subst (λ z. symbol_eq s z ≡ false) ((symbol_eq-IsSame symbol e.0).0 q) h in
          rw (q, find_book, r) refl)
    | inr q ↦ elim (Bool-cases (symbol_eq s e.0)) [
      | inl r ↦ rw (q, find_book, r) refl
      | inr r ↦ rw (q, find_book, r) (find-store_book_other s symbol new es h)
    ]
  ]

-- A symbol that is marked as dirty is listed.
pub marked :
    (symbol : Symbol) (ss : List Symbol)
    → listed_symbol symbol (if listed_symbol symbol ss then ss else symbol ∷ ss) ≡ true
unfolding listed_symbol
marked symbol ss = elim (Bool-cases (listed_symbol symbol ss)) [
  | inl e ↦ rw e e
  | inr e ↦
      (let self : symbol_eq symbol symbol ≡ true = (symbol_eq-IsSame symbol symbol).1 refl in
        rw (e, listed_symbol, self) refl)
]

module _ {Time : Type 0} {time_cmp : Time → Time → Ordering} (t : IsTimeOrder time_cmp)
    (clock : ExecutionId → Time) (accepts : SessionMessage Time → Bool) where
  -- Each of the engine's symbols has a book, and it is in order.
  abbrev pub IsEngine : OrderEngine Time → Type 0
  IsEngine engine =
      (symbol : Symbol) (i : ℕ)
      → get_elem? engine.symbols i ≡ some symbol
      → (book : OrderBook Time) × (find_book symbol engine.books ≡ some book) × IsBook time_cmp book

  -- The engine after a command on the book of a symbol that left a book in order and called the handler.
  module _ (engine : OrderEngine Time) (ok_engine : IsEngine engine) (symbol : Symbol)
      (book book' : OrderBook Time) (found : find_book symbol engine.books ≡ some book)
      (h' : IsBook time_cmp book') (es : List (Event Time)) where
    abbrev pub changed : OrderEngine Time
    changed = record engine {
      books = store_book symbol book' engine.books;
      events = engine.events ++ es;
      dirty_symbols =
          if listed_symbol symbol engine.dirty_symbols
          then engine.dirty_symbols
          else symbol ∷ engine.dirty_symbols;
    }

    pub changed-IsEngine : IsEngine changed
    changed-IsEngine s i at = elim (Bool-cases (symbol_eq s symbol)) [
      | inl e ↦ (
        book',
        ap (λ z. find_book z (store_book symbol book' engine.books))
              ((symbol_eq-IsSame s symbol).0 e)
            ∙ find-store_book symbol book book' engine.books found,
        h',
      )
      | inr e ↦
          (let (b, f, h) = ok_engine s i at in
            (b, find-store_book_other s symbol book' engine.books e ∙ f, h))
    ]

    pub on_book-changed :
        (m : Cmd (OrderBook Time) (List (Event Time)))
        → m book ≡ ok es book'
        → on_book time_cmp clock accepts symbol m engine
          ≡ ok tt (record engine {
            books = store_book symbol book' engine.books;
            events = engine.events ++ es;
          })
    unfolding on_book
    on_book-changed m run = rw (on_book, found, run) refl

  pub append_none : {A : Type 0} (xs : List A) → xs ++ [] ≡ xs
  append_none [] = refl
  append_none (x ∷ xs) = ap (◌∷◌ x) (append_none xs)
