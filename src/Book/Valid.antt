-- ===== src/Book/Valid.antt =====
-- The invariant of an OrderBook of src/libcix/book.rs: both sides in order, and no order of one side
-- crosses an order of the other.
use cixrs.Base.{
  ◌^◌, ◌<◌, ◌≡◌, refl, sym, ap, ◌∙◌, Bool, false, Option, Ordering, leb, if◌then◌else◌,
}
use cixrs.Heap.Tree.{Tree}
use cixrs.Heap.Views.{IsOrdered-Holds}
use cixrs.TradeTypes.OrderId.{OrderSide, buy, sell}
use cixrs.TradeTypes.Price.{Price, ge, le, key, is_nan}
use cixrs.TradeTypes.Orders.{Order}
use cixrs.TradeTypes.MarketData.{MdExecution}
use cixrs.Book.{BookSide, ExecutionIdGenerator}
use cixrs.Book.Priority.{HasPrice, IsTimeOrder, compare_orders-IsComparer}
use cixrs.Book.Crossing.{crosses_at, ge-key, le-key}
use cixrs.Book.Index.{IsSide, Resting}
use cixrs.Book.Matching.{IsPositive}
use cixrs.Book.Matcher.{OrderBook, side_of, with_side, opposite}

-- A property of both sides.
abbrev both : (P : OrderSide → Type 0) → P buy → P sell → (d : OrderSide) → P d
both P b s buy = b
both P b s sell = s

-- The first for the side `d`, the second for the other.
abbrev pub sides : {A : Type 0} → OrderSide → A → A → OrderSide → A
sides buy own far buy = own
sides buy own far sell = far
sides sell own far buy = far
sides sell own far sell = own

-- A buyer's price crosses a seller's exactly if the seller's crosses the buyer's.
crosses_sym :
    (x y : Price) → is_nan x ≡ false → is_nan y ≡ false → crosses_at sell x y ≡ crosses_at buy y x
crosses_sym x y hx hy =
    let e : le y x ≡ leb (key y) (key x) = le-key y x hy ∙ ap (pick (leb (key y) (key x))) hx in
    let f : ge x y ≡ leb (key y) (key x) = ge-key x y hx ∙ ap (pick (leb (key y) (key x))) hy in
    e ∙ sym f
  where
    pick : Bool → Bool → Bool
    pick b nan = if nan then false else b

module _ {A : Type 0} (own far : A) where
  pub sides-own : (d : OrderSide) → sides d own far d ≡ own
  sides-own buy = refl
  sides-own sell = refl

  pub sides-opposite : (d : OrderSide) → sides d own far (opposite d) ≡ far
  sides-opposite buy = refl
  sides-opposite sell = refl

module _ {Time : Type 0} where
  -- No order of the tree `own`, of the side `d`, crosses an order of the tree `far`.
  abbrev pub NoCross : OrderSide → Tree (Order Time) → Tree (Order Time) → Type 0
  NoCross d own far =
      (x y : Order Time)
      → Resting x own
      → Resting y far
      → crosses_at (opposite d) x.price y.price ≡ false

module _ {Time : Type 0} (time_cmp : Time → Time → Ordering) where
  pub record IsBook (book : OrderBook Time) : Type 0 where
    pub tree : OrderSide → Tree (Order Time)
    pub side_ok : (d : OrderSide) → IsSide time_cmp d (side_of d book) (tree d)
    pub positive : (d : OrderSide) → IsPositive (tree d)
    pub uncrossed : (d : OrderSide) → NoCross d (tree d) (tree (opposite d))
    pub symbol_id : book.id_gen.symbol_id < 2 ^ 20

  module _ (t : IsTimeOrder time_cmp) where
    pub Resting-HasPrice :
        (d : OrderSide) (s : BookSide Time) (u : Tree (Order Time)) (o : Order Time)
        → IsSide time_cmp d s u
        → Resting o u
        → HasPrice o
    Resting-HasPrice d s u o h (x, k) =
        IsOrdered-Holds (compare_orders-IsComparer t d) u x o h.valid.ordered k

    NoCross-sym :
        (d : OrderSide) (s s' : BookSide Time) (u v : Tree (Order Time))
        → IsSide time_cmp d s u
        → IsSide time_cmp (opposite d) s' v
        → NoCross d u v
        → NoCross (opposite d) v u
    NoCross-sym buy s s' u v h k n x y p q =
        sym (
          crosses_sym y.price x.price (Resting-HasPrice buy s u y h q)
            (Resting-HasPrice sell s' v x k p))
        ∙ n y x q p
    NoCross-sym sell s s' u v h k n x y p q =
        crosses_sym x.price y.price (Resting-HasPrice buy s' v x k p)
          (Resting-HasPrice sell s u y h q)
        ∙ n y x q p

    -- The book whose side `d` is `own` and whose other side is `far`.
    abbrev pub rebuilt :
        OrderSide
        → OrderBook Time
        → BookSide Time
        → BookSide Time
        → ExecutionIdGenerator
        → Option (MdExecution Time)
        → OrderBook Time
    rebuilt d book far own gen last =
        with_side d (record (with_side (opposite d) book far) { id_gen = gen; last_exec = last })
          own

    pub rebuilt-IsBook :
        (d : OrderSide) (book : OrderBook Time) (far own : BookSide Time)
        (gen : ExecutionIdGenerator) (last : Option (MdExecution Time)) (u v : Tree (Order Time))
        → IsSide time_cmp d own u
        → IsSide time_cmp (opposite d) far v
        → IsPositive u
        → IsPositive v
        → NoCross d u v
        → gen.symbol_id < 2 ^ 20
        → (b : IsBook (rebuilt d book far own gen last)) × (b.tree ≡ sides d u v)
    rebuilt-IsBook buy book far own gen last u v h k p q n g = (
      record {
        tree = sides buy u v;
        side_ok =
            both
              (λ d.
                IsSide time_cmp d (side_of d (rebuilt buy book far own gen last)) (sides buy u v d))
              h k;
        positive = both (λ d. IsPositive (sides buy u v d)) p q;
        uncrossed =
            both (λ d. NoCross d (sides buy u v d) (sides buy u v (opposite d))) n
              (NoCross-sym buy own far u v h k n);
        symbol_id = g;
      },
      refl,
    )
    rebuilt-IsBook sell book far own gen last u v h k p q n g = (
      record {
        tree = sides sell u v;
        side_ok =
            both
              (λ d.
                IsSide time_cmp d (side_of d (rebuilt sell book far own gen last))
                  (sides sell u v d))
              k h;
        positive = both (λ d. IsPositive (sides sell u v d)) q p;
        uncrossed =
            both (λ d. NoCross d (sides sell u v d) (sides sell u v (opposite d)))
              (NoCross-sym sell own far u v h k n) n;
        symbol_id = g;
      },
      refl,
    )
