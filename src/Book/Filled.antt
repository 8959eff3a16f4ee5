-- ===== src/Book/Filled.antt =====
-- What executions take from the resting orders (match_order of src/libcix/book.rs).
pub mod Step
use mathlib.Core.Path.{subst}
use cixrs.Base.{
  ℕ, ◌+◌, ◌-◌, ◌<◌, ◌≤◌, ◌≡◌, refl, sym, ap, ◌∙◌, ◌⊎◌, inl, inr, ◌↔◌, ◌≢◌, Bool, ltb, true≢false,
  true, false, List, [], ◌∷◌, Ordering, arith, Bool-cases, if◌then◌else◌,
}
use cixrs.Run.{ok}
use cixrs.Heap.Tree.{Tree, is_greater}
use cixrs.Heap.Contents.{Holds}
use cixrs.TradeTypes.OrderId.{OrderId, OrderSide, buy, sell}
use cixrs.TradeTypes.ExecutionId.{ExecutionId}
use cixrs.TradeTypes.Orders.{Order, Execution, id_eq}
use cixrs.Book.{ExecutionIdGenerator, next_id, BookSide, create_execution, compare_orders}
use cixrs.Book.Priority.{IsTimeOrder, compare_orders-IsComparer}
use cixrs.Book.Index.{IsSide, Resting, Holds-unique, id_eq_iff}
use cixrs.Book.Match.{reduce}
use cixrs.Book.Execute.{Taken}

-- The resting order that an execution names, where the orders of the side `side` rest.
abbrev pub counterparty : {Time : Type 0} → OrderSide → Execution Time → OrderId
counterparty buy e = e.buy_order
counterparty sell e = e.sell_order

-- The quantity that executions take from the resting order of this id.
abbrev pub filled : {Time : Type 0} → OrderSide → OrderId → List (Execution Time) → ℕ
filled side id [] = 0
filled side id (e ∷ es) =
    (if id_eq id (counterparty side e) then e.quantity else 0) + filled side id es

-- The order rested before, and what it has now and what the executions took make up its quantity.
abbrev pub Kept :
    {Time : Type 0} → OrderSide → Tree (Order Time) → List (Execution Time) → Order Time → Type 0
Kept {Time = Time} side u execs o =
    (o0 : Order Time) × Resting o0 u
    × (o ≡ record o0 { quantity = o.quantity })
    × (0 < o.quantity)
    × (o.quantity + filled side o0.id execs ≡ o0.quantity)

-- The executions have the ids that the generator makes one after the other.
abbrev pub Issued : {Time : Type 0} → ExecutionIdGenerator → List (Execution Time) → Type 0
Issued gen [] = Unit {0}
Issued gen (e ∷ es) =
    (next_id gen ≡ ok e.id (record gen { seq = gen.seq + 1 }))
    × Issued (record gen { seq = gen.seq + 1 }) es

-- Nothing is taken from an order while something is left of one that has priority over it.
abbrev pub BestFirst :
    {Time : Type 0}
    → (Time → Time → Ordering)
    → OrderSide
    → Tree (Order Time)
    → List (Execution Time)
    → Type 0
BestFirst {Time = Time} time_cmp side u execs =
    (a b : Order Time)
    → Resting a u
    → Resting b u
    → is_greater (compare_orders time_cmp side a b) ≡ true
    → 0 < filled side b.id execs
    → filled side a.id execs ≡ a.quantity

module _ {Time : Type 0} (clock : ExecutionId → Time) (side : OrderSide) where
  -- Every execution is between the new order and an order that rested, at the latter's price.
  abbrev pub AllMade : Tree (Order Time) → Order Time → List (Execution Time) → Type 0
  AllMade u new [] = Unit {0}
  AllMade u new (e ∷ es) =
      ((o0 : Order Time) × Resting o0 u
        × (0 < e.quantity)
        × (e ≡ create_execution clock side e.id new o0 e.quantity))
      × AllMade u new es

  -- The executions take no more from an order than it has.
  abbrev pub Covers : Tree (Order Time) → List (Execution Time) → Type 0
  Covers u execs = (o : Order Time) → Resting o u → filled side o.id execs ≤ o.quantity

  pub counterparty-create_execution :
      (id : ExecutionId) (n b : Order Time) (q : ℕ)
      → counterparty side (create_execution clock side id n b q) ≡ b.id
  unfolding create_execution
  counterparty-create_execution id n b q = both side
    where
      both : (d : OrderSide) → counterparty d (create_execution clock d id n b q) ≡ b.id
      both buy = refl
      both sell = refl

  pub price-create_execution :
      (id : ExecutionId) (n b : Order Time) (q : ℕ)
      → (create_execution clock side id n b q).price ≡ b.price
  unfolding create_execution
  price-create_execution id n b q = both side
    where
      both : (d : OrderSide) → (create_execution clock d id n b q).price ≡ b.price
      both buy = refl
      both sell = refl

  -- What remains of an order does not show in its executions.
  pub create_execution-reduced :
      (id : ExecutionId) (n b : Order Time) (q a : ℕ)
      → create_execution clock side id n (record b { quantity = q }) a
        ≡ create_execution clock side id n b a
  unfolding create_execution
  create_execution-reduced id n b q a = both side
    where
      both :
          (d : OrderSide)
          → create_execution clock d id n (record b { quantity = q }) a
            ≡ create_execution clock d id n b a
      both buy = refl
      both sell = refl

  create_execution-taker :
      (id : ExecutionId) (n b : Order Time) (q a : ℕ)
      → create_execution clock side id (record n { quantity = q }) b a
        ≡ create_execution clock side id n b a
  unfolding create_execution
  create_execution-taker id n b q a = both side
    where
      both :
          (d : OrderSide)
          → create_execution clock d id (record n { quantity = q }) b a
            ≡ create_execution clock d id n b a
      both buy = refl
      both sell = refl

  -- The new order's quantity does not show in its executions.
  pub AllMade-taker :
      (u : Tree (Order Time)) (n : Order Time) (q : ℕ) (es : List (Execution Time))
      → AllMade u (record n { quantity = q }) es
      → AllMade u n es
  AllMade-taker u n q [] h = tt
  AllMade-taker u n q (e ∷ es) ((o, r, pos, m), h) =
      ((o, r, pos, m ∙ create_execution-taker e.id n o q e.quantity), AllMade-taker u n q es h)

  -- An order that the executions do not name keeps all it has.
  pub unnamed :
      (u : Tree (Order Time)) (new : Order Time) (id : OrderId) (es : List (Execution Time))
      → AllMade u new es
      → ((o : Order Time) → Resting o u → o.id ≢ id)
      → filled side id es ≡ 0
  unnamed u new id [] h k = refl
  unnamed u new id (e ∷ es) ((o0, r, _, m), h) k =
      let named : counterparty side e ≡ o0.id =
        ap (counterparty side) m ∙ counterparty-create_execution e.id new o0 e.quantity in
      let other : id_eq id (counterparty side e) ≡ false =
        no_test (λ d. k o0 r (sym (d ∙ named))) in
      rw other (omega (arith, unnamed u new id es h k))
    where
      no_test : {a b : OrderId} → (a ≡ b → ⊥) → id_eq a b ≡ false
      no_test {a} {b} n = elim (Bool-cases (id_eq a b)) [
        | inl y ↦ absurd (n ((id_eq_iff a b).0 y))
        | inr q ↦ q
      ]
