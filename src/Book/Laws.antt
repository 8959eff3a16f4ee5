-- ===== src/Book/Laws.antt =====
-- What the operations of BookSide (src/libcix/book.rs) do to the orders that rest on a side.
use mathlib.Core.Path.{subst}
use cixrs.Base.{
  ℕ, ◌≡◌, refl, sym, ap, ◌∙◌, ◌⊎◌, inl, inr, ◌↔◌, ◌≢◌, Bool, true, false, Option, none, some, List,
  ◌∷◌, Ordering, Option-cases,
}
use cixrs.Run.{Returns, returns, Returns-inv}
use cixrs.Heap.{HeapHandle}
use cixrs.Heap.Tree.{Tree, leaf}
use cixrs.Heap.Contents.{Holds, Holds-has}
use cixrs.Heap.Order.{IsComparer}
use cixrs.Heap.Views.{new-IsValid}
use cixrs.Heap.Laws.{insert-Inserted, remove-Removed}
use cixrs.TradeTypes.OrderId.{OrderId, OrderSide}
use cixrs.TradeTypes.Orders.{Order}
use cixrs.Book.{lookup_get, BookSide, compare_orders}
use cixrs.Book.Priority.{HasPrice, IsTimeOrder, compare_orders-IsComparer}
use cixrs.Book.Side.{add_to_side, remove_order, remove_found, has_order, new_side}
use cixrs.Book.Index.{Holds-unique, IsSide, Resting, indexed-insert, indexed-remove}

module _ {Time : Type 0} {time_cmp : Time → Time → Ordering} (t : IsTimeOrder time_cmp)
    (side : OrderSide) where
  abbrev priority : IsComparer HasPrice (compare_orders time_cmp side)
  priority = compare_orders-IsComparer t side

  -- A new side is in order and no order rests on it.
  pub new_side-IsSide : (d : Order Time) → IsSide time_cmp side (new_side time_cmp d) leaf
  unfolding new_side lookup_get
  new_side-IsSide d = record {
    valid = new-IsValid priority d 1024;
    indexed = λ id x. ((λ k. absurd (none_some k)), (λ (o, k, q). absurd k));
  }
    where
      none_some : {a : HeapHandle} → ◌≡◌ {A = Option HeapHandle} none (some a) → ⊥
      none_some k = cc

  fresh :
      (s : BookSide Time) (id : OrderId)
      → has_order time_cmp id s ≡ false
      → lookup_get id s.lookup ≡ none
  unfolding has_order
  fresh s id h = elim (Option-cases (lookup_get id s.lookup)) [
    | inl e ↦ e
    | inr (a, e) ↦ absurd (clash (sym (ap (λ z. elim z [ none ↦ false | some _ ↦ true ]) e) ∙ h))
  ]
    where
      clash : ◌≡◌ {A = Bool} true false → ⊥
      clash k = cc

  -- The outcome of adding an order: a side in order on which it rests with those before.
  pub record Added (u : Tree (Order Time)) (new_order : Order Time) (s' : BookSide Time)
      : Type 0 where
    pub tree : Tree (Order Time)
    pub side_ok : IsSide time_cmp side s' tree
    pub resting : (o : Order Time) → Resting o tree ↔ ((o ≡ new_order) ⊎ Resting o u)

  -- Adding an order whose price is a number and whose id is not on the side, where a slot is free,
  -- returns and leaves a side in order on which this order rests and those that rested before.
  pub add_to_side-Added :
      (s : BookSide Time) (u : Tree (Order Time)) (i : ℕ) (rest : List ℕ) (new_order : Order Time)
      → IsSide time_cmp side s u
      → s.orders.free_list ≡ i ∷ rest
      → HasPrice new_order
      → has_order time_cmp new_order.id s ≡ false
      → Returns (λ _. Added u new_order) (add_to_side time_cmp side new_order s)
  unfolding add_to_side
  add_to_side-Added s u i rest new_order h e p q =
      let (a, heap, run, v) =
        Returns-inv (insert-Inserted priority s.orders u i rest new_order h.valid e p) in
      rw (run, v.handle)
        (returns (record {
          tree = v.tree;
          side_ok = record {
            valid = v.valid;
            indexed =
                indexed-insert time_cmp side priority s u v.tree i new_order h
                  (fresh s new_order.id q) v.holds;
          };
          resting = λ o. (
            (λ (x, k). elim ((v.holds x o).0 k) [ inl (_, d) ↦ inl d | inr j ↦ inr (x, j) ]),
            (λ k. elim k [
              | inl d ↦ (i, (v.holds i o).1 (inl (refl, d)))
              | inr (x, j) ↦ (x, (v.holds x o).1 (inr j))
            ]),
          );
        }))

  -- The outcome of removing an id: a side in order on which every other order rests as before.
  pub record Cancelled (s : BookSide Time) (u : Tree (Order Time)) (id : OrderId)
      (s' : BookSide Time) : Type 0 where
    pub tree : Tree (Order Time)
    pub side_ok : IsSide time_cmp side s' tree
    pub resting : (o : Order Time) → Resting o tree ↔ (Resting o u × (o.id ≢ id))
    pub freed :
        (x : ℕ)
        → lookup_get id s.lookup ≡ some (record { index = x })
        → s'.orders.free_list ≡ x ∷ s.orders.free_list
    pub pool_len : s'.orders.pool_len ≡ s.orders.pool_len

  -- Removing an id returns, whether an order of this id rests on the side or not, and leaves a side
  -- in order on which exactly the orders of another id rest.
  pub remove_order-Cancelled :
      (s : BookSide Time) (u : Tree (Order Time)) (id : OrderId)
      → IsSide time_cmp side s u
      → Returns (λ _. Cancelled s u id) (remove_order time_cmp side id s)
  unfolding remove_order remove_found
  remove_order-Cancelled s u id h = elim (Option-cases (lookup_get id s.lookup)) [
    | inl e ↦ rw (e) (
        returns (record {
          tree = u;
          side_ok = h;
          resting = λ o.
              ((λ (x, k). ((x, k), (λ q. clash ((h.indexed id x).1 (o, k, q)) e))), (λ k. k.0));
          freed = λ x k. absurd (clash k e);
          pool_len = refl;
        }))
    | inr (a, e) ↦
        (let (o, k, q) = (h.indexed id a.index).0 e in
          let (_, heap, run, v) =
            Returns-inv
              (remove-Removed priority s.orders u a.index h.valid (Holds-has a.index o u k)) in
          rw (e, run)
            (returns (record {
              tree = v.tree;
              side_ok = record {
                valid = v.valid;
                indexed =
                    indexed-remove time_cmp side priority s u v.tree id a.index o h k q v.holds;
              };
              resting = λ w. (
                (λ (x, j).
                    (let (j', ne) = (v.holds x w).0 j in
                      (
                        (x, j'),
                        (λ d. ne (index_of x a ((sym ((h.indexed id x).1 (w, j', d))) ∙ e))),
                      ))),
                (λ ((x, j), ne). (
                  x,
                  (v.holds x w).1 (
                    j,
                    λ d. ne (
                        ap (λ (z : Order Time). z.id)
                          (Holds-unique time_cmp side priority s.orders u a.index w o h.valid
                            (subst (λ z. Holds z w u) d j) k)
                        ∙ q),
                  ),
                )),
              );
              freed = λ x d.
                  v.freed ∙ ap (λ z. z ∷ s.orders.free_list) (sym (index_of x a (sym d ∙ e)));
              pool_len = v.pool_len;
            })))
  ]
    where
      clash : {l : Option HeapHandle} {b : HeapHandle} → l ≡ some b → l ≡ none → ⊥
      clash k e = cc

      index_of :
          (x : ℕ) (b : HeapHandle)
          → ◌≡◌ {A = Option HeapHandle} (some (record { index = x })) (some b)
          → x ≡ b.index
      index_of x b k = cc
