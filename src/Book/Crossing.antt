-- ===== src/Book/Crossing.antt =====
-- When orders cross, by their prices (does_cross of src/libcix/book.rs).
use cixrs.Base.{
  ℕ, ◌<◌, ◌≤◌, ◌≡◌, refl, sym, ◌∙◌, inl, inr, Bool, true, false, Ordering, arith, Bool-cases,
  true≢false, if◌then◌else◌, leb, compare,
}
use cixrs.Heap.Tree.{is_greater}
use cixrs.TradeTypes.OrderId.{OrderSide, buy, sell}
use cixrs.TradeTypes.Price.{Price, ge, le, key, is_nan, partial_cmp}
use cixrs.TradeTypes.Orders.{Order}
use cixrs.Book.{compare_orders, does_cross}
use cixrs.Book.Priority.{HasPrice, IsTimeOrder, compare_orders-priority}

-- The price of a resting order is good enough for a new order of the price `n`.
abbrev pub crosses_at : OrderSide → Price → Price → Bool
crosses_at buy n p = ge p n
crosses_at sell n p = le p n

pub ge-key :
    (x y : Price) → is_nan x ≡ false → ge x y ≡ (if is_nan y then false else leb (key y) (key x))
unfolding ge partial_cmp
ge-key x y h = elim (Bool-cases (is_nan y)) [
  | inl e ↦ rw (ge, partial_cmp, h, e) refl
  | inr e ↦ rw (ge, partial_cmp, h, e) (leb_of (key x) (key y))
]
  where
    leb_of : (a b : ℕ) → (elim (compare a b) [ Ordering.lt ↦ false | _ ↦ true ]) ≡ leb b a
    leb_of a b = ground arith

pub le-key :
    (x y : Price) → is_nan x ≡ false → le x y ≡ (if is_nan y then false else leb (key x) (key y))
unfolding le partial_cmp
le-key x y h = elim (Bool-cases (is_nan y)) [
  | inl e ↦ rw (le, partial_cmp, h, e) refl
  | inr e ↦ rw (le, partial_cmp, h, e) (leb_of (key x) (key y))
]
  where
    leb_of : (a b : ℕ) → (elim (compare a b) [ Ordering.gt ↦ false | _ ↦ true ]) ≡ leb a b
    leb_of a b = ground arith

-- A bound below the better key is below the other.
bound_below :
    (nan : Bool) (n top other : ℕ)
    → (if nan then false else leb n top) ≡ false
    → other ≤ top
    → (if nan then false else leb n other) ≡ false
bound_below nan n top other h k = ground arith

bound_above :
    (nan : Bool) (n top other : ℕ)
    → (if nan then false else leb top n) ≡ false
    → top ≤ other
    → (if nan then false else leb other n) ≡ false
bound_above nan n top other h k = ground arith

module _ {Time : Type 0} {time_cmp : Time → Time → Ordering} (t : IsTimeOrder time_cmp) where
  pub does_cross-at :
      (side : OrderSide) (n b : Order Time) → does_cross side n b ≡ crosses_at side n.price b.price
  unfolding does_cross
  does_cross-at buy n b = refl
  does_cross-at sell n b = refl

  -- When the best order does not cross, no order does.
  pub none_crosses :
      (side : OrderSide) (n : Price) (top o : Order Time)
      → HasPrice top
      → HasPrice o
      → is_greater (compare_orders time_cmp side o top) ≡ false
      → crosses_at side n top.price ≡ false
      → crosses_at side n o.price ≡ false
  none_crosses buy n top o ht ho g h =
      let p = compare_orders-priority time_cmp buy o top ho ht in
      let no : key top.price < key o.price → ⊥ = λ k. true≢false (sym (p.1 (inl k)) ∙ g) in
      ge-key o.price n ho
      ∙ bound_below (is_nan n) (key n) (key top.price) (key o.price)
          (sym (ge-key top.price n ht) ∙ h) (omega (arith, no))
  none_crosses sell n top o ht ho g h =
      let p = compare_orders-priority time_cmp sell o top ho ht in
      let no : key o.price < key top.price → ⊥ = λ k. true≢false (sym (p.1 (inl k)) ∙ g) in
      le-key o.price n ho
      ∙ bound_above (is_nan n) (key n) (key top.price) (key o.price)
          (sym (le-key top.price n ht) ∙ h) (omega (arith, no))
