-- ===== src/Book/Priority.antt =====
-- Price and time priority: the comparers of src/libcix/book.rs on orders whose price is a number.
use cixrs.Base.{
  ℕ, ◌<◌, ◌≡◌, refl, sym, ap, ◌∙◌, ◌⊎◌, inl, inr, ◌↔◌, true, false, Ordering, compare, arith,
}
use cixrs.Heap.Tree.{is_greater, is_less}
use cixrs.Heap.Order.{IsComparer}
use cixrs.TradeTypes.OrderId.{OrderSide, buy, sell}
use cixrs.TradeTypes.Price.{Price, is_nan, key, partial_cmp}
use cixrs.TradeTypes.Orders.{Order}
use cixrs.Book.{reverse, lex, price_cmp, compare_orders}

-- What the book relies on of the comparison of times: to be a total preorder.
pub record IsTimeOrder {Time : Type 0} (time_cmp : Time → Time → Ordering) : Type 0 where
  pub swap : (a b : Time) → time_cmp b a ≡ reverse (time_cmp a b)
  pub trans :
      (a b c : Time)
      → is_greater (time_cmp a b) ≡ false
      → is_greater (time_cmp b c) ≡ false
      → is_greater (time_cmp a c) ≡ false

-- The price is a number.
abbrev pub HasPrice : {Time : Type 0} → Order Time → Type 0
HasPrice o = is_nan o.price ≡ false

pub price_cmp-key :
    (x y : Price) → is_nan x ≡ false → is_nan y ≡ false → price_cmp x y ≡ compare (key x) (key y)
unfolding price_cmp partial_cmp
price_cmp-key x y hx hy = rw (price_cmp, partial_cmp, hx, hy) refl

reverse-compare : (a b : ℕ) → reverse (compare a b) ≡ compare b a
reverse-compare a b = ground arith

not_greater_reverse : (o : Ordering) → is_greater (reverse o) ≡ is_less o
not_greater_reverse o = ground arith

not_less_reverse : (o : Ordering) → is_less (reverse o) ≡ is_greater o
not_less_reverse o = ground arith

lex_not_greater :
    (a b : ℕ) (o : Ordering)
    → is_greater (lex (compare a b) o) ≡ false ↔ (a < b) ⊎ ((a ≡ b) × (is_greater o ≡ false))
lex_not_greater a b o = ground arith

lex_not_less :
    (a b : ℕ) (o : Ordering)
    → is_less (lex (compare a b) o) ≡ false ↔ (b < a) ⊎ ((a ≡ b) × (is_less o ≡ false))
lex_not_less a b o = ground arith

lex_greater :
    (a b : ℕ) (o : Ordering)
    → is_greater (lex (compare a b) o) ≡ true ↔ (b < a) ⊎ ((a ≡ b) × (is_greater o ≡ true))
lex_greater a b o = ground arith

lex_trans :
    (i j k : ℕ) (o p q : Ordering)
    → (is_greater o ≡ false → is_greater p ≡ false → is_greater q ≡ false)
    → is_greater (lex (compare i j) o) ≡ false
    → is_greater (lex (compare j k) p) ≡ false
    → is_greater (lex (compare i k) q) ≡ false
lex_trans i j k o p q t h g =
    (lex_not_greater i k q).1
      (grind (arith, t, (lex_not_greater i j o).0 h, (lex_not_greater j k p).0 g))

lex_trans_down :
    (i j k : ℕ) (o p q : Ordering)
    → (is_greater o ≡ false → is_greater p ≡ false → is_greater q ≡ false)
    → is_greater (lex (compare j i) o) ≡ false
    → is_greater (lex (compare k j) p) ≡ false
    → is_greater (lex (compare k i) q) ≡ false
lex_trans_down i j k o p q t h g =
    (lex_not_greater k i q).1
      (grind (arith, t, (lex_not_greater j i o).0 h, (lex_not_greater k j p).0 g))

-- The first price is better on the side: higher for a buyer, lower for a seller.
abbrev pub Better : OrderSide → ℕ → ℕ → Type 0
Better buy a b = b < a
Better sell a b = a < b

module _ {Time : Type 0} (time_cmp : Time → Time → Ordering) where
  compare_buys :
      (v w : Order Time)
      → HasPrice v
      → HasPrice w
      → compare_orders time_cmp buy v w
        ≡ lex (compare (key v.price) (key w.price)) (reverse (time_cmp v.update w.update))
  unfolding compare_orders
  compare_buys v w hv hw =
      ap (λ z. lex z (reverse (time_cmp v.update w.update))) (price_cmp-key v.price w.price hv hw)

  compare_sells :
      (v w : Order Time)
      → HasPrice v
      → HasPrice w
      → compare_orders time_cmp sell v w
        ≡ lex (compare (key w.price) (key v.price)) (reverse (time_cmp v.update w.update))
  unfolding compare_orders
  compare_sells v w hv hw =
      ap (λ z. lex (reverse z) (reverse (time_cmp v.update w.update)))
        (price_cmp-key v.price w.price hv hw)
      ∙ ap (λ z. lex z (reverse (time_cmp v.update w.update)))
          (reverse-compare (key v.price) (key w.price))

  -- An order comes before another, of the same side and both with a number for a price, exactly if its
  -- price is better or if the prices are equal and its time is earlier.
  pub compare_orders-priority :
      (side : OrderSide) (v w : Order Time)
      → HasPrice v
      → HasPrice w
      → is_greater (compare_orders time_cmp side v w) ≡ true
        ↔ Better side (key v.price) (key w.price)
          ⊎ ((key v.price ≡ key w.price) × (is_less (time_cmp v.update w.update) ≡ true))
  compare_orders-priority buy v w hv hw =
      rw (compare_buys v w hv hw, sym (not_greater_reverse (time_cmp v.update w.update)))
        (lex_greater (key v.price) (key w.price) (reverse (time_cmp v.update w.update)))
  compare_orders-priority sell v w hv hw =
      let l = lex_greater (key w.price) (key v.price) (reverse (time_cmp v.update w.update)) in
      rw (compare_sells v w hv hw, sym (not_greater_reverse (time_cmp v.update w.update)))
        ((λ h. grind (arith, l.0 h)), (λ h. l.1 (grind (arith, h))))

module _ {Time : Type 0} {time_cmp : Time → Time → Ordering} (t : IsTimeOrder time_cmp) where
  time_flip : (a b : Time) → is_greater (time_cmp a b) ≡ false → is_less (time_cmp b a) ≡ false
  time_flip a b h = rw (t.swap a b, not_less_reverse) h

  time_unflip : (a b : Time) → is_less (time_cmp a b) ≡ false → is_greater (time_cmp b a) ≡ false
  time_unflip a b h = rw (t.swap a b, not_greater_reverse) h

  late_trans :
      (a b c : Time)
      → is_less (time_cmp a b) ≡ false
      → is_less (time_cmp b c) ≡ false
      → is_less (time_cmp a c) ≡ false
  late_trans a b c h k = time_flip c a (t.trans c b a (time_unflip b c k) (time_unflip a b h))

  lex_flip :
      (i j : ℕ) (a b : Time)
      → is_less (lex (compare i j) (reverse (time_cmp a b))) ≡ false
      → is_greater (lex (compare j i) (reverse (time_cmp b a))) ≡ false
  lex_flip i j a b h =
      (lex_not_greater j i (reverse (time_cmp b a))).1
        (elim ((lex_not_less i j (reverse (time_cmp a b))).0 h) [
          | inl k ↦ inl k
          | inr (e, k) ↦ inr (
            sym e,
            not_greater_reverse (time_cmp b a)
                ∙ time_flip a b (sym (not_less_reverse (time_cmp a b)) ∙ k),
          )
        ])

  late_reverse :
      (a b c : Time)
      → is_greater (reverse (time_cmp a b)) ≡ false
      → is_greater (reverse (time_cmp b c)) ≡ false
      → is_greater (reverse (time_cmp a c)) ≡ false
  late_reverse a b c h k =
      not_greater_reverse (time_cmp a c)
      ∙ late_trans a b c (sym (not_greater_reverse (time_cmp a b)) ∙ h)
          (sym (not_greater_reverse (time_cmp b c)) ∙ k)

  -- The comparer of each side is a total preorder on the orders whose price is a number.
  pub compare_orders-IsComparer :
      (side : OrderSide) → IsComparer HasPrice (compare_orders time_cmp side)
  compare_orders-IsComparer buy = record {
    flip = λ a b ha hb h. rw (compare_buys time_cmp b a hb ha) (
        lex_flip (key a.price) (key b.price) a.update b.update
          (rw (compare_buys time_cmp a b ha hb) at h));
    trans = λ a b c ha hb hc h k. rw (compare_buys time_cmp a c ha hc) (
        lex_trans (key a.price) (key b.price) (key c.price) _ _ _
          (late_reverse a.update b.update c.update) (rw (compare_buys time_cmp a b ha hb) at h)
          (rw (compare_buys time_cmp b c hb hc) at k));
  }
  compare_orders-IsComparer sell = record {
    flip = λ a b ha hb h. rw (compare_sells time_cmp b a hb ha) (
        lex_flip (key b.price) (key a.price) a.update b.update
          (rw (compare_sells time_cmp a b ha hb) at h));
    trans = λ a b c ha hb hc h k. rw (compare_sells time_cmp a c ha hc) (
        lex_trans_down (key a.price) (key b.price) (key c.price) _ _ _
          (late_reverse a.update b.update c.update) (rw (compare_sells time_cmp a b ha hb) at h)
          (rw (compare_sells time_cmp b c hb hc) at k));
  }
