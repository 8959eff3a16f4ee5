-- ===== src/Book/Matching.antt =====
-- The loop of match_order in src/libcix/book.rs: it ends, and what it leaves.
use mathlib.Core.Path.{subst}
use cixrs.Base.{
  ℕ, zero, suc, ◌+◌, ◌-◌, ◌^◌, ◌<◌, ◌≤◌, ◌≡◌, refl, sym, ap, ◌∙◌, ◌⊎◌, inl, inr, ◌↔◌, true, false,
  Option, none, some, List, [], ◌∷◌, Ordering, arith, Bool-cases, ◌==◌, ==_iff, length, min,
}
use cixrs.Run.{Returns, returns, Returns-inv}
use cixrs.Heap.{HeapHandle, peek}
use cixrs.Heap.Tree.{Tree, is_greater}
use cixrs.Heap.Contents.{Holds}
use cixrs.Heap.Order.{IsComparer}
use cixrs.Heap.Views.{get-Holds, IsOrdered-Holds, Peeked, peek-Peeked}
use cixrs.TradeTypes.OrderId.{OrderSide}
use cixrs.TradeTypes.ExecutionId.{ExecutionId}
use cixrs.TradeTypes.Price.{Price, le}
use cixrs.TradeTypes.Orders.{Order, Execution}
use cixrs.Book.{ExecutionIdGenerator, compare_orders, create_execution}
use cixrs.Book.Filled.{
  counterparty, counterparty-create_execution, Kept, Covers, BestFirst, Issued, AllMade,
  AllMade-taker, price-create_execution,
}
use cixrs.Book.Filled.Step.{BestFirst-step, AllMade-step, Kept-step, Covers-step}
use cixrs.Book.Priority.{HasPrice, IsTimeOrder, compare_orders-IsComparer}
use cixrs.Book.Index.{IsSide, Resting}
use cixrs.Book.Execute.{Executed, execute-Executed}
use cixrs.Book.Match.{Matching, match_step, match_order}
use cixrs.Book.Crossing.{crosses_at, does_cross-at, none_crosses}

-- The quantity that executions exchange.
abbrev pub total : {Time : Type 0} → List (Execution Time) → ℕ
total [] = 0
total (e ∷ es) = e.quantity + total es

-- Every execution is at a price that the new order's price crosses.
abbrev pub AllCross : {Time : Type 0} → OrderSide → Price → List (Execution Time) → Type 0
AllCross side n [] = Unit {0}
AllCross side n (e ∷ es) = (crosses_at side n e.price ≡ true) × AllCross side n es

-- No order of quantity 0 rests.
abbrev pub IsPositive : {Time : Type 0} → Tree (Order Time) → Type 0
IsPositive {Time = Time} u = (o : Order Time) → Resting o u → 0 < o.quantity

not_zero : (n : ℕ) → 0 < n → (n == 0) ≡ false
not_zero n h = ground arith

positive_of : (n : ℕ) → (n == 0) ≡ false → 0 < n
positive_of n h = ground arith

module _ {Time : Type 0} {time_cmp : Time → Time → Ordering} (t : IsTimeOrder time_cmp)
    (clock : ExecutionId → Time) (side : OrderSide) where
  abbrev priority : IsComparer HasPrice (compare_orders time_cmp side)
  priority = compare_orders-IsComparer t side

  -- The outcome of matching.
  pub record Matched (m : Matching Time) (u : Tree (Order Time)) (execs : List (Execution Time))
      (m' : Matching Time) : Type 0 where
    pub tree : Tree (Order Time)
    pub side_ok : IsSide time_cmp side m'.side tree
    pub positive : IsPositive tree
    pub resting : (o : Order Time) → Resting o tree ↔ Kept side u execs o
    pub covers : Covers clock side u execs
    pub made : AllMade clock side u m.new_order execs
    pub best : BestFirst time_cmp side u execs
    pub issued : Issued m.id_gen execs
    pub new_order : m'.new_order ≡ record m.new_order { quantity = m'.new_order.quantity }
    pub conserved : m'.new_order.quantity + total execs ≡ m.new_order.quantity
    pub crossing : AllCross side m.new_order.price execs
    pub id_gen : m'.id_gen ≡ record m.id_gen { seq = m.id_gen.seq + length execs }
    pub exhausted :
        (m'.new_order.quantity ≡ 0)
        ⊎ ((o : Order Time) → Resting o tree → crosses_at side m.new_order.price o.price ≡ false)

  -- What the loop relies on, with fuel for `k` turns.
  pub record CanMatch (k : ℕ) (m : Matching Time) (u : Tree (Order Time)) : Type 0 where
    pub side_ok : IsSide time_cmp side m.side u
    pub positive : IsPositive u
    pub quantity : 0 < m.new_order.quantity
    pub symbol_id : m.id_gen.symbol_id < 2 ^ 20
    pub seq : m.id_gen.seq + k ≤ 2 ^ 40
    pub fuel : m.side.orders.pool_len < length m.side.orders.free_list + k

  Kept-nil :
      (u : Tree (Order Time)) → IsPositive u → (o : Order Time) → Resting o u ↔ Kept side u [] o
  Kept-nil u p o = (
    (λ r. (o, r, refl, p o r, omega arith)),
    (λ (o0, r, d, _, sum).
        (let same : o.quantity ≡ o0.quantity = omega (arith, sum) in
          subst (λ z. Resting z u) (sym (d ∙ ap (λ n. record o0 { quantity = n }) same)) r)),
  )

  -- No execution is needed, or possible.
  nothing_left :
      (m : Matching Time) (u : Tree (Order Time))
      → IsSide time_cmp side m.side u
      → IsPositive u
      → ((m.new_order.quantity ≡ 0)
          ⊎ ((o : Order Time) → Resting o u → crosses_at side m.new_order.price o.price ≡ false))
      → Matched m u [] m
  nothing_left m u h p none_left = record {
    tree = u;
    side_ok = h;
    positive = p;
    resting = Kept-nil u p;
    covers = λ o r. omega arith;
    made = tt;
    best = λ a b ra rb g pos. absurd (omega (arith, pos));
    issued = tt;
    new_order = refl;
    conserved = omega arith;
    crossing = tt;
    id_gen = ap (λ n. record m.id_gen { seq = n }) (omega arith);
    exhausted = none_left;
  }

  module _ (m : Matching Time) (u : Tree (Order Time)) (w : Order Time) (q : ℕ)
      (ex : Execution Time) (m2 : Matching Time) (e : Executed t clock side m u w q ex m2) where
    left-IsPositive : IsPositive u → IsPositive e.taken.tree
    left-IsPositive p o r = elim ((e.taken.resting o).0 r) [
      | inl (d, pos) ↦ subst (λ (z : Order Time). 0 < z.quantity) (sym d) pos
      | inr (r', ne) ↦ p o r'
    ]

    quantity_left : m2.new_order.quantity ≡ m.new_order.quantity - q
    quantity_left = ap (λ (z : Order Time). z.quantity) e.new_order

    same_price : m2.new_order.price ≡ m.new_order.price
    same_price = ap (λ (z : Order Time). z.price) e.new_order

    ex_price : ex.price ≡ w.price
    ex_price =
        ap (λ (z : Execution Time). z.price) e.made
        ∙ price-create_execution clock side ex.id m.new_order w q

    names : counterparty side ex ≡ w.id
    names =
        ap (counterparty side) e.made
        ∙ counterparty-create_execution clock side ex.id m.new_order w q

    crossed :
        crosses_at side m.new_order.price w.price ≡ true
        → crosses_at side m.new_order.price ex.price ≡ true
    crossed c = ap (crosses_at side m.new_order.price) ex_price ∙ c

    more-Matched :
        (es : List (Execution Time)) (m3 : Matching Time)
        → IsSide time_cmp side m.side u
        → Resting w u
        → crosses_at side m.new_order.price w.price ≡ true
        → q ≤ m.new_order.quantity
        → q ≤ w.quantity
        → 0 < q
        → ((o : Order Time) → Resting o u → is_greater (compare_orders time_cmp side o w) ≡ false)
        → Matched m2 e.taken.tree es m3
        → Matched m u (ex ∷ es) m3
    more-Matched es m3 h at_w c le le_w pos top r =
        let later =
          AllMade-taker clock side e.taken.tree m.new_order (m.new_order.quantity - q) es
            (subst (λ z. AllMade clock side e.taken.tree z es) e.new_order r.made) in
        record {
          tree = r.tree;
          side_ok = r.side_ok;
          positive = r.positive;
          resting = λ o.
              (let step =
                  Kept-step t clock side m.side u w q m2.side h at_w e.taken ex names e.ex_quantity
                    es o in
                ((λ k. step.0 ((r.resting o).0 k)), (λ k. (r.resting o).1 (step.1 k))));
          covers =
              Covers-step t clock side m.side u w q m2.side h at_w e.taken ex names e.ex_quantity es
                m.new_order le_w later r.covers;
          issued = (e.issued, subst (λ g. Issued g es) e.id_gen r.issued);
          best =
              BestFirst-step t clock side m.side u w q m2.side h at_w e.taken ex names e.ex_quantity
                es m.new_order top le_w later r.best;
          made = (
            (
              w,
              at_w,
              omega (arith, e.ex_quantity, pos),
              e.made ∙ ap (create_execution clock side ex.id m.new_order w) (sym e.ex_quantity),
            ),
            AllMade-step t clock side m.side u w q m2.side h at_w e.taken ex names e.ex_quantity []
                m.new_order es later,
          );
          new_order =
              r.new_order
              ∙ ap (λ (z : Order Time). record z { quantity = m3.new_order.quantity }) e.new_order;
          conserved = omega (arith, quantity_left, e.ex_quantity, le, r.conserved);
          crossing = (crossed c, subst (λ z. AllCross side z es) same_price r.crossing);
          id_gen =
              r.id_gen
              ∙ ap (λ (g : ExecutionIdGenerator). record g { seq = g.seq + length es }) e.id_gen
              ∙ ap (λ n. record m.id_gen { seq = n }) (omega arith);
          exhausted =
              subst
                (λ z.
                  (m3.new_order.quantity ≡ 0)
                  ⊎ ((o : Order Time) → Resting o r.tree → crosses_at side z o.price ≡ false))
                same_price r.exhausted;
        }

    next-CanMatch :
        (k : ℕ)
        → CanMatch (suc k) m u
        → q ≡ min m.new_order.quantity w.quantity
        → 0 < m2.new_order.quantity
        → CanMatch k m2 e.taken.tree
    next-CanMatch k h qe pos = record {
      side_ok = e.taken.side_ok;
      positive = left-IsPositive h.positive;
      quantity = pos;
      symbol_id =
          subst (λ (g : ExecutionIdGenerator). g.symbol_id < 2 ^ 20) (sym e.id_gen) h.symbol_id;
      seq = omega (arith, ap (λ (g : ExecutionIdGenerator). g.seq) e.id_gen, h.seq);
      fuel = elim e.taken.slots [
        | inl more ↦ absurd (omega (arith, more, qe, quantity_left, pos))
        | inr d ↦ omega (arith, d, e.taken.pool_len, h.fuel)
      ];
    }

  match_step-Matched :
      (k : ℕ) (m : Matching Time) (u : Tree (Order Time)) (top : Option HeapHandle)
      → CanMatch (suc k) m u
      → Peeked priority u top
      → ((m2 : Matching Time) (v : Tree (Order Time))
          → CanMatch k m2 v
          → Returns (Matched m2 v) (match_order time_cmp clock side k m2))
      → Returns
          (Matched m u)
          (match_step time_cmp clock side (match_order time_cmp clock side k) top m)
  unfolding match_step Peeked
  match_step-Matched k m u none h p again =
      returns (nothing_left m u h.side_ok h.positive (inr (λ o (y, j). absurd (p y o j))))
  match_step-Matched k m u (some handle) h (w, j, best) again =
      let found = get-Holds priority m.side.orders u handle.index w h.side_ok.valid j in
      let priced : (y : ℕ) (o : Order Time) → Holds y o u → HasPrice o =
        λ y o r. IsOrdered-Holds priority u y o h.side_ok.valid.ordered r in
      elim (Bool-cases (crosses_at side m.new_order.price w.price)) [
        | inl c ↦
            (let q = min m.new_order.quantity w.quantity in
              let room = h.positive w (handle.index, j) in
              let some_quantity : (q == 0) ≡ false = not_zero q (omega (arith, room, h.quantity)) in
              let (ex, m2, run, e) = Returns-inv (
                execute-Executed t clock side m u handle.index w q h.side_ok j
                  (h.symbol_id, omega (arith, h.seq))) in
              elim (Bool-cases (m2.new_order.quantity == 0)) [
                | inl z ↦
                    rw (found, does_cross-at t side m.new_order w, c, some_quantity, run, z)
                      (returns (
                        more-Matched m u w q ex m2 e [] m2 h.side_ok (handle.index, j) c
                          (omega arith) (omega arith) (omega (arith, room, h.quantity))
                          (λ o (y, r). best y o r)
                          (nothing_left m2 e.taken.tree e.taken.side_ok
                            (left-IsPositive m u w q ex m2 e h.positive)
                            (inl ((==_iff m2.new_order.quantity 0).0 z)))))
                | inr z ↦
                    (let (es, m3, run3, r) = Returns-inv (
                        again m2 e.taken.tree (
                          next-CanMatch m u w q ex m2 e k h refl
                            (positive_of m2.new_order.quantity z))) in
                      rw (found, does_cross-at t side m.new_order w, c, some_quantity, run, z, run3)
                        (returns (
                          more-Matched m u w q ex m2 e es m3 h.side_ok (handle.index, j) c
                            (omega arith) (omega arith) (omega (arith, room, h.quantity))
                            (λ o (y, z). best y o z) r)))
              ])
        | inr c ↦
            rw (found, does_cross-at t side m.new_order w, c)
              (returns (
                nothing_left m u h.side_ok h.positive (
                  inr (λ o (y, r).
                    none_crosses t side m.new_order.price w o (priced handle.index w j)
                      (priced y o r) (best y o r) c))))
      ]

  pub match_order-Matched :
      (k : ℕ) (m : Matching Time) (u : Tree (Order Time))
      → CanMatch k m u
      → Returns (Matched m u) (match_order time_cmp clock side k m)
  unfolding match_order
  match_order-Matched zero m u h = absurd (omega (arith, h.fuel, h.side_ok.valid.room))
  match_order-Matched (suc k) m u h =
      match_step-Matched k m u (peek m.side.orders) h
        (peek-Peeked priority m.side.orders u h.side_ok.valid) (match_order-Matched k)
