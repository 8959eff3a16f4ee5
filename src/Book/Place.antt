-- ===== src/Book/Place.antt =====
-- BasicMatcher::add_order of src/libcix/book.rs on a book in order.
use mathlib.Core.Path.{subst}
use cixrs.Base.{
  ℕ, ◌+◌, ◌^◌, ◌<◌, ◌≤◌, ◌≡◌, refl, sym, ap, ◌∙◌, ◌⊎◌, inl, inr, ◌↔◌, true, false, Option, List, [],
  ◌∷◌, ◌++◌, map, Ordering, arith, Bool-cases, ltb, length,
}
use cixrs.Run.{ok, Returns, returns, Returns-inv, Returns-mono}
use cixrs.Heap.Tree.{Tree}
use cixrs.TradeTypes.OrderId.{OrderSide, buy, sell}
use cixrs.TradeTypes.ExecutionId.{ExecutionId}
use cixrs.TradeTypes.Orders.{Order, Execution}
use cixrs.TradeTypes.Orders as Orders
use cixrs.TradeTypes.MarketData.{MdExecution}
use cixrs.Book.{BookSide, ExecutionIdGenerator}
use cixrs.Book.Priority.{HasPrice, IsTimeOrder}
use cixrs.Book.Crossing.{crosses_at}
use cixrs.Book.Index.{IsSide, Resting}
use cixrs.Book.Laws.{add_to_side-Added, Added}
use cixrs.Book.Side.{has_order}
use cixrs.Book.Match.{Matching, match_order}
use cixrs.Book.Filled.{Kept, Covers, AllMade, BestFirst, Issued}
use cixrs.Book.Matching.{IsPositive, AllCross, total, CanMatch, Matched, match_order-Matched}
use cixrs.Book.Matcher.{
  OrderBook, Event, ack_order, handle_match, side_of, with_side, opposite, match_new, after_match,
  rest_order, add_on, add_order,
}
use cixrs.Book.Valid.{IsBook, NoCross, rebuilt, rebuilt-IsBook, sides-own, sides-opposite}

module _ {Time : Type 0} where
  near_kept :
      (d : OrderSide) (book : OrderBook Time) (far : BookSide Time) (gen : ExecutionIdGenerator)
      (le : Option (MdExecution Time))
      → side_of d (record (with_side (opposite d) book far) { id_gen = gen; last_exec = le })
        ≡ side_of d book
  near_kept buy book far gen le = refl
  near_kept sell book far gen le = refl

  near_stored :
      (d : OrderSide) (book : OrderBook Time) (far : BookSide Time) (gen : ExecutionIdGenerator)
      (le : Option (MdExecution Time))
      → with_side d
          (record (with_side (opposite d) book far) { id_gen = gen; last_exec = le })
          (side_of d book)
        ≡ record (with_side (opposite d) book far) { id_gen = gen; last_exec = le }
  near_stored buy book far gen le = refl
  near_stored sell book far gen le = refl

  rebuilt_gen :
      (d : OrderSide) (book : OrderBook Time) (far own : BookSide Time) (gen : ExecutionIdGenerator)
      (le : Option (MdExecution Time))
      → (with_side d
          (record (with_side (opposite d) book far) { id_gen = gen; last_exec = le })
          own).id_gen
        ≡ gen
  rebuilt_gen buy book far own gen le = refl
  rebuilt_gen sell book far own gen le = refl

  last_kept :
      (d : OrderSide) (book : OrderBook Time) (far : BookSide Time)
      → (with_side d book far).last_exec ≡ book.last_exec
  last_kept buy book far = refl
  last_kept sell book far = refl

module _ {Time : Type 0} {time_cmp : Time → Time → Ordering} (t : IsTimeOrder time_cmp)
    (clock : ExecutionId → Time) where
  -- The outcome of adding a new order: it is executed as far as it crosses, and rests with what
  -- remains.
  pub record Placed (d : OrderSide) (book : OrderBook Time) (h : IsBook time_cmp book)
      (order : Order Time) (events : List (Event Time)) (book' : OrderBook Time) : Type 0 where
    pub execs : List (Execution Time)
    pub remaining : ℕ
    pub events_are : events ≡ map handle_match execs ++ (ack_order order.id Orders.success ∷ [])
    pub conserved : remaining + total execs ≡ order.quantity
    pub crossing : AllCross (opposite d) order.price execs
    pub book_ok : IsBook time_cmp book'
    pub own :
        (o : Order Time)
        → Resting o (book_ok.tree d)
          ↔ (((o ≡ record order { quantity = remaining }) × (0 < remaining)) ⊎ Resting o (h.tree d))
    pub far :
        (o : Order Time)
        → Resting o (book_ok.tree (opposite d)) ↔ Kept (opposite d) (h.tree (opposite d)) execs o
    pub covers : Covers clock (opposite d) (h.tree (opposite d)) execs
    pub made : AllMade clock (opposite d) (h.tree (opposite d)) order execs
    pub best : BestFirst time_cmp (opposite d) (h.tree (opposite d)) execs
    pub issued : Issued book.id_gen execs
    pub ids : book'.id_gen.seq ≡ book.id_gen.seq + length execs

  -- What adding relies on: a price that is a number, a positive quantity, a free slot on its side,
  -- and ids for the executions.
  pub record CanPlace (d : OrderSide) (book : OrderBook Time) (order : Order Time) : Type 0 where
    pub price : HasPrice order
    pub quantity : 0 < order.quantity
    pub slot : ℕ
    pub rest : List ℕ
    pub room : (side_of d book).orders.free_list ≡ slot ∷ rest
    pub seq : book.id_gen.seq + ((side_of (opposite d) book).orders.pool_len + 1) ≤ 2 ^ 40

  module _ (d : OrderSide) (book : OrderBook Time) (h : IsBook time_cmp book) (order : Order Time)
      (c : CanPlace d book order) where
    abbrev far_side : BookSide Time
    far_side = side_of (opposite d) book

    abbrev start : Matching Time
    start = record { side = far_side; id_gen = book.id_gen; new_order = order }

    can_match :
        CanMatch t clock (opposite d) (far_side.orders.pool_len + 1) start (h.tree (opposite d))
    can_match = record {
      side_ok = h.side_ok (opposite d);
      positive = h.positive (opposite d);
      quantity = c.quantity;
      symbol_id = h.symbol_id;
      seq = c.seq;
      fuel = omega arith;
    }

    module _ (execs : List (Execution Time)) (m : Matching Time)
        (r : Matched t clock (opposite d) start (h.tree (opposite d)) execs m) where
      -- A resting order of the new order's side crosses nothing that is left on the other.
      old_uncrossed : NoCross d (h.tree d) r.tree
      old_uncrossed x y p q =
          let (y0, q0, e, _, _) = (r.resting y).0 q in
          ap (λ (z : Order Time). crosses_at (opposite d) x.price z.price) e
          ∙ h.uncrossed d x y0 p q0

      new_uncrossed :
          0 < m.new_order.quantity
          → (y : Order Time) → Resting y r.tree
          → crosses_at (opposite d) m.new_order.price y.price ≡ false
      new_uncrossed pos y q = elim r.exhausted [
        | inl z ↦ absurd (omega (arith, z, pos))
        | inr n ↦
            ap (λ (z : Order Time). crosses_at (opposite d) z.price y.price) r.new_order ∙ n y q
      ]

      gen_ok : m.id_gen.symbol_id < 2 ^ 20
      gen_ok = subst (λ (g : ExecutionIdGenerator). g.symbol_id < 2 ^ 20) (sym r.id_gen) h.symbol_id

      abbrev events : List (Event Time)
      events = map handle_match execs ++ (ack_order order.id Orders.success ∷ [])

      abbrev remains : Order Time
      remains = record order { quantity = m.new_order.quantity }

      -- The book with the side `own'` in place of the order's own one.
      placed :
          (le : Option (MdExecution Time)) (own' : BookSide Time) (u : Tree (Order Time))
          → IsSide time_cmp d own' u
          → IsPositive u
          → NoCross d u r.tree
          → ((o : Order Time)
              → Resting o u ↔ (((o ≡ remains) × (0 < m.new_order.quantity)) ⊎ Resting o (h.tree d)))
          → Placed d book h order events (rebuilt time_cmp t d book m.side own' m.id_gen le)
      placed le own' u side_ok pos n spec =
          let (b, e) =
            rebuilt-IsBook time_cmp t d book m.side own' m.id_gen le u r.tree side_ok r.side_ok pos
              r.positive n gen_ok in
          let near : b.tree d ≡ u = ap (λ f. f d) e ∙ sides-own u r.tree d in
          let far : b.tree (opposite d) ≡ r.tree =
            ap (λ f. f (opposite d)) e ∙ sides-opposite u r.tree d in
          record {
            execs = execs;
            remaining = m.new_order.quantity;
            events_are = refl;
            conserved = r.conserved;
            crossing = r.crossing;
            book_ok = b;
            own = λ o.
                subst
                  (λ w.
                    Resting o w
                    ↔ (((o ≡ remains) × (0 < m.new_order.quantity)) ⊎ Resting o (h.tree d)))
                  (sym near) (spec o);
            far = λ o.
                subst (λ w. Resting o w ↔ Kept (opposite d) (h.tree (opposite d)) execs o) (sym far)
                  (r.resting o);
            covers = r.covers;
            made = r.made;
            best = r.best;
            issued = r.issued;
            ids =
                ap (λ (g : ExecutionIdGenerator). g.seq)
                  (rebuilt_gen d book m.side own' m.id_gen le ∙ r.id_gen);
          }

      gone :
          (le : Option (MdExecution Time))
          → m.new_order.quantity ≡ 0
          → Placed d book h order events
              (rebuilt time_cmp t d book m.side (side_of d book) m.id_gen le)
      gone le z =
          placed le (side_of d book) (h.tree d) (h.side_ok d) (h.positive d) old_uncrossed (λ o.
            (inr, (λ k. elim k [ inl (_, pos) ↦ absurd (omega (arith, pos, z)) | inr w ↦ w ])))

      kept :
          (le : Option (MdExecution Time)) (s' : BookSide Time)
          → 0 < m.new_order.quantity
          → Added t d (h.tree d) m.new_order s'
          → Placed d book h order events (rebuilt time_cmp t d book m.side s' m.id_gen le)
      kept le s' pos a =
          placed le s' a.tree a.side_ok
            (λ o k. elim ((a.resting o).0 k) [
              | inl e ↦ subst (λ (z : Order Time). 0 < z.quantity) (sym e) pos
              | inr w ↦ h.positive d o w
            ])
            (λ x y k q. elim ((a.resting x).0 k) [
              | inl e ↦
                  ap (λ (z : Order Time). crosses_at (opposite d) z.price y.price) e
                  ∙ new_uncrossed pos y q
              | inr w ↦ old_uncrossed x y w q
            ])
            (λ o. (
              (λ k. elim ((a.resting o).0 k) [
                | inl e ↦ inl (e ∙ r.new_order, pos)
                | inr w ↦ inr w
              ]),
              (λ k. elim k [
                | inl (e, _) ↦ (a.resting o).1 (inl (e ∙ sym r.new_order))
                | inr w ↦ (a.resting o).1 (inr w)
              ]),
            ))

    matched-ok :
        (execs : List (Execution Time)) (m : Matching Time)
        → match_order time_cmp clock (opposite d) (far_side.orders.pool_len + 1) start ≡ ok execs m
        → match_new time_cmp clock d order book
          ≡ ok
              (m.new_order, execs)
              (record (with_side (opposite d) book m.side) { id_gen = m.id_gen })
    unfolding match_new after_match
    matched-ok execs m run = ap (after_match time_cmp clock (opposite d) book) run

    add_new :
        has_order time_cmp order.id (side_of d book) ≡ false
        → Returns (Placed d book h order) (add_on time_cmp clock d order book)
    unfolding add_on match_new rest_order
    add_new fresh =
        let (execs, m, run, r) = Returns-inv (
          match_order-Matched t clock (opposite d) (far_side.orders.pool_len + 1) start
            (h.tree (opposite d)) can_match) in
        let step = matched-ok execs m run in
        elim (Bool-cases (ltb 0 m.new_order.quantity)) [
          | inl p ↦
              (let (x, s', run2, a) = Returns-inv (
                  add_to_side-Added t d (side_of d book) (h.tree d) c.slot c.rest m.new_order
                    (h.side_ok d) c.room (subst HasPrice (sym r.new_order) c.price)
                    (ap (λ (z : Order Time). has_order time_cmp z.id (side_of d book)) r.new_order
                      ∙ fresh)) in
                rw (fresh, step, p, near_kept d book m.side m.id_gen _, run2)
                  (returns (kept execs m r _ s' (positive_of p) a)))
          | inr p ↦
              rw (fresh, step, p)
                (subst (λ z. Returns (Placed d book h order) (ok (events execs m r) z))
                  (near_stored d book m.side m.id_gen _) (returns (gone execs m r _ (zero_of p))))
        ]
      where
        positive_of : {n : ℕ} → ltb 0 n ≡ true → 0 < n
        positive_of p = ground arith

        zero_of : {n : ℕ} → ltb 0 n ≡ false → n ≡ 0
        zero_of p = ground arith

  -- On a book in order, adding an order of a positive quantity and at a price that is a number,
  -- where its side has a free slot and the generator has one id more than the other side has slots,
  -- returns. An order whose id rests on its side is refused as a duplicate and the book stays as it
  -- is. Any other is executed and then acknowledged. Each execution is of a positive quantity,
  -- between the new order and an order that rested on the other side, at the latter's price, which
  -- the new order crosses; they have the ids that the generator makes one after the other. The
  -- quantities executed and the one that remains make up the new order's quantity; its own side
  -- gains the order with what remains, if anything does. The executions take no more from a resting
  -- order than it has; on the other side exactly the orders of which something is left still rest,
  -- and what is left and what the executions took make up the former quantity. Nothing is taken
  -- from an order while something is left of one that has priority over it. The book is in order
  -- again, with no order crossing another.
  pub add_order-Placed :
      (book : OrderBook Time) (h : IsBook time_cmp book) (order : Order Time)
      → CanPlace order.side book order
      → Returns
          (λ events book'.
            ((has_order time_cmp order.id (side_of order.side book) ≡ true)
              × (events ≡ ack_order order.id Orders.duplicate_id ∷ [])
              × (book' ≡ book))
            ⊎ Placed order.side book h order events book')
          (add_order time_cmp clock order book)
  unfolding add_order add_on
  add_order-Placed book h order c =
      elim (Bool-cases (has_order time_cmp order.id (side_of order.side book))) [
        | inl dup ↦ rw dup (returns (inl (refl, refl, refl)))
        | inr fresh ↦
            Returns-mono (add_new order.side book h order c fresh) (λ events book' p. inr p)
      ]
