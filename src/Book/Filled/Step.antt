-- ===== src/Book/Filled/Step.antt =====
-- One execution of match_order (src/libcix/book.rs) put before those after it.
use mathlib.Core.Path.{subst}
use cixrs.Base.{
  ℕ, ◌+◌, ◌-◌, ◌<◌, ◌≤◌, ◌≡◌, refl, sym, ap, ◌∙◌, ◌⊎◌, inl, inr, ◌↔◌, ◌≢◌, Bool, ltb, true≢false,
  true, false, List, [], ◌∷◌, Ordering, arith, Bool-cases,
}
use cixrs.Heap.Tree.{Tree, is_greater}
use cixrs.Heap.Contents.{Holds}
use cixrs.TradeTypes.OrderId.{OrderId, OrderSide, buy, sell}
use cixrs.TradeTypes.ExecutionId.{ExecutionId}
use cixrs.TradeTypes.Orders.{Order, Execution, id_eq}
use cixrs.Book.{BookSide, create_execution, compare_orders}
use cixrs.Book.Priority.{IsTimeOrder, compare_orders-IsComparer}
use cixrs.Book.Index.{IsSide, Resting, Holds-unique, id_eq_iff}
use cixrs.Book.Match.{reduce}
use cixrs.Book.Execute.{Taken}
use cixrs.Book.Filled.{
  counterparty, filled, Kept, BestFirst, AllMade, Covers, create_execution-reduced, unnamed,
}

-- The quantity does not count in the priority.
priority_reduced :
    {Time : Type 0} (time_cmp : Time → Time → Ordering) (side : OrderSide) (a b : Order Time)
    (n : ℕ)
    → compare_orders time_cmp side (record a { quantity = n }) b ≡ compare_orders time_cmp side a b
unfolding compare_orders
priority_reduced time_cmp buy a b n = refl
priority_reduced time_cmp sell a b n = refl

module _ {Time : Type 0} {time_cmp : Time → Time → Ordering} (t : IsTimeOrder time_cmp)
    (clock : ExecutionId → Time) (side : OrderSide) where
  -- On a side in order an id names one order.
  Resting-unique :
      (s : BookSide Time) (u : Tree (Order Time)) (o b : Order Time)
      → IsSide time_cmp side s u
      → Resting o u
      → Resting b u
      → o.id ≡ b.id
      → o ≡ b
  Resting-unique s u o b h (y, j) (x, k) d =
      let e = (h.indexed b.id y).1 (o, j, d) in
      let f = (h.indexed b.id x).1 (b, k, refl) in
      let same : y ≡ x = (cc) in
      Holds-unique time_cmp side (compare_orders-IsComparer t side) s.orders u x o b h.valid
        (subst (λ z. Holds z o u) same j) k

  -- An execution of the quantity `q` against the order `w` of the side `s`, and those after it.
  module _ (s : BookSide Time) (u : Tree (Order Time)) (w : Order Time) (q : ℕ) (s' : BookSide Time)
      (h : IsSide time_cmp side s u) (at_w : Resting w u) (k : Taken t clock side s u w q s')
      (ex : Execution Time) (names : counterparty side ex ≡ w.id) (amount : ex.quantity ≡ q)
      (es : List (Execution Time)) where
    filled_same : filled side w.id (ex ∷ es) ≡ q + filled side w.id es
    filled_same =
        let self : id_eq w.id (counterparty side ex) ≡ true =
          (id_eq_iff w.id (counterparty side ex)).1 (sym names) in
        rw self (ap (λ z. z + filled side w.id es) amount)

    filled_other : (id : OrderId) → id ≢ w.id → filled side id (ex ∷ es) ≡ filled side id es
    filled_other id ne = elim (Bool-cases (id_eq id (counterparty side ex))) [
      | inl y ↦ absurd (ne ((id_eq_iff id (counterparty side ex)).0 y ∙ names))
      | inr n ↦ rw n (omega arith)
    ]

    -- Either the order is the one that is executed, or it has another id and stays.
    same_or_other : (o : Order Time) → Resting o u → (o ≡ w) ⊎ ((o.id ≢ w.id) × Resting o k.tree)
    same_or_other o r = elim (Bool-cases (id_eq o.id w.id)) [
      | inl y ↦ inl (Resting-unique s u o w h r at_w ((id_eq_iff o.id w.id).0 y))
      | inr n ↦
          (let ne : o.id ≢ w.id = λ d. absurd (cross n ((id_eq_iff o.id w.id).1 d)) in
            inr (ne, (k.resting o).1 (inr (r, ne))))
    ]
      where
        cross : {b : Bool} → b ≡ false → b ≡ true → ⊥
        cross f g = cc

    pub Kept-step : (o : Order Time) → Kept side k.tree es o ↔ Kept side u (ex ∷ es) o
    Kept-step o = (
      (λ (o1, r1, d1, pos, sum). elim ((k.resting o1).0 r1) [
        | inl (e, some_left) ↦
            (let same_q : o1.quantity ≡ w.quantity - q = ap (λ (z : Order Time). z.quantity) e in
              let same_f : filled side o1.id es ≡ filled side w.id es =
                ap (λ (z : Order Time). filled side z.id es) e in
              (
                w,
                at_w,
                d1 ∙ ap (λ (z : Order Time). record z { quantity = o.quantity }) e,
                pos,
                omega (arith, filled_same, sum, same_q, same_f, some_left),
              ))
        | inr (r, ne) ↦ (o1, r, d1, pos, ap (λ z. o.quantity + z) (filled_other o1.id ne) ∙ sum)
      ]),
      (λ (o0, r0, d0, pos, sum). elim (same_or_other o0 r0) [
        | inl e ↦
            (let same_q : o0.quantity ≡ w.quantity = ap (λ (z : Order Time). z.quantity) e in
              let same_f : filled side o0.id (ex ∷ es) ≡ filled side w.id (ex ∷ es) =
                ap (λ (z : Order Time). filled side z.id (ex ∷ es)) e in
              let left : Order Time = reduce time_cmp clock q w in
              (
                left,
                (k.resting left).1
                    (inl (refl, omega (arith, filled_same, sum, same_q, same_f, pos))),
                d0 ∙ ap (λ (z : Order Time). record z { quantity = o.quantity }) e,
                pos,
                omega (arith, filled_same, sum, same_q, same_f),
              ))
        | inr (ne, r) ↦
            (o0, r, d0, pos, ap (λ z. o.quantity + z) (sym (filled_other o0.id ne)) ∙ sum)
      ]),
    )

    -- Nothing more is taken from an order that is used up.
    spent :
        (new : Order Time)
        → AllMade clock side k.tree new es
        → ltb q w.quantity ≡ false
        → filled side w.id es ≡ 0
    spent new made ge = unnamed clock side k.tree new w.id es made (λ z rz d.
        elim ((k.resting z).0 rz) [
          | inl (_, pos) ↦ no_more q w.quantity ge pos
          | inr (_, ne) ↦ ne d
        ])
      where
        no_more : (a b : ℕ) → ltb a b ≡ false → 0 < b - a → ⊥
        no_more a b h k = ground arith

    pub Covers-step :
        (new : Order Time)
        → q ≤ w.quantity
        → AllMade clock side k.tree new es
        → Covers clock side k.tree es
        → Covers clock side u (ex ∷ es)
    Covers-step new le made c o r = elim (same_or_other o r) [
      | inl e ↦
          (let same_q : o.quantity ≡ w.quantity = ap (λ (z : Order Time). z.quantity) e in
            let same_f : filled side o.id (ex ∷ es) ≡ filled side w.id (ex ∷ es) =
              ap (λ (z : Order Time). filled side z.id (ex ∷ es)) e in
            elim (Bool-cases (ltb q w.quantity)) [
              | inl lt ↦
                  (let left : Order Time = reduce time_cmp clock q w in
                    let within = c left ((k.resting left).1 (inl (refl, more q w.quantity lt))) in
                    omega (arith, within, filled_same, same_q, same_f, more q w.quantity lt))
              | inr ge ↦ omega (arith, spent new made ge, filled_same, same_q, same_f, le)
            ])
      | inr (ne, r') ↦ omega (arith, filled_other o.id ne, c o r')
    ]
      where
        more : (a b : ℕ) → ltb a b ≡ true → 0 < b - a
        more a b h = ground arith

    -- Nothing is left of an order after it lost priority to those that are executed.
    pub BestFirst-step :
        (new : Order Time)
        → ((o : Order Time) → Resting o u → is_greater (compare_orders time_cmp side o w) ≡ false)
        → q ≤ w.quantity
        → AllMade clock side k.tree new es
        → BestFirst time_cmp side k.tree es
        → BestFirst time_cmp side u (ex ∷ es)
    BestFirst-step new best le made first a b ra rb g pos = elim (same_or_other b rb) [
      | inl e ↦ absurd (
          true≢false
            (sym g ∙ ap (λ z. is_greater (compare_orders time_cmp side a z)) e ∙ best a ra))
      | inr (nb, rb') ↦
          (let pos' : 0 < filled side b.id es = omega (arith, pos, filled_other b.id nb) in
            elim (same_or_other a ra) [
              | inr (na, ra') ↦ filled_other a.id na ∙ first a b ra' rb' g pos'
              | inl e ↦
                  (let same_q : a.quantity ≡ w.quantity = ap (λ (z : Order Time). z.quantity) e in
                    let same_f : filled side a.id (ex ∷ es) ≡ filled side w.id (ex ∷ es) =
                      ap (λ (z : Order Time). filled side z.id (ex ∷ es)) e in
                    elim (Bool-cases (ltb q w.quantity)) [
                      | inl lt ↦
                          (let left : Order Time = reduce time_cmp clock q w in
                            let before : is_greater (compare_orders time_cmp side left b) ≡ true =
                              ap is_greater (priority_reduced time_cmp side w b (w.quantity - q))
                              ∙ ap
                                  (λ (z : Order Time).
                                    is_greater (compare_orders time_cmp side z b))
                                  (sym e)
                              ∙ g in
                            let used =
                              first left b ((k.resting left).1 (inl (refl, more q w.quantity lt)))
                                rb' before pos' in
                            omega (arith, used, filled_same, same_q, same_f, le))
                      | inr ge ↦ omega (
                        arith,
                        spent new made ge,
                        filled_same,
                        same_q,
                        same_f,
                        le,
                        no_less q w.quantity ge,
                      )
                    ])
            ])
    ]
      where
        more : (a b : ℕ) → ltb a b ≡ true → 0 < b - a
        more a b h = ground arith

        no_less : (a b : ℕ) → ltb a b ≡ false → b ≤ a
        no_less a b h = ground arith

    -- The executions after this one name orders that rested before it.
    pub AllMade-step :
        (new : Order Time) (later : List (Execution Time))
        → AllMade clock side k.tree new later
        → AllMade clock side u new later
    AllMade-step new [] made = tt
    AllMade-step new (e ∷ later) ((o1, r1, pos, m), made) = (
      (elim ((k.resting o1).0 r1) [
        | inl (d, _) ↦ (
          w,
          at_w,
          pos,
          m
              ∙ ap (λ z. create_execution clock side e.id new z e.quantity) d
              ∙ create_execution-reduced clock side e.id new w (w.quantity - q) e.quantity,
        )
        | inr (r, _) ↦ (o1, r, pos, m)
      ]),
      AllMade-step new later made,
    )
