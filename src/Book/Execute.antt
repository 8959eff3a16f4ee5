-- ===== src/Book/Execute.antt =====
-- One execution of match_order in src/libcix/book.rs.
use mathlib.Core.Path.{subst}
use cixrs.Base.{
  ℕ, ◌+◌, ◌-◌, ◌^◌, ◌<◌, ◌≡◌, refl, sym, ap, ◌∙◌, ◌⊎◌, inl, inr, ◌↔◌, ◌≢◌, true, false, Ordering,
  arith, Bool-cases, ◌==◌, length,
}
use cixrs.Run.{ok, Returns, returns, Returns-inv}
use cixrs.Heap.{TreeHeap}
use cixrs.Heap.Tree.{Tree}
use cixrs.Heap.Contents.{Holds}
use cixrs.Heap.Order.{IsComparer}
use cixrs.Heap.Views.{get-Holds, IsOrdered-Holds}
use cixrs.Heap.Laws.{update-Updated, Updated}
use cixrs.TradeTypes.OrderId.{OrderSide, buy, sell}
use cixrs.TradeTypes.ExecutionId.{ExecutionId, new-ExecutionFields}
use cixrs.TradeTypes.Orders.{Order, Execution}
use cixrs.Book.{BookSide, compare_orders, next_id, ExecutionIdGenerator, create_execution}
use cixrs.Book.Priority.{HasPrice, IsTimeOrder, compare_orders-IsComparer}
use cixrs.Book.Index.{IsSide, Resting, Holds-unique, indexed-update}
use cixrs.Book.Laws.{remove_order-Cancelled, Cancelled}
use cixrs.Book.Match.{Matching, execute, reduce}

-- The generator can make an id.
abbrev pub CanIssue : ExecutionIdGenerator → Type 0
CanIssue gen = (gen.symbol_id < 2 ^ 20) × (gen.seq < 2 ^ 40)

next_id-ok :
    (gen : ExecutionIdGenerator)
    → CanIssue gen
    → (id : ExecutionId) × (next_id gen ≡ ok id (record gen { seq = gen.seq + 1 }))
unfolding next_id
next_id-ok gen (h, k) =
    let (id, e, _) = new-ExecutionFields gen.symbol_id gen.seq h k in (id, rw (next_id, e) refl)

create_execution-made :
    {Time : Type 0} (clock : ExecutionId → Time) (d : OrderSide) (id : ExecutionId)
    (n b : Order Time) (q : ℕ)
    → ((create_execution clock d id n b q).quantity ≡ q)
      × ((create_execution clock d id n b q).id ≡ id)
unfolding create_execution
create_execution-made clock buy id n b q = (refl, refl)
create_execution-made clock sell id n b q = (refl, refl)

module _ {Time : Type 0} {time_cmp : Time → Time → Ordering} (t : IsTimeOrder time_cmp)
    (clock : ExecutionId → Time) (side : OrderSide) where
  abbrev priority : IsComparer HasPrice (compare_orders time_cmp side)
  priority = compare_orders-IsComparer t side

  -- The side after `q` was taken from the order `b`: the order is there with what remains of it, or
  -- gone with its slot freed when nothing remains.
  pub record Taken (s : BookSide Time) (u : Tree (Order Time)) (b : Order Time) (q : ℕ)
      (s' : BookSide Time) : Type 0 where
    pub tree : Tree (Order Time)
    pub side_ok : IsSide time_cmp side s' tree
    pub resting :
        (o : Order Time)
        → Resting o tree ↔ (
            ((o ≡ reduce time_cmp clock q b) × (0 < b.quantity - q))
            ⊎ (Resting o u × (o.id ≢ b.id)))
    pub slots :
        ((0 < b.quantity - q) ⊎ (length s'.orders.free_list ≡ length s.orders.free_list + 1))
    pub pool_len : s'.orders.pool_len ≡ s.orders.pool_len

  -- The outcome of an execution of the quantity `q` against the order `b`.
  pub record Executed (m : Matching Time) (u : Tree (Order Time)) (b : Order Time) (q : ℕ)
      (ex : Execution Time) (m' : Matching Time) : Type 0 where
    pub taken : Taken m.side u b q m'.side
    pub new_order : m'.new_order ≡ reduce time_cmp clock q m.new_order
    pub id_gen : m'.id_gen ≡ record m.id_gen { seq = m.id_gen.seq + 1 }
    pub ex_quantity : ex.quantity ≡ q
    pub issued : next_id m.id_gen ≡ ok ex.id (record m.id_gen { seq = m.id_gen.seq + 1 })
    pub made : ex ≡ create_execution clock side ex.id m.new_order b q

  module _ (s : BookSide Time) (u : Tree (Order Time)) (x : ℕ) (b : Order Time) (q : ℕ)
      (h : IsSide time_cmp side s u) (k : Holds x b u) where
    abbrev left : Order Time
    left = reduce time_cmp clock q b

    one_handle : (y : ℕ) (o : Order Time) → Holds y o u → o.id ≡ b.id → y ≡ x
    one_handle y o j d =
        let e = (h.indexed b.id y).1 (o, j, d) in let f = (h.indexed b.id x).1 (b, k, refl) in cc

    -- The orders on the side after the update, whatever remains.
    Resting-after :
        (heap : TreeHeap (Order Time)) (v : Updated priority s.orders u x left heap)
        (o : Order Time)
        → Resting o v.tree ↔ ((o ≡ left) ⊎ (Resting o u × (o.id ≢ b.id)))
    Resting-after heap v o = (
      (λ (y, j). elim ((v.holds y o).0 j) [
        | inl (_, d) ↦ inl d
        | inr (j', ne) ↦ inr ((y, j'), λ d. ne (one_handle y o j' d))
      ]),
      (λ c. elim c [
        | inl d ↦ (x, (v.holds x o).1 (inl (refl, d)))
        | inr ((y, j), ne) ↦ (
          y,
          (v.holds y o).1 (
              inr (
                j,
                λ d. ne (
                    ap (λ (z : Order Time). z.id)
                      (Holds-unique time_cmp side priority s.orders u x o b h.valid
                        (subst (λ z. Holds z o u) d j) k)),
              )),
        )
      ]),
    )

    abbrev updated : TreeHeap (Order Time) → BookSide Time
    updated heap = record s { orders = heap }

    updated-IsSide :
        (heap : TreeHeap (Order Time)) (v : Updated priority s.orders u x left heap)
        → IsSide time_cmp side (updated heap) v.tree
    updated-IsSide heap v = record {
      valid = v.valid;
      indexed = indexed-update time_cmp side priority s u v.tree x b left h k refl v.holds;
    }

    kept-Taken :
        (heap : TreeHeap (Order Time)) (v : Updated priority s.orders u x left heap)
        → 0 < b.quantity - q
        → Taken s u b q (updated heap)
    kept-Taken heap v pos = record {
      tree = v.tree;
      side_ok = updated-IsSide heap v;
      resting = λ o.
          (let r = Resting-after heap v o in
            (
              (λ j. elim (r.0 j) [ inl d ↦ inl (d, pos) | inr w ↦ inr w ]),
              (λ j. elim j [ inl (d, _) ↦ r.1 (inl d) | inr w ↦ r.1 (inr w) ]),
            ));
      slots = inl pos;
      pool_len = v.pool_len;
    }

    gone-Taken :
        (heap : TreeHeap (Order Time)) (v : Updated priority s.orders u x left heap)
        (s' : BookSide Time)
        → Cancelled t side (updated heap) v.tree b.id s'
        → (0 < b.quantity - q → ⊥)
        → Taken s u b q s'
    gone-Taken heap v s' w none_left = record {
      tree = w.tree;
      side_ok = w.side_ok;
      resting = λ o.
          (let r = Resting-after heap v o in
            (
              (λ j. elim (r.0 ((w.resting o).0 j).0) [
                | inl d ↦ absurd (((w.resting o).0 j).1 (ap (λ (z : Order Time). z.id) d))
                | inr p ↦ inr p
              ]),
              (λ j. elim j [
                | inl (_, pos) ↦ absurd (none_left pos)
                | inr p ↦ (w.resting o).1 (r.1 (inr p), p.1)
              ]),
            ));
      slots = inr (
          omega (
            arith,
            ap length (w.freed x ((h.indexed b.id x).1 (b, k, refl))),
            ap length v.free_list,
          ));
      pool_len = w.pool_len ∙ v.pool_len;
    }

  pub execute-Executed :
      (m : Matching Time) (u : Tree (Order Time)) (x : ℕ) (b : Order Time) (q : ℕ)
      → IsSide time_cmp side m.side u
      → Holds x b u
      → CanIssue m.id_gen
      → Returns (Executed m u b q) (execute time_cmp clock side (record { index = x }) b q m)
  unfolding execute
  execute-Executed m u x b q h k g =
      let s = m.side in
      let b' = left s u x b q h k in
      let (id, e) = next_id-ok m.id_gen g in
      let priced = IsOrdered-Holds priority u x b h.valid.ordered k in
      let (_, heap, run, v) =
        Returns-inv
          (update-Updated priority s.orders u x b (reduce time_cmp clock q) h.valid k priced) in
      let now : Holds x b' v.tree = (v.holds x b').1 (inl (refl, refl)) in
      let ex = create_execution-made clock side id m.new_order b q in
      elim (Bool-cases (b.quantity - q == 0)) [
        | inl z ↦
            (let (_, s2, run2, w) = Returns-inv (
                remove_order-Cancelled t side (updated s u x b q h k heap) v.tree b.id
                  (updated-IsSide s u x b q h k heap v)) in
              rw (e, run, get-Holds priority heap v.tree x b' v.valid now, z, run2)
                (returns (record {
                  taken = gone-Taken s u x b q h k heap v s2 w (spent z);
                  new_order = refl;
                  id_gen = refl;
                  ex_quantity = ex.0;
                  issued =
                      e ∙ ap (λ z. ok z (record m.id_gen { seq = m.id_gen.seq + 1 })) (sym ex.1);
                  made = ap (λ z. create_execution clock side z m.new_order b q) (sym ex.1);
                })))
        | inr z ↦
            rw (e, run, get-Holds priority heap v.tree x b' v.valid now, z)
              (returns (record {
                taken = kept-Taken s u x b q h k heap v (remains z);
                new_order = refl;
                id_gen = refl;
                ex_quantity = ex.0;
                issued = e ∙ ap (λ z. ok z (record m.id_gen { seq = m.id_gen.seq + 1 })) (sym ex.1);
                made = ap (λ z. create_execution clock side z m.new_order b q) (sym ex.1);
              }))
      ]
    where
      spent : {n : ℕ} → (n == 0) ≡ true → 0 < n → ⊥
      spent z pos = ground arith

      remains : {n : ℕ} → (n == 0) ≡ false → 0 < n
      remains z = ground arith
