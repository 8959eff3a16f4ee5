-- ===== src/Heap/Attach.antt =====
-- insert_impl of src/libcix/heap.rs: a reset node joins the heap.
use mathlib.Core.Path.{subst}
use cixrs.Base.{ℕ, ◌+◌, ◌≤◌, ◌≡◌, refl, ap, ◌⊎◌, inl, inr, false, some, none, Ordering, arith}
use cixrs.Run.{Returns, returns, Returns-inv, Returns-eq}
use cixrs.Heap.{HeapPtr, default_md, TreeHeap, insert_impl}
use cixrs.Heap.Tree.{Tree, leaf, node, root_of, size_of, has, Distinct, graft}
use cixrs.Heap.Owns.{Owns, Reshaped}
use cixrs.Heap.Graft.{insert_node-Grafted}

module _ {T : Type 0} (cmp : T → T → Ordering) where
  none_either : {q : HeapPtr} → (q ≡ none) ⊎ (q ≡ none) → q ≡ none
  none_either (inl e) = e
  none_either (inr e) = e

  insert_impl_at :
      (heap : TreeHeap T) (t : Tree T) (i : ℕ) (v : T)
      → Owns heap.pool none t
      → Distinct t
      → has i t ≡ false
      → heap.pool i ≡ some (record { value = v; md = default_md })
      → size_of t ≤ heap.pool_len
      → Returns
          (λ _. Reshaped heap (graft cmp t i v))
          (insert_impl cmp i (record heap { root = root_of t }))
  unfolding insert_impl graft
  insert_impl_at heap leaf i v o d out at_i room = returns (record {
    root = refl;
    owns = (at_i, tt, tt);
    same = λ x h. refl;
    free_list = refl;
    pool_len = refl;
  })
  insert_impl_at heap (node l h u r) i v o d out at_i room =
      let (p, pool1, run, (q, known, b)) = Returns-inv (
        insert_node-Grafted cmp (heap.pool_len + 1) heap.pool none l h u r i _ o d out at_i
          (omega arith)) in
      rw run (
        returns (record {
          root = b.top;
          owns =
              subst (λ z. Owns pool1 z (graft cmp (node l h u r) i v)) (none_either known) b.owns;
          same = b.same;
          free_list = refl;
          pool_len = refl;
        }))

  pub insert_impl-Reshaped :
      (heap : TreeHeap T) (t : Tree T) (i : ℕ) (v : T)
      → heap.root ≡ root_of t
      → Owns heap.pool none t
      → Distinct t
      → has i t ≡ false
      → heap.pool i ≡ some (record { value = v; md = default_md })
      → size_of t ≤ heap.pool_len
      → Returns (λ _. Reshaped heap (graft cmp t i v)) (insert_impl cmp i heap)
  insert_impl-Reshaped heap t i v top o d out at_i room =
      Returns-eq (ap (insert_impl cmp i) (λ k. record heap { root = top k }))
        (insert_impl_at heap t i v o d out at_i room)
