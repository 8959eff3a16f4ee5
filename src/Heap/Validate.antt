-- ===== src/Heap/Validate.antt =====
-- validate of src/libcix/heap.rs: its assertions hold of every valid heap.
use cixrs.Base.{
  ℕ, zero, suc, ◌+◌, ◌<◌, ◌≡◌, refl, true, false, ◌||◌, some, none, Ordering, List, [], ◌∷◌, arith,
  ◌==◌,
}
use cixrs.Run.{ok}
use cixrs.Heap.{HeapPtr, Pool, TreeHeap, listed, check_child, validate_node, validate}
use cixrs.Heap.Tree.{
  Tree, leaf, node, root_of, size_of, has, Distinct, at_root, ne_of_has, in_left, in_right,
  Apart-symm,
}
use cixrs.Heap.Owns.{Owns, get_node-ok}
use cixrs.Heap.Order.{IsOrdered, Below}
use cixrs.Heap.Valid.{IsValid}

cons_unseen :
    (x i : ℕ) (seen : List ℕ)
    → (x == i) ≡ false
    → listed x seen ≡ false
    → listed x (i ∷ seen) ≡ false
cons_unseen x i seen h k = ground arith

module _ {T : Type 0} (P : T → Type 0) (cmp : T → T → Ordering) where
  check_child-ok :
      (pool : Pool T) (i : ℕ) (v : T) (t : Tree T)
      → Owns pool (some i) t
      → Below P cmp v t
      → check_child cmp i v (root_of t) pool ≡ ok (size_of t) pool
  unfolding check_child
  check_child-ok pool i v leaf o b = refl
  check_child-ok pool i v (node l j w r) o b =
      let self : (i == i) ≡ true = ground arith in rw (get_node-ok pool j _ (o.0), b, self)

  -- What a run of validate_node on a subtree gives: the pool as it was, and its nodes visited.
  abbrev Visits : ℕ → Pool T → Tree T → List ℕ → Type 0
  Visits k pool t seen =
      (seen' : List ℕ) × (validate_node cmp k (root_of t) seen pool ≡ ok seen' pool)
      × ((x : ℕ) → listed x seen' ≡ (has x t || listed x seen))

  listed_later :
      (x i : ℕ) (l r : Tree T) (seen seen1 seen2 : List ℕ)
      → listed x seen1 ≡ (has x l || ((x == i) || listed x seen))
      → listed x seen2 ≡ (has x r || listed x seen1)
      → listed x seen2 ≡ (((x == i) || (has x l || has x r)) || listed x seen)
  listed_later x i l r seen seen1 seen2 a b = ground arith

  unseen :
      (x i : ℕ) (l : Tree T) (seen seen1 : List ℕ)
      → listed x seen1 ≡ (has x l || ((x == i) || listed x seen))
      → has x l ≡ false
      → (x == i) ≡ false
      → listed x seen ≡ false
      → listed x seen1 ≡ false
  unseen x i l seen seen1 a b d e = ground arith

  validate_node-Visits :
      (k : ℕ) (pool : Pool T) (par : HeapPtr) (t : Tree T) (seen : List ℕ)
      → Owns pool par t
      → IsOrdered P cmp t
      → Distinct t
      → ((x : ℕ) → has x t ≡ true → listed x seen ≡ false)
      → size_of t < k
      → Visits k pool t seen
  unfolding validate_node
  validate_node-Visits zero pool par t seen o ord d fresh fuel = absurd (omega arith)
  validate_node-Visits (suc k) pool par leaf seen o ord d fresh fuel = (seen, refl, λ x. refl)
  validate_node-Visits (suc k) pool par (node l i v r) seen o ord d fresh fuel =
      let (seen1, run1, all1) =
        validate_node-Visits k pool (some i) l (i ∷ seen) o.1 ord.3 d.3
          (λ x h. cons_unseen x i seen (ne_of_has x i l h d.0) (fresh x (in_left x l i v r h)))
          (omega arith) in
      let (seen2, run2, all2) =
        validate_node-Visits k pool (some i) r seen1 o.2 ord.4 d.4
          (λ x h.
            unseen x i l seen seen1 (all1 x) (Apart-symm l r d.2 x h) (ne_of_has x i r h d.1)
              (fresh x (in_right x l i v r h)))
          (omega arith) in
      let sized : (suc (size_of l + size_of r) == size_of l + size_of r + 1) ≡ true =
        ground arith in
      (
        seen2,
        rw
            (
              fresh i (at_root l i v r),
              get_node-ok pool i _ (o.0),
              check_child-ok pool i v l o.1 ord.1,
              check_child-ok pool i v r o.2 ord.2,
              sized,
              run1,
            )
            run2,
        λ x. listed_later x i l r seen seen1 seen2 (all1 x) (all2 x),
      )

  -- The checks of `validate` on a valid heap all pass, and it changes nothing.
  pub validate-ok :
      (heap : TreeHeap T) (t : Tree T) → IsValid P cmp heap t → validate cmp heap ≡ ok tt heap
  unfolding validate
  validate-ok heap t h =
      let (seen, run, _) =
        validate_node-Visits (heap.pool_len + 1) heap.pool none t [] h.owns h.ordered h.distinct
          (λ x e. refl) (omega (arith, h.room)) in
      rw (h.root, run)
