-- ===== src/Heap/Valid.antt =====
-- The invariant of the tree heap of src/libcix/heap.rs, and what its operations do to the heap seen
-- as a map from handles to values.
use mathlib.Core.Path.{subst}
use cixrs.Base.{
  ℕ, ◌+◌, ◌≤◌, ◌≡◌, refl, sym, ap, ◌∙◌, ◌⊎◌, inl, inr, ◌↔◌, true, false, some, none, Ordering,
  Option, List, [], ◌∷◌, arith, ◌==◌, ==_iff, Bool-cases, length, true≢false,
}
use cixrs.Run.{Returns, returns, Returns-bind}
use cixrs.Heap.{HeapHandle, HeapNode, default_md, Pool, TreeHeap, write, insert_at, listed, listed}
use cixrs.Heap.Tree.{
  Tree, root_of, size_of, has, Distinct, graft, Distinct-graft, size-graft, graft_out, out-graft,
}
use cixrs.Heap.Owns.{Owns, Owns-write, write-here, write-other, modify_node-ok}
use cixrs.Heap.Attach.{insert_impl-Reshaped}
use cixrs.Heap.Contents.{Holds, Holds-graft}
use cixrs.Heap.Order.{IsComparer, IsOrdered, IsOrdered-graft}

listed_ne : (x i : ℕ) (xs : List ℕ) → listed x xs ≡ true → listed i xs ≡ false → (x == i) ≡ false
listed_ne x i xs h k = elim (Bool-cases (x == i)) [
  | inl e ↦ absurd (true≢false (sym h ∙ ap (λ z. listed z xs) ((==_iff x i).0 e) ∙ k))
  | inr e ↦ e
]

module _ {T : Type 0} where
  -- The free slots are in the pool, in no node of the tree, and listed once.
  abbrev pub FreeSlots : Pool T → Tree T → List ℕ → Type 0
  FreeSlots pool t [] = Unit {0}
  FreeSlots pool t (x ∷ xs) =
      (has x t ≡ false)
      × ((n : HeapNode T) × (pool x ≡ some n))
      × (listed x xs ≡ false)
      × FreeSlots pool t xs

  -- Free slots that lie outside the new tree too, where the pool did not change.
  pub FreeSlots-kept :
      (pool pool' : Pool T) (t u : Tree T) (xs : List ℕ)
      → ((x : ℕ) → listed x xs ≡ true → has x t ≡ false → has x u ≡ false)
      → ((x : ℕ) → has x u ≡ false → pool' x ≡ pool x)
      → FreeSlots pool t xs
      → FreeSlots pool' u xs
  FreeSlots-kept pool pool' t u [] keep same f = tt
  FreeSlots-kept pool pool' t u (x ∷ xs) keep same f =
      let out = keep x (ground arith) f.0 in
      (
        out,
        (f.1.0, same x out ∙ f.1.1),
        f.2,
        FreeSlots-kept pool pool' t u xs (λ y h. keep y (ground arith)) same f.3,
      )

-- The heap stands for the tree `t`, in heap order, and every other slot it lists is free.
pub record IsValid {T : Type 0} (P : T → Type 0) (cmp : T → T → Ordering) (heap : TreeHeap T)
    (t : Tree T) : Type 0 where
  pub root : heap.root ≡ root_of t
  pub owns : Owns heap.pool none t
  pub distinct : Distinct t
  pub ordered : IsOrdered P cmp t
  pub free : FreeSlots heap.pool t heap.free_list
  pub room : size_of t + length heap.free_list ≤ heap.pool_len

module _ {T : Type 0} {P : T → Type 0} {cmp : T → T → Ordering} (c : IsComparer P cmp) where
  -- The outcome of an insertion: a valid heap with one more value.
  pub record Inserted (t : Tree T) (i : ℕ) (v : T) (h : Option HeapHandle) (heap' : TreeHeap T)
      : Type 0 where
    pub handle : h ≡ some (record { index = i })
    pub tree : Tree T
    pub valid : IsValid P cmp heap' tree
    pub holds : (x : ℕ) (w : T) → Holds x w tree ↔ (((x ≡ i) × (w ≡ v)) ⊎ Holds x w t)

  pub insert_at-Inserted :
      (heap : TreeHeap T) (t : Tree T) (i : ℕ) (rest : List ℕ) (v : T)
      → P v
      → heap.root ≡ root_of t
      → Owns heap.pool none t
      → Distinct t
      → IsOrdered P cmp t
      → FreeSlots heap.pool t (i ∷ rest)
      → size_of t + length (i ∷ rest) ≤ heap.pool_len
      → Returns (Inserted t i v) (insert_at cmp (i ∷ rest) v heap)
  unfolding insert_at
  insert_at-Inserted heap t i rest v pv top o d ord f room =
      let (n, at_i) = f.1 in
      let cleared : HeapNode T = record { value = v; md = default_md } in
      let pool1 : Pool T = write heap.pool i cleared in
      let heap1 : TreeHeap T = record heap { free_list = rest; pool = pool1 } in
      let attached =
        insert_impl-Reshaped cmp heap1 t i v top (Owns-write heap.pool none t i cleared o f.0) d f.0
          (write-here heap.pool i cleared) (omega arith) in
      rw (modify_node-ok heap.pool i n at_i) (
        Returns-bind attached λ _ heap2 u. returns (record {
          handle = refl;
          tree = graft cmp t i v;
          valid = record {
            root = u.root;
            owns = u.owns;
            distinct = Distinct-graft cmp t i v d f.0;
            ordered = IsOrdered-graft c t i v ord pv;
            free = subst (FreeSlots heap2.pool (graft cmp t i v)) (sym u.free_list) (
                FreeSlots-kept heap.pool heap2.pool t (graft cmp t i v) rest
                  (λ x m out. graft_out cmp x t i v (listed_ne x i rest m f.2) out)
                  (λ x out.
                    u.same x out ∙ write-other heap.pool i cleared x (out-graft cmp x t i v out).0)
                  f.3);
            room = omega (arith, ap length u.free_list, u.pool_len, size-graft cmp t i v);
          };
          holds = λ x w. Holds-graft cmp x w t i v;
        }))
