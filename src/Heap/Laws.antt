-- ===== src/Heap/Laws.antt =====
-- What the operations of src/libcix/heap.rs do to a valid heap, as a map from handles to values.
use mathlib.Core.Path.{subst}
use cixrs.Base.{
  ℕ, ◌+◌, ◌≤◌, ◌≡◌, refl, sym, ap, ◌∙◌, ◌⊎◌, inl, inr, ◌≢◌, ◌↔◌, true, false, some, none, Ordering,
  List, [], ◌∷◌, arith, ◌==◌, Bool-cases, length, true≢false, eq-symm_false,
}
use cixrs.Run.{Returns, returns, Returns-mono, Returns-inv, Returns-eq, Returns-bind}
use cixrs.Heap.{
  HeapNode, default_md, Pool, TreeHeap, write, insert_at, insert, listed, remove, update,
}
use cixrs.Heap.Tree.{
  Tree, node, root_of, size_of, has, graft, at_root, Distinct-graft, size-graft, graft_out,
  out-graft, ne_of_has,
}
use cixrs.Heap.Owns.{Owns, Owns-write, cell, write-here, write-other, modify_node-ok}
use cixrs.Heap.Path.{
  Step, plug, split, unsplit, OwnsPath-frame, unplug-Distinct, path_ne, plug_out, above,
  plug-Distinct,
}
use cixrs.Heap.Attach.{insert_impl-Reshaped}
use cixrs.Heap.Remove.{
  without, root-plug, remove_impl-Reshaped, size-without, without_self, without_out,
  Distinct-without,
}
use cixrs.Heap.Contents.{Holds, Holds-has, Holds-graft, Holds-remove, Holds-located, locate}
use cixrs.Heap.Order.{IsComparer, IsOrdered-graft, IsOrdered-remove}
use cixrs.Heap.Valid.{IsValid, FreeSlots, FreeSlots-kept, Inserted, insert_at-Inserted}

module _ {T : Type 0} {P : T → Type 0} {cmp : T → T → Ordering} (c : IsComparer P cmp) where
  -- Inserting a value into a valid heap with a free slot returns the handle of the last listed slot
  -- and a valid heap that holds this value under it and everything that it held before.
  pub insert-Inserted :
      (heap : TreeHeap T) (t : Tree T) (i : ℕ) (rest : List ℕ) (v : T)
      → IsValid P cmp heap t
      → heap.free_list ≡ i ∷ rest
      → P v
      → Returns (Inserted c t i v) (insert cmp v heap)
  unfolding insert
  insert-Inserted heap t i rest v h e pv = Returns-eq (ap (λ z. insert_at cmp z v heap) e) (
      insert_at-Inserted c heap t i rest v pv h.root h.owns h.distinct h.ordered
        (subst (FreeSlots heap.pool t) e h.free)
        (subst (λ z. size_of t + length z ≤ heap.pool_len) e h.room))

  -- The outcome of a removal: a valid heap that lost one handle and nothing else, whose slot is
  -- free again.
  pub record Removed (heap : TreeHeap T) (t : Tree T) (x : ℕ) (heap' : TreeHeap T) : Type 0 where
    pub tree : Tree T
    pub valid : IsValid P cmp heap' tree
    pub holds : (y : ℕ) (w : T) → Holds y w tree ↔ (Holds y w t × (y ≢ x))
    pub freed : heap'.free_list ≡ x ∷ heap.free_list
    pub pool_len : heap'.pool_len ≡ heap.pool_len

  -- The outcome of an update: a valid heap in which one handle holds another value.
  pub record Updated (heap : TreeHeap T) (t : Tree T) (x : ℕ) (v : T) (heap' : TreeHeap T)
      : Type 0 where
    pub tree : Tree T
    pub valid : IsValid P cmp heap' tree
    pub holds : (y : ℕ) (w : T) → Holds y w tree ↔ (((y ≡ x) × (w ≡ v)) ⊎ (Holds y w t × (y ≢ x)))
    pub free_list : heap'.free_list ≡ heap.free_list
    pub pool_len : heap'.pool_len ≡ heap.pool_len

  root_revalued :
      (p : List (Step T)) (l : Tree T) (x : ℕ) (w v : T) (r : Tree T)
      → root_of (plug p (node l x w r)) ≡ root_of (plug p (node l x v r))
  root_revalued [] l x w v r = refl
  root_revalued (s ∷ p) l x w v r = root-plug cmp s p (node l x w r) (node l x v r)

  unlisted :
      (heap : TreeHeap T) (t : Tree T) (x : ℕ) (xs : List ℕ)
      → FreeSlots heap.pool t xs
      → has x t ≡ true
      → listed x xs ≡ false
  unlisted heap t x [] f h = refl
  unlisted heap t x (y ∷ ys) f h =
      let rest = unlisted heap t x ys f.3 h in
      let ne = ne_of_has x y t h f.0 in ground (arith, rest, ne)

  module _ (heap : TreeHeap T) (p : List (Step T)) (l : Tree T) (x : ℕ) (w : T) (r : Tree T)
      (h : IsValid P cmp heap (plug p (node l x w r)))
      (depth : length p + (size_of l + size_of r) + 1 ≤ size_of (plug p (node l x w r))) where
    abbrev whole : Tree T
    whole = plug p (node l x w r)

    self_in : has x whole ≡ true
    self_in = elim (Bool-cases (has x whole)) [
      | inl e ↦ e
      | inr e ↦ absurd (true≢false (sym (at_root l x w r) ∙ (plug_out x p (node l x w r) e).1))
    ]

    kept :
        (pool' : Pool T) (u : Tree T)
        → ((y : ℕ) → (y == x) ≡ false → has y whole ≡ false → has y u ≡ false)
        → ((y : ℕ) → has y u ≡ false → pool' y ≡ heap.pool y)
        → FreeSlots pool' u heap.free_list
    kept pool' u out same =
        FreeSlots-kept heap.pool pool' whole u heap.free_list
          (λ y m k. out y (eq-symm_false x y (ne_of_has x y whole self_in k)) k) same h.free

    remove_at : Returns (λ _. Removed heap whole x) (remove cmp (record { index = x }) heap)
    unfolding remove
    remove_at =
        let t' : Tree T = without cmp p l r in
        let (on, op) = split heap.pool p (node l x w r) h.owns in
        let out = without_self cmp p l x w r h.distinct in
        Returns-bind
          (remove_impl-Reshaped cmp heap p l x w r h.root h.owns h.distinct (omega (arith, h.room)))
          λ _ heap1 v. returns (record {
            tree = t';
            valid = record {
              root = v.root;
              owns = v.owns;
              distinct = Distinct-without cmp p l x w r h.distinct;
              ordered = IsOrdered-remove c p l x w r h.ordered;
              free = (
                out,
                (_, v.same x out ∙ on.0),
                ap (listed x) v.free_list ∙ unlisted heap whole x heap.free_list h.free self_in,
                subst (FreeSlots heap1.pool t') (sym v.free_list)
                    (kept heap1.pool t' (λ y ne k. without_out cmp p l x w r y k) v.same),
              );
              room =
                  omega
                    (arith, h.room, ap length v.free_list, v.pool_len, size-without cmp p l x w r);
            };
            holds = λ y z. Holds-remove cmp y z p l x w r h.distinct;
            freed = ap (◌∷◌ x) v.free_list;
            pool_len = v.pool_len;
          })

    -- The tree with another value at the node.
    revalued :
        (v : T)
        → Owns
            (write heap.pool x (record (cell w (above p) l r) { value = v }))
            none
            (plug p (node l x v r))
    revalued v =
        let (dn, dp, off) = unplug-Distinct p (node l x w r) h.distinct in
        let (on, op) = split heap.pool p (node l x w r) h.owns in
        let pool1 : Pool T = write heap.pool x (record (cell w (above p) l r) { value = v }) in
        unsplit pool1 p (node l x v r)
          (
            write-here heap.pool x _,
            Owns-write heap.pool (some x) l x _ on.1 dn.0,
            Owns-write heap.pool (some x) r x _ on.2 dn.1,
          )
          (OwnsPath-frame {pool = heap.pool} {pool' = pool1} (some x) _ p op
            (λ y m. write-other heap.pool x _ y (path_ne y x p m (off x (at_root l x w r)))))

    update_at :
        (f : T → T)
        → P (f w)
        → Returns (λ _. Updated heap whole x (f w)) (update cmp f (record { index = x }) heap)
    unfolding update
    update_at f pf =
        let t' : Tree T = without cmp p l r in
        let (dn, dp, off) = unplug-Distinct p (node l x w r) h.distinct in
        let (on, op) = split heap.pool p (node l x w r) h.owns in
        let out = without_self cmp p l x w r h.distinct in
        let n1 : HeapNode T = record (cell w (above p) l r) { value = f w } in
        let heap1 : TreeHeap T = record heap { pool = write heap.pool x n1 } in
        let (_, heap2, run, v) = Returns-inv (
          remove_impl-Reshaped cmp heap1 p l x (f w) r (h.root ∙ root_revalued p l x w (f w) r)
            (revalued (f w)) (plug-Distinct p (node l x (f w) r) dn dp off)
            (omega (arith, h.room))) in
        let cleared : HeapNode T = record { value = f w; md = default_md } in
        let heap3 : TreeHeap T = record heap2 { pool = write heap2.pool x cleared } in
        let d' = Distinct-without cmp p l x w r h.distinct in
        let attached =
          insert_impl-Reshaped cmp heap3 t' x (f w) v.root
            (Owns-write heap2.pool none t' x cleared v.owns out) d' out
            (write-here heap2.pool x cleared)
            (omega (arith, h.room, v.pool_len, size-without cmp p l x w r)) in
        rw
          (
            modify_node-ok heap.pool x _ (on.0),
            run,
            modify_node-ok heap2.pool x n1 (v.same x out ∙ write-here heap.pool x n1),
          )
          (Returns-mono attached λ _ heap4 u. record {
            tree = graft cmp t' x (f w);
            valid = record {
              root = u.root;
              owns = u.owns;
              distinct = Distinct-graft cmp t' x (f w) d' out;
              ordered = IsOrdered-graft c t' x (f w) (IsOrdered-remove c p l x w r h.ordered) pf;
              free =
                  subst (FreeSlots heap4.pool (graft cmp t' x (f w)))
                    (sym (u.free_list ∙ v.free_list))
                    (kept heap4.pool (graft cmp t' x (f w))
                      (λ y ne k. graft_out cmp y t' x (f w) ne (without_out cmp p l x w r y k))
                      (λ y k.
                        (let q = out-graft cmp y t' x (f w) k in
                          u.same y k
                          ∙ write-other heap2.pool x cleared y q.0
                          ∙ v.same y q.1
                          ∙ write-other heap.pool x n1 y q.0)));
              room = omega (
                arith,
                h.room,
                ap length u.free_list,
                ap length v.free_list,
                u.pool_len,
                v.pool_len,
                size-graft cmp t' x (f w),
                size-without cmp p l x w r,
              );
            };
            holds = λ y z.
                (let g = Holds-graft cmp y z t' x (f w) in
                  let m = Holds-remove cmp y z p l x w r h.distinct in
                  ((λ k. grind (arith, g, m)), (λ k. grind (arith, g, m))));
            free_list = u.free_list ∙ v.free_list;
            pool_len = u.pool_len ∙ v.pool_len;
          })

  -- Removing a handle of a valid heap returns, whatever the shape of the tree around its node, and
  -- leaves a valid heap that holds exactly the other handles, with the slot back on the free list.
  pub remove-Removed :
      (heap : TreeHeap T) (t : Tree T) (x : ℕ)
      → IsValid P cmp heap t
      → has x t ≡ true
      → Returns (λ _. Removed heap t x) (remove cmp (record { index = x }) heap)
  remove-Removed heap t x h m =
      let u = locate x t m in
      subst (λ z. Returns (λ _. Removed heap z x) (remove cmp (record { index = x }) heap))
        (sym u.here)
        (remove_at heap u.path u.left x u.value u.right (subst (IsValid P cmp heap) u.here h) (
          subst (λ z. length u.path + (size_of u.left + size_of u.right) + 1 ≤ size_of z) u.here
            u.depth))

  -- Updating the value `w` of a handle with `f` returns and leaves a valid heap in which this handle
  -- holds `f w`, every other handle what it held, and no slot is freed or taken.
  pub update-Updated :
      (heap : TreeHeap T) (t : Tree T) (x : ℕ) (w : T) (f : T → T)
      → IsValid P cmp heap t
      → Holds x w t
      → P (f w)
      → Returns (λ _. Updated heap t x (f w)) (update cmp f (record { index = x }) heap)
  update-Updated heap t x w f h k pf =
      let u = locate x t (Holds-has x w t k) in
      let h' = subst (IsValid P cmp heap) u.here h in
      let same : w ≡ u.value =
        Holds-located cmp x w u.path u.left u.value u.right h'.distinct
          (subst (Holds x w) u.here k) in
      subst (λ z. Returns (λ _. Updated heap z x (f w)) (update cmp f (record { index = x }) heap))
        (sym u.here)
        (subst
          (λ z.
            Returns (λ _. Updated heap (plug u.path (node u.left x u.value u.right)) x (f z))
              (update cmp f (record { index = x }) heap))
          (sym same)
          (update_at heap u.path u.left x u.value u.right h'
            (subst (λ z. length u.path + (size_of u.left + size_of u.right) + 1 ≤ size_of z) u.here
              u.depth)
            f (subst (λ z. P (f z)) same pf)))
