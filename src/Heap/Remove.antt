-- ===== src/Heap/Remove.antt =====
-- remove_impl of src/libcix/heap.rs: the node's subtrees are joined in its place.
use mathlib.Core.Path.{subst}
use cixrs.Base.{
  eq-symm_false, ℕ, suc, ◌+◌, ◌≤◌, ◌≡◌, refl, sym, ap, ◌∙◌, Bool, true, false, some, none, Ordering,
  List, [], ◌∷◌, arith, ◌==◌, if◌then◌else◌, length,
}
use cixrs.Run.{ok, pure, Returns, returns, Returns-inv, Returns-eq, stored}
use cixrs.Heap.{
  HeapPtr, ptr_eq, Pool, TreeHeap, write, is_null, modify_md, replace_child, remove_impl, on_pool,
}
use cixrs.Heap.Tree.{
  Tree, leaf, node, root_of, size_of, has, Distinct, join, size-join, has-join, join_out, out-join,
  Distinct-join, out-node, at_root,
}
use cixrs.Heap.Owns.{
  Owns, Owns-frame, Owns-write, Reshaped, adopt, adopt-ok, write-here, write-other, get_node_md-ok,
  modify_md-ok,
}
use cixrs.Heap.PullUp.{pull_up-Pulled}
use cixrs.Heap.Path.{
  Step, step, plug, above, OwnsPath, DistinctPath, OffPath, OffPath-symm, plug_out, split, unsplit,
  OwnsPath-frame, out-plug, size-plug, unplug-Distinct, plug-Distinct, decrement_size-OwnsPath,
  off-parts, path_ne, step_md,
}

module _ {T : Type 0} (cmp : T → T → Ordering) where
  -- Setting the parent of a tree's root, where there is one, as a step on the heap.
  adopt-on_pool :
      (q : HeapPtr) (t : Tree T) (heap : TreeHeap T) (pool' : Pool T)
      → adopt q t heap.pool ≡ ok tt pool'
      → (if is_null (root_of t)
            then pure tt
            else on_pool cmp (modify_md (λ md. record md { parent = q }) (root_of t)))
          heap
        ≡ ok tt (record heap { pool = pool' })
  adopt-on_pool q leaf heap pool' e = ap (stored (λ pool. record heap { pool = pool })) e
  adopt-on_pool q (node l i v r) heap pool' e = ap (stored (λ pool. record heap { pool = pool })) e

  self : (x : ℕ) → (x == x) ≡ true
  self x = ground arith

  root_ne : (t : Tree T) (x : ℕ) → has x t ≡ false → ptr_eq (root_of t) (some x) ≡ false
  root_ne leaf x h = refl
  root_ne (node l i v r) x h = eq-symm_false x i (out-node x l i v r h).0

  pub root-plug :
      (s : Step T) (c : List (Step T)) (t u : Tree T)
      → root_of (plug (s ∷ c) t) ≡ root_of (plug (s ∷ c) u)
  root-plug (step true i v s) [] t u = refl
  root-plug (step false i v s) [] t u = refl
  root-plug (step true i v s) (s' ∷ c) t u = root-plug s' c (node t i v s) (node u i v s)
  root-plug (step false i v s) (s' ∷ c) t u = root-plug s' c (node s i v t) (node s i v u)

  remove_root :
      (heap : TreeHeap T) (x : ℕ) (l : Tree T) (w : T) (r : Tree T)
      → Owns heap.pool none (node l x w r)
      → Distinct (node l x w r)
      → size_of l + size_of r ≤ heap.pool_len
      → Returns (λ _. Reshaped heap (join cmp l r)) (remove_impl cmp (record { index = x }) heap)
  unfolding remove_impl
  remove_root heap x l w r o d room =
      let (p, pool1, run, b) = Returns-inv (
        pull_up-Pulled cmp (heap.pool_len + 1) heap.pool (some x) l r o.1 o.2 d.3 d.4 d.2
          (omega arith)) in
      let t : Tree T = join cmp l r in
      let (pool2, e2, o2, same2) =
        adopt-ok pool1 (some x) none t b.owns (Distinct-join cmp l x w r d) in
      rw (get_node_md-ok heap.pool x _ (o.0), run, b.top)
        (Returns-eq (adopt-on_pool none t (record heap { root = root_of t; pool = pool1 }) pool2 e2)
          (returns (record {
            root = refl;
            owns = o2;
            same = λ y h. same2 y h ∙ b.same y (out-join cmp y l r h).0 (out-join cmp y l r h).1;
            free_list = refl;
            pool_len = refl;
          })))

  -- The removed node's place in its parent is taken by a tree of root `p`.
  replace_child-Replaced :
      (pool : Pool T) (x : ℕ) (p : HeapPtr) (n : ℕ) (b : Bool) (i : ℕ) (v : T) (s : Tree T)
      (c : List (Step T))
      → OwnsPath pool (some x) n (step b i v s ∷ c)
      → DistinctPath (step b i v s ∷ c)
      → has x s ≡ false
      → (pool' : Pool T) × (replace_child cmp x p (some i) pool ≡ ok tt pool')
        × OwnsPath pool' p n (step b i v s ∷ c)
        × ((y : ℕ) → (y == i) ≡ false → pool' y ≡ pool y)
  unfolding replace_child
  replace_child-Replaced pool x p n true i v s c w d out = (
    write pool i (record { value = v; md = step_md (step true i v s) (above c) p n }),
    rw (get_node_md-ok pool i _ (w.0), self x) (modify_md-ok pool i _ (w.0) _),
    (
      write-here pool i _,
      Owns-write pool (some i) s i _ w.1 d.0,
      OwnsPath-frame {pool = pool} (some i) _ c w.2
          (λ y h. write-other pool i _ y (path_ne y i c h d.1)),
    ),
    λ y h. write-other pool i _ y h,
  )
  replace_child-Replaced pool x p n false i v s c w d out = (
    write pool i (record { value = v; md = step_md (step false i v s) (above c) p n }),
    rw (get_node_md-ok pool i _ (w.0), root_ne s x out, self x) (modify_md-ok pool i _ (w.0) _),
    (
      write-here pool i _,
      Owns-write pool (some i) s i _ w.1 d.0,
      OwnsPath-frame {pool = pool} (some i) _ c w.2
          (λ y h. write-other pool i _ y (path_ne y i c h d.1)),
    ),
    λ y h. write-other pool i _ y h,
  )

  in_join :
      (y : ℕ) (l : Tree T) (x : ℕ) (w : T) (r : Tree T)
      → has y (join cmp l r) ≡ true
      → has y (node l x w r) ≡ true
  in_join y l x w r h = ground (arith, has-join cmp y l r)

  remove_below :
      (heap : TreeHeap T) (x : ℕ) (l : Tree T) (w : T) (r : Tree T) (b : Bool) (i : ℕ) (v : T)
      (s : Tree T) (c : List (Step T))
      → let st = step b i v s ∷ c in
        heap.root ≡ root_of (plug st (node l x w r))
        → Owns heap.pool none (plug st (node l x w r))
        → Distinct (plug st (node l x w r))
        → size_of l + size_of r ≤ heap.pool_len
        → length st ≤ heap.pool_len
        → Returns
            (λ _. Reshaped heap (plug st (join cmp l r)))
            (remove_impl cmp (record { index = x }) heap)
  unfolding remove_impl
  remove_below heap x l w r b i v s c top o d room far =
      let st : List (Step T) = step b i v s ∷ c in
      let t : Tree T = join cmp l r in
      let (on, op) = split heap.pool st (node l x w r) o in
      let (dn, dp, off) = unplug-Distinct st (node l x w r) d in
      let (p, pool1, run, u) = Returns-inv (
        pull_up-Pulled cmp (heap.pool_len + 1) heap.pool (some x) l r on.1 on.2 dn.3 dn.4 dn.2
          (omega arith)) in
      let op1 = OwnsPath-frame {pool = heap.pool} {pool' = pool1} (some x) _ st op (λ y h.
        (let q = out-node y l x w r (OffPath-symm (node l x w r) st off y h) in
          u.same y q.1 q.2)) in
      let x_s = (off-parts x b i v s c (off x (at_root l x w r))).1 in
      let (pool2, e2, op2, same2) =
        replace_child-Replaced pool1 x (root_of t) _ b i v s c op1 dp x_s in
      let off_t : OffPath t st = λ y h. off y (in_join y l x w r h) in
      let op2' : OwnsPath pool2 (root_of t) (suc (size_of t)) st =
        subst (λ z. OwnsPath pool2 (root_of t) (suc z) st) (sym (size-join cmp l r)) op2 in
      let ot2 =
        Owns-frame {pool = pool1} {pool' = pool2} (some x) t u.owns
          (λ y h. same2 y (off-parts y b i v s c (off_t y h)).0) in
      let (pool3, e3, o3, same3) =
        adopt-ok pool2 (some x) (some i) t ot2 (Distinct-join cmp l x w r dn) in
      let op3 =
        OwnsPath-frame {pool = pool2} {pool' = pool3} (root_of t) _ st op2'
          (λ y h. same3 y (OffPath-symm t st off_t y h)) in
      let (_, pool4, run4, (op4, same4)) = Returns-inv (
        decrement_size-OwnsPath (heap.pool_len + 1) pool3 (root_of t) (size_of t) st op3 dp
          (omega arith)) in
      rw
        (
          get_node_md-ok heap.pool x _ (on.0),
          run,
          u.top,
          e2,
          adopt-on_pool (some i) t (record heap { pool = pool2 }) pool3 e3,
          run4,
        )
        (returns (record {
          root = top ∙ root-plug (step b i v s) c (node l x w r) t;
          owns =
              unsplit pool4 st t
                (Owns-frame {pool = pool3} {pool' = pool4} (some i) t o3
                  (λ y h. same4 y (off_t y h)))
                op4;
          same = λ y h.
              (let q = plug_out y st t h in
                let m = out-join cmp y l r q.1 in
                same4 y q.0
                ∙ same3 y q.1
                ∙ same2 y (off-parts y b i v s c q.0).0
                ∙ u.same y m.0 m.1);
          free_list = refl;
          pool_len = refl;
        }))

  -- The tree without the node `x` that stands there.
  abbrev pub without : List (Step T) → Tree T → Tree T → Tree T
  without c l r = plug c (join cmp l r)

  pub remove_impl-Reshaped :
      (heap : TreeHeap T) (c : List (Step T)) (l : Tree T) (x : ℕ) (w : T) (r : Tree T)
      → heap.root ≡ root_of (plug c (node l x w r))
      → Owns heap.pool none (plug c (node l x w r))
      → Distinct (plug c (node l x w r))
      → length c + (size_of l + size_of r) ≤ heap.pool_len
      → Returns (λ _. Reshaped heap (without c l r)) (remove_impl cmp (record { index = x }) heap)
  remove_impl-Reshaped heap [] l x w r top o d room = remove_root heap x l w r o d (omega arith)
  remove_impl-Reshaped heap (step b i v s ∷ c) l x w r top o d room =
      remove_below heap x l w r b i v s c top o d (omega arith) (omega arith)

  module _ (c : List (Step T)) (l : Tree T) (x : ℕ) (w : T) (r : Tree T) where
    pub size-without : size_of (plug c (node l x w r)) ≡ suc (size_of (without c l r))
    size-without = size-plug c (node l x w r) (join cmp l r) (omega (arith, size-join cmp l r))

    pub without_self : Distinct (plug c (node l x w r)) → has x (without c l r) ≡ false
    without_self d =
        let (dn, dp, off) = unplug-Distinct c (node l x w r) d in
        out-plug x c (join cmp l r) (off x (at_root l x w r)) (join_out cmp x l r dn.0 dn.1)

    pub without_out :
        (y : ℕ) → has y (plug c (node l x w r)) ≡ false → has y (without c l r) ≡ false
    without_out y h =
        let (off, out) = plug_out y c (node l x w r) h in
        let q = out-node y l x w r out in
        out-plug y c (join cmp l r) off (join_out cmp y l r q.1 q.2)

    pub Distinct-without : Distinct (plug c (node l x w r)) → Distinct (without c l r)
    Distinct-without d =
        let (dn, dp, off) = unplug-Distinct c (node l x w r) d in
        plug-Distinct c (join cmp l r) (Distinct-join cmp l x w r dn) dp
          (λ y h. off y (in_join y l x w r h))
