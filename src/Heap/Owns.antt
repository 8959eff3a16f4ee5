-- ===== src/Heap/Owns.antt =====
-- When a pool of src/libcix/heap.rs holds a tree: every node stands at its index, with the parent,
-- children and size that the tree gives it. The rules by which reads and writes keep this.
use cixrs.Base.{
  none, ℕ, suc, ◌+◌, ◌≡◌, refl, ap, ◌∙◌, fun_ext, true, false, some, arith, ◌==◌, if◌then◌else◌,
}
use cixrs.Run.{ok, pure, Cmd, ◌>>◌}
use cixrs.Heap.{
  HeapPtr, is_null, HeapNode, HeapNodeMd, Pool, TreeHeap, write, get_node, get_node_md, modify_node,
  modify_md, set_node_md, child_size, update_size,
}
use cixrs.Heap.Tree.{Tree, leaf, node, root_of, size_of, has, Distinct, out-node}

module _ {T : Type 0} where
  abbrev pub links : HeapPtr → Tree T → Tree T → HeapNodeMd
  links par l r = record {
    parent = par;
    left_child = root_of l;
    right_child = root_of r;
    size = suc (size_of l + size_of r);
  }

  abbrev pub cell : T → HeapPtr → Tree T → Tree T → HeapNode T
  cell v par l r = record { value = v; md = links par l r }

  abbrev pub Owns : Pool T → HeapPtr → Tree T → Type 0
  Owns pool par leaf = Unit {0}
  Owns pool par (node l i v r) =
      (pool i ≡ some (cell v par l r)) × Owns pool (some i) l × Owns pool (some i) r

  pub Owns-frame :
      {pool pool' : Pool T} (par : HeapPtr) (t : Tree T)
      → Owns pool par t
      → ((x : ℕ) → has x t ≡ true → pool' x ≡ pool x)
      → Owns pool' par t
  Owns-frame par leaf o same = tt
  Owns-frame par (node l i v r) o same = (
    ground (arith, same i),
    Owns-frame (some i) l o.1 (λ x h. same x (ground arith)),
    Owns-frame (some i) r o.2 (λ x h. same x (ground arith)),
  )

  -- A write outside the tree.
  pub Owns-write :
      (pool : Pool T) (par : HeapPtr) (t : Tree T) (i : ℕ) (n : HeapNode T)
      → Owns pool par t
      → has i t ≡ false
      → Owns (write pool i n) par t
  Owns-write pool par t i n o out = Owns-frame par t o (λ x h. ground arith)

  pub Owns-two :
      (pool : Pool T) (par : HeapPtr) (t : Tree T) (i j : ℕ) (n k : HeapNode T)
      → Owns pool par t
      → has i t ≡ false
      → has j t ≡ false
      → Owns (write (write pool i n) j k) par t
  Owns-two pool par t i j n k o a b =
      Owns-write (write pool i n) par t j k (Owns-write pool par t i n o a) b

  pub child_size-ok :
      (pool : Pool T) (par : HeapPtr) (t : Tree T)
      → Owns pool par t
      → child_size (root_of t) pool ≡ ok (size_of t) pool
  unfolding child_size get_node
  child_size-ok pool par leaf o = refl
  child_size-ok pool par (node l i v r) o = ground arith

  module _ (pool : Pool T) (i : ℕ) (n : HeapNode T) (e : pool i ≡ some n) where
    pub get_node-ok : get_node (some i) pool ≡ ok n pool
    unfolding get_node
    get_node-ok = ground arith

    pub get_node_md-ok : get_node_md (some i) pool ≡ ok n.md pool
    unfolding get_node_md
    get_node_md-ok = ground arith

    pub modify_node-ok :
        (f : HeapNode T → HeapNode T) → modify_node f (some i) pool ≡ ok tt (write pool i (f n))
    unfolding modify_node
    modify_node-ok f = rw (e, modify_node)

    pub modify_md-ok :
        (f : HeapNodeMd → HeapNodeMd)
        → modify_md f (some i) pool ≡ ok tt (write pool i (record n { md = f n.md }))
    unfolding modify_md
    modify_md-ok f = rw (e, modify_node)

    pub set_node_md-ok :
        (md : HeapNodeMd)
        → set_node_md (some i) md pool ≡ ok tt (write pool i (record n { md = md }))
    unfolding set_node_md
    set_node_md-ok md = rw (e, modify_node)

  pub write-here : (pool : Pool T) (i : ℕ) (n : HeapNode T) → write pool i n i ≡ some n
  write-here pool i n = ground arith

  pub write-other :
      (pool : Pool T) (i : ℕ) (n : HeapNode T) (x : ℕ)
      → (x == i) ≡ false
      → write pool i n x ≡ pool x
  write-other pool i n x h = ground arith

  pub write-write :
      (pool : Pool T) (i : ℕ) (a b : HeapNode T) → write (write pool i a) i b ≡ write pool i b
  write-write pool i a b = fun_ext λ x. ground arith

  -- What set_node_md and update_size leave at a node, given the trees below it.
  abbrev pub resize : {A : Type 0} → ℕ → HeapNodeMd → Cmd (Pool T) A → Cmd (Pool T) A
  resize i md rest = set_node_md (some i) md >> (update_size (some i) >> rest)

  pub update_size-ok :
      (pool : Pool T) (i : ℕ) (v : T) (md : HeapNodeMd) (a b : ℕ)
      → pool i ≡ some (record { value = v; md = md })
      → child_size md.left_child pool ≡ ok a pool
      → child_size md.right_child pool ≡ ok b pool
      → update_size (some i) pool
        ≡ ok tt (write pool i (record { value = v; md = record md { size = 1 + a + b } }))
  unfolding update_size
  update_size-ok pool i v md a b e ca cb =
      rw (get_node_md-ok pool i _ e, ca, cb) (set_node_md-ok pool i _ e _)

  pub resize-ok :
      {A : Type 0} (rest : Cmd (Pool T) A) (pool : Pool T) (i : ℕ) (n : HeapNode T) (par : HeapPtr)
      (s : ℕ) (a b : Tree T) (p q : HeapPtr)
      → pool i ≡ some n
      → Owns pool p a
      → Owns pool q b
      → has i a ≡ false
      → has i b ≡ false
      → resize i (record (links par a b) { size = s }) rest pool
        ≡ rest (write pool i (cell n.value par a b))
  resize-ok rest pool i n par s a b p q e oa ob ia ib =
      let n1 : HeapNode T = record n { md = record (links par a b) { size = s } } in
      let pool1 : Pool T = write pool i n1 in
      let ca = child_size-ok pool1 p a (Owns-write pool p a i _ oa ia) in
      let cb = child_size-ok pool1 q b (Owns-write pool q b i _ ob ib) in
      let here : pool1 i ≡ some n1 = ground arith in
      let sized : (m : ℕ) → Pool T =
        λ m. write pool i (record n { md = record (links par a b) { size = m } }) in
      rw (set_node_md-ok pool i n e _, update_size-ok pool1 i n.value n1.md _ _ here ca cb)
        (ap rest (write-write pool i n1 _ ∙ ap sized (omega arith)))

  -- A new parent for the root of a tree, where there is one.
  abbrev pub adopt : HeapPtr → Tree T → Cmd (Pool T) (Unit {0})
  adopt q t =
      if is_null (root_of t)
      then pure tt
      else modify_md (λ md. record md { parent = q }) (root_of t)

  pub adopt-ok :
      (pool : Pool T) (par q : HeapPtr) (t : Tree T)
      → Owns pool par t
      → Distinct t
      → (pool' : Pool T) × (adopt q t pool ≡ ok tt pool')
        × Owns pool' q t
        × ((x : ℕ) → has x t ≡ false → pool' x ≡ pool x)
  adopt-ok pool par q leaf o d = (pool, refl, tt, λ x h. refl)
  adopt-ok pool par q (node l i v r) o d = (
    write pool i (cell v q l r),
    modify_md-ok pool i _ (o.0) _,
    (
      write-here pool i _,
      Owns-write pool (some i) l i _ o.1 d.0,
      Owns-write pool (some i) r i _ o.2 d.1,
    ),
    λ x h. write-other pool i _ x (out-node x l i v r h).0,
  )

  -- The pool holds the tree below `q` with its root at `p`, and differs from `pool` nowhere else.
  pub record Built (pool : Pool T) (q : HeapPtr) (t : Tree T) (p : HeapPtr) (pool' : Pool T)
      : Type 0 where
    pub top : p ≡ root_of t
    pub owns : Owns pool' q t
    pub same : (x : ℕ) → has x t ≡ false → pool' x ≡ pool x

  -- The heap after a change of its pool and root only: the pool holds `t`, and differs from the old
  -- one at nodes of `t` only.
  pub record Reshaped (heap : TreeHeap T) (t : Tree T) (heap' : TreeHeap T) : Type 0 where
    pub root : heap'.root ≡ root_of t
    pub owns : Owns heap'.pool none t
    pub same : (x : ℕ) → has x t ≡ false → heap'.pool x ≡ heap.pool x
    pub free_list : heap'.free_list ≡ heap.free_list
    pub pool_len : heap'.pool_len ≡ heap.pool_len
