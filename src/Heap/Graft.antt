-- ===== src/Heap/Graft.antt =====
-- insert_node of src/libcix/heap.rs as a whole: the pointer code grafts a node onto the tree.
use cixrs.Base.{
  eq-symm_false, ℕ, zero, suc, ◌+◌, ◌<◌, ◌≡◌, refl, ◌∙◌, ◌⊎◌, inl, inr, true, false, some, Ordering,
  arith, ◌==◌, if◌then◌else◌, Bool-cases, leb,
}
use cixrs.Run.{Cmd, Returns, Returns-mono, Returns-inv}
use cixrs.Heap.{
  HeapPtr, HeapNode, Pool, write, insert_node, insert_left, insert_right, insert_below, is_null,
}
use cixrs.Heap.Tree.{
  Tree, leaf, node, root_of, size_of, has, Distinct, graft, is_less, size-graft, out-node,
  Distinct-graft, Distinct-graft_left, Distinct-graft_right,
}
use cixrs.Heap.Owns.{
  Owns, Owns-write, write-here, write-other, links, get_node-ok, get_node_md-ok, modify_md-ok,
  Built,
}
use cixrs.Heap.Insert.{insert_left-Built, insert_right-Built, insert_below-left, insert_below-right}

module _ {T : Type 0} (cmp : T → T → Ordering) where
  -- The root's parent is that of the old root or that of the new node.
  abbrev pub Grafted : Pool T → HeapPtr → HeapPtr → Tree T → HeapPtr → Pool T → Type 0
  Grafted pool a b t p pool' = (q : HeapPtr) × ((q ≡ a) ⊎ (q ≡ b)) × Built pool q t p pool'

  abbrev Inserts : ℕ → Type 0
  Inserts k =
      (pool : Pool T) (par : HeapPtr) (l : Tree T) (h : ℕ) (u : T) (r : Tree T) (i : ℕ)
      (n : HeapNode T)
      → Owns pool par (node l h u r)
      → Distinct (node l h u r)
      → has i (node l h u r) ≡ false
      → pool i ≡ some n
      → size_of (node l h u r) < k
      → Returns (Grafted pool par n.md.parent (graft cmp (node l h u r) i n.value))
          (insert_node cmp k (some h) (some i) pool)

  -- Node `j` goes below `i`, on the smaller side.
  abbrev placed : Tree T → ℕ → T → Tree T → ℕ → T → Tree T
  placed l i v r j w =
      if leb (size_of l) (size_of r)
      then node (graft cmp l j w) i v r
      else node l i v (graft cmp r j w)

  -- What insert_node does once the upper node has its new size.
  abbrev descend : ℕ → HeapPtr → ℕ → ℕ → Tree T → Tree T → Cmd (Pool T) HeapPtr
  descend k par i j l r =
      if is_null (root_of l)
      then insert_left cmp (some i) (some j) (links par l r)
      else (if is_null (root_of r)
          then insert_right cmp (some i) (some j) (links par l r)
          else insert_below cmp (insert_node cmp k) (some i) (some j) (links par l r))

  leb-zero : (n : ℕ) → leb 0 n ≡ true
  leb-zero n = ground arith

  leb-suc_zero : (n : ℕ) → leb (suc n) 0 ≡ false
  leb-suc_zero n = ground arith

  Built-back :
      (pool pool1 : Pool T) (q : HeapPtr) (t : Tree T) (p : HeapPtr) (pool' : Pool T)
      → ((x : ℕ) → has x t ≡ false → pool1 x ≡ pool x)
      → Built pool1 q t p pool'
      → Built pool q t p pool'
  Built-back pool pool1 q t p pool' back b = record {
    top = b.top;
    owns = b.owns;
    same = λ x h. b.same x h ∙ back x h;
  }

  -- Both children exist: the recursive call goes to the smaller side.
  descend-both :
      (k : ℕ)
      → Inserts k
      → (pool : Pool T) (par c : HeapPtr) (i j : ℕ) (n m : HeapNode T) (ll : Tree T) (a : ℕ) (u : T)
        (lr rl : Tree T) (b : ℕ) (w : T) (rr : Tree T)
      → let l = node ll a u lr in
        let r = node rl b w rr in
        pool i ≡ some n
        → pool j ≡ some m
        → (j == i) ≡ false
        → Owns pool c l
        → Owns pool c r
        → Distinct (node l i n.value r)
        → has j l ≡ false
        → has j r ≡ false
        → n.md.size ≡ suc (suc (size_of l + size_of r))
        → size_of l + size_of r < k
        → Returns
            (Grafted pool par n.md.parent (placed l i n.value r j m.value))
            (descend k par i j l r pool)
  descend-both k ih pool par c i j n m ll a u lr rl b w rr at_i at_j ne ol or d jl jr s fuel =
      let l : Tree T = node ll a u lr in
      let r : Tree T = node rl b w rr in
      let i_j = eq-symm_false j i ne in
      elim (Bool-cases (leb (size_of l) (size_of r))) [
        | inl e ↦
            (let (p, pool1, run, (q, _, built)) =
                Returns-inv (ih pool c ll a u lr j m ol d.3 jl at_j (omega arith)) in
              let size = size-graft cmp l j m.value in
              let apart =
                Distinct-graft_left cmp l r i j n.value m.value
                  (Distinct-graft cmp l j m.value d.3 jl) d.4 d.2 i_j (d.0, d.1) jr in
              rw e (
                Returns-mono
                  (insert_below-left cmp (insert_node cmp k) pool i j n par c ll a u lr rl b w rr _
                    q p pool1 e at_i ol or run built (omega arith) apart (omega arith))
                  λ p' pool' b'. (par, inl refl, b')))
        | inr e ↦
            (let (p, pool1, run, (q, _, built)) =
                Returns-inv (ih pool c rl b w rr j m or d.4 jr at_j (omega arith)) in
              let size = size-graft cmp r j m.value in
              let apart =
                Distinct-graft_right cmp l r i j n.value m.value d.3
                  (Distinct-graft cmp r j m.value d.4 jr) d.2 i_j (d.0, d.1) jl in
              rw e (
                Returns-mono
                  (insert_below-right cmp (insert_node cmp k) pool i j n par c ll a u lr rl b w rr _
                    q p pool1 e at_i ol or run built (omega arith) apart (omega arith))
                  λ p' pool' b'. (par, inl refl, b')))
      ]

  descend-Grafted :
      (k : ℕ)
      → Inserts k
      → (pool : Pool T) (par c : HeapPtr) (i j : ℕ) (n m : HeapNode T) (l r : Tree T)
      → pool i ≡ some n
      → pool j ≡ some m
      → (j == i) ≡ false
      → Owns pool c l
      → Owns pool c r
      → Distinct (node l i n.value r)
      → has j l ≡ false
      → has j r ≡ false
      → n.md.size ≡ suc (suc (size_of l + size_of r))
      → size_of l + size_of r < k
      → Returns
          (Grafted pool par n.md.parent (placed l i n.value r j m.value))
          (descend k par i j l r pool)
  unfolding graft
  descend-Grafted k ih pool par c i j n m leaf r at_i at_j ne ol or d jl jr s fuel =
      rw (leb-zero (size_of r)) (
        Returns-mono
          (insert_left-Built cmp pool i j n m at_i at_j ne par c r or d.4 d.1 jr (omega arith))
          λ p pool' b. (n.md.parent, inr refl, b))
  descend-Grafted k ih pool par c i j n m (node ll a u lr) leaf at_i at_j ne ol or d jl jr s fuel =
      rw (leb-suc_zero (size_of ll + size_of lr)) (
        Returns-mono
          (insert_right-Built cmp pool i j n m at_i at_j ne par c ll a u lr ol d.3 d.0 jl
            (omega arith))
          λ p pool' b. (n.md.parent, inr refl, b))
  descend-Grafted k ih pool par c i j n m (node ll a u lr) (node rl b w rr) at_i at_j ne ol or d jl
        jr s fuel =
      descend-both k ih pool par c i j n m ll a u lr rl b w rr at_i at_j ne ol or d jl jr s fuel

  placed_top :
      (x : ℕ) (l : Tree T) (i : ℕ) (v : T) (r : Tree T) (j : ℕ) (w : T)
      → has x (placed l i v r j w) ≡ false
      → (x == i) ≡ false
  placed_top x l i v r j w h = ground arith

  -- Whichever node goes up: the walk below it, seen from before its size was set.
  resize_then_descend :
      (k : ℕ)
      → Inserts k
      → (pool : Pool T) (par c : HeapPtr) (i j : ℕ) (n m : HeapNode T) (l r : Tree T) (s : ℕ)
      → pool j ≡ some m
      → (j == i) ≡ false
      → Owns pool c l
      → Owns pool c r
      → Distinct (node l i n.value r)
      → has j l ≡ false
      → has j r ≡ false
      → s ≡ suc (suc (size_of l + size_of r))
      → size_of l + size_of r < k
      → Returns
          (Grafted pool par n.md.parent (placed l i n.value r j m.value))
          (descend k par i j l r (write pool i (record n { md = record n.md { size = s } })))
  resize_then_descend k ih pool par c i j n m l r s at_j ne ol or d jl jr e fuel =
      let n' : HeapNode T = record n { md = record n.md { size = s } } in
      Returns-mono
        (descend-Grafted k ih (write pool i n') par c i j n' m l r (write-here pool i n')
          (write-other pool i n' j ne ∙ at_j) ne (Owns-write pool c l i n' ol d.0)
          (Owns-write pool c r i n' or d.1) d jl jr e fuel)
        λ p pool' (q, known, b). (
          q,
          known,
          Built-back pool (write pool i n') q _ p pool'
              (λ x h. write-other pool i n' x (placed_top x l i n.value r j m.value h)) b,
        )

  pub insert_node-Grafted : (k : ℕ) → Inserts k
  unfolding insert_node graft
  insert_node-Grafted zero pool par l h u r i n o d out at_i fuel = absurd (omega arith)
  insert_node-Grafted (suc k) pool par l h u r i n o d out at_i fuel =
      let old : HeapNode T = record { value = u; md = links par l r } in
      let far = out-node i l h u r out in
      let near = eq-symm_false i h far.0 in
      let more : suc (size_of l + size_of r) + 1 ≡ suc (suc (size_of l + size_of r)) =
        omega arith in
      rw (get_node-ok pool h _ (o.0), get_node-ok pool i n at_i)
        (elim (Bool-cases (is_less (cmp u n.value))) [
          | inl e ↦
              rw
                (
                  e,
                  get_node_md-ok pool h _ (o.0),
                  modify_md-ok pool i n at_i
                      (λ md. record md { size = suc (size_of l + size_of r) + 1 }),
                )
                (resize_then_descend k (insert_node-Grafted k) pool par (some h) i h n old l r _
                  (o.0) near o.1 o.2 (far.1, far.2, d.2, d.3, d.4) d.0 d.1 more (omega arith))
          | inr e ↦
              rw
                (
                  e,
                  get_node_md-ok pool h _ (o.0),
                  modify_md-ok pool h old (o.0)
                      (λ md. record md { size = suc (size_of l + size_of r) + 1 }),
                )
                (Returns-mono
                  (resize_then_descend k (insert_node-Grafted k) pool par (some h) h i old n l r _
                    at_i far.0 o.1 o.2 d far.1 far.2 more (omega arith))
                  λ p pool' (q, known, b). (q, inl (elim known [ inl e' ↦ e' | inr e' ↦ e' ]), b))
        ])
