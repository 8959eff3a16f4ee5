-- ===== src/Heap/PullUp.antt =====
-- pull_up of src/libcix/heap.rs joins the two subtrees of a removed node.
use cixrs.Base.{
  ℕ, zero, suc, ◌+◌, ◌<◌, ◌≡◌, refl, ◌∙◌, inl, inr, true, false, some, Ordering, arith, ◌==◌,
  Bool-cases,
}
use cixrs.Run.{ok, Cmd, pure, ◌>>◌, Returns, returns, Returns-bind, Returns-eq}
use cixrs.Heap.{HeapPtr, HeapNode, Pool, write, modify_md, pull_up}
use cixrs.Heap.Tree.{
  Tree, leaf, node, root_of, size_of, has, Apart, Distinct, join, is_greater, join_out, at_root,
  out-node, Apart-symm,
}
use cixrs.Heap.Owns.{
  Owns, Owns-frame, Owns-two, write-here, write-other, links, cell, get_node-ok, get_node_md-ok,
  modify_md-ok, resize, resize-ok,
}

module _ {T : Type 0} (cmp : T → T → Ordering) where
  -- The pool holds the joined tree below the old parent, and nothing outside the two trees changed.
  pub record Pulled (pool : Pool T) (par : HeapPtr) (l r : Tree T) (p : HeapPtr) (pool' : Pool T)
      : Type 0 where
    pub top : p ≡ root_of (join cmp l r)
    pub owns : Owns pool' par (join cmp l r)
    pub same : (x : ℕ) → has x l ≡ false → has x r ≡ false → pool' x ≡ pool x

  -- The last step of both branches: `j` becomes a child of `i`, which is returned.
  abbrev finish : ℕ → ℕ → Cmd (Pool T) HeapPtr
  finish i j = modify_md (λ md. record md { parent = some i }) (some j) >> pure (some i)

  finish-ok :
      (pool : Pool T) (i j : ℕ) (n : HeapNode T)
      → pool j ≡ some n
      → finish i j pool
        ≡ ok (some i) (write pool j (record n { md = record n.md { parent = some i } }))
  finish-ok pool i j n e = rw (modify_md-ok pool j n e _)

  module _ (pool : Pool T) (par : HeapPtr) (l : Tree T) (i : ℕ) (v : T) (r rl : Tree T) (j : ℕ)
      (w : T) (rr : Tree T) where
    -- The left root rises: its recursive call gave `pool1`, and the right root becomes its child.
    relink_left :
        Owns pool par (node l i v r)
        → Owns pool par (node rl j w rr)
        → Distinct (node l i v r)
        → Distinct (node rl j w rr)
        → Apart (node l i v r) (node rl j w rr)
        → is_greater (cmp v w) ≡ true
        → (p : HeapPtr) (pool1 : Pool T) → Pulled pool (some i) l r p pool1
        → Returns (Pulled pool par (node l i v r) (node rl j w rr)) (
            resize i
              (record (links par l r) { left_child = p; right_child = some j })
              (finish i j)
              pool1)
    unfolding join
    relink_left ol or dl dr apart e p pool1 u =
        let m = join cmp l r in
        let s = node rl j w rr in
        let out : has i m ≡ false = join_out cmp i l r dl.0 dl.1 in
        let i_s : has i s ≡ false = apart i (at_root l i v r) in
        let back : (x : ℕ) → has x s ≡ true → has x (node l i v r) ≡ false =
          Apart-symm (node l i v r) s apart in
        let kept : (x : ℕ) → has x s ≡ true → pool1 x ≡ pool x =
          λ x h. (let o = out-node x l i v r (back x h) in u.same x o.1 o.2) in
        let or1 = Owns-frame par s or kept in
        let pool2 : Pool T = write pool1 i (cell v par m s) in
        let j_i : (j == i) ≡ false = (out-node j l i v r (back j (at_root rl j w rr))).0 in
        let there : pool2 j ≡ some (cell w par rl rr) = write-other pool1 i _ j j_i ∙ or1.0 in
        let pool3 : Pool T = write pool2 j (cell w (some i) rl rr) in
        let o_i = out-node i rl j w rr i_s in
        let o_j = out-node j l i v r (back j (at_root rl j w rr)) in
        let j_m = join_out cmp j l r o_j.1 o_j.2 in
        rw u.top (
          Returns-eq
            (resize-ok (finish i j) pool1 i _ par _ m s _ par (u.same i dl.0 dl.1 ∙ ol.0) u.owns or1
              out i_s)
            (Returns-eq (finish-ok pool2 i j _ there) (
              returns (record {
                top = rw e;
                owns = rw e (
                  write-other pool2 j _ i o_i.0 ∙ write-here pool1 i _,
                  Owns-two pool1 (some i) m i j _ _ u.owns out j_m,
                  (
                    write-here pool2 j _,
                    Owns-two pool1 (some j) rl i j _ _ or1.1 o_i.1 dr.0,
                    Owns-two pool1 (some j) rr i j _ _ or1.2 o_i.2 dr.1,
                  ),
                );
                same = λ x a b.
                    (let oa = out-node x l i v r a in
                      let ob = out-node x rl j w rr b in
                      write-other pool2 j _ x ob.0
                      ∙ write-other pool1 i _ x oa.0
                      ∙ u.same x oa.1 oa.2);
              }))))

    -- The right root rises, in the same way.
    relink_right :
        Owns pool par (node l i v r)
        → Owns pool par (node rl j w rr)
        → Distinct (node l i v r)
        → Distinct (node rl j w rr)
        → Apart (node l i v r) (node rl j w rr)
        → is_greater (cmp v w) ≡ false
        → (p : HeapPtr) (pool1 : Pool T) → Pulled pool (some j) rl rr p pool1
        → Returns (Pulled pool par (node l i v r) (node rl j w rr)) (
            resize j
              (record (links par rl rr) { left_child = some i; right_child = p })
              (finish j i)
              pool1)
    unfolding join
    relink_right ol or dl dr apart e p pool1 u =
        let m = join cmp rl rr in
        let s = node l i v r in
        let out : has j m ≡ false = join_out cmp j rl rr dr.0 dr.1 in
        let back : (x : ℕ) → has x (node rl j w rr) ≡ true → has x s ≡ false =
          Apart-symm s (node rl j w rr) apart in
        let j_s : has j s ≡ false = back j (at_root rl j w rr) in
        let kept : (x : ℕ) → has x s ≡ true → pool1 x ≡ pool x =
          λ x h. (let o = out-node x rl j w rr (apart x h) in u.same x o.1 o.2) in
        let ol1 = Owns-frame par s ol kept in
        let pool2 : Pool T = write pool1 j (cell w par s m) in
        let o_i = out-node i rl j w rr (apart i (at_root l i v r)) in
        let o_j = out-node j l i v r j_s in
        let there : pool2 i ≡ some (cell v par l r) = write-other pool1 j _ i o_i.0 ∙ ol1.0 in
        let i_m = join_out cmp i rl rr o_i.1 o_i.2 in
        rw u.top (
          Returns-eq
            (resize-ok (finish j i) pool1 j _ par _ s m par _ (u.same j dr.0 dr.1 ∙ or.0) ol1 u.owns
              j_s out)
            (Returns-eq (finish-ok pool2 j i _ there) (
              returns (record {
                top = rw e;
                owns = rw e (
                  write-other pool2 i _ j o_j.0 ∙ write-here pool1 j _,
                  (
                    write-here pool2 i _,
                    Owns-two pool1 (some i) l j i _ _ ol1.1 o_j.1 dl.0,
                    Owns-two pool1 (some i) r j i _ _ ol1.2 o_j.2 dl.1,
                  ),
                  Owns-two pool1 (some j) m j i _ _ u.owns out i_m,
                );
                same = λ x a b.
                    (let oa = out-node x l i v r a in
                      let ob = out-node x rl j w rr b in
                      write-other pool2 i _ x oa.0
                      ∙ write-other pool1 j _ x ob.0
                      ∙ u.same x ob.1 ob.2);
              }))))

  pub pull_up-Pulled :
      (k : ℕ) (pool : Pool T) (par : HeapPtr) (l r : Tree T)
      → Owns pool par l
      → Owns pool par r
      → Distinct l
      → Distinct r
      → Apart l r
      → size_of l + size_of r < k
      → Returns (Pulled pool par l r) (pull_up cmp k (root_of l) (root_of r) pool)
  unfolding pull_up join
  pull_up-Pulled zero pool par l r ol or dl dr ap fuel = absurd (omega arith)
  pull_up-Pulled (suc k) pool par leaf leaf ol or dl dr ap fuel =
      returns (record { top = refl; owns = tt; same = λ x a b. refl })
  pull_up-Pulled (suc k) pool par leaf (node rl j w rr) ol or dl dr ap fuel =
      returns (record { top = refl; owns = or; same = λ x a b. refl })
  pull_up-Pulled (suc k) pool par (node ll i v lr) leaf ol or dl dr ap fuel =
      returns (record { top = refl; owns = ol; same = λ x a b. refl })
  pull_up-Pulled (suc k) pool par (node ll i v lr) (node rl j w rr) ol or dl dr ap fuel =
      let apart : (i == j) ≡ false = ground (arith, ap i) in
      rw (apart, get_node-ok pool i _ (ol.0), get_node-ok pool j _ (or.0))
        (elim (Bool-cases (is_greater (cmp v w))) [
          | inl e ↦
              rw (e, get_node_md-ok pool i _ (ol.0))
                (Returns-bind
                  (pull_up-Pulled k pool (some i) ll lr ol.1 ol.2 dl.3 dl.4 dl.2 (omega arith))
                  (relink_left pool par ll i v lr rl j w rr ol or dl dr ap e))
          | inr e ↦ rw e (
              rw (get_node_md-ok pool j _ (or.0)) (
                Returns-bind
                  (pull_up-Pulled k pool (some j) rl rr or.1 or.2 dr.3 dr.4 dr.2 (omega arith))
                  (relink_right pool par ll i v lr rl j w rr ol or dl dr ap e)))
        ])
