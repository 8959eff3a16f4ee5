-- ===== src/Heap/Insert.antt =====
-- insert_node of src/libcix/heap.rs grafts a node onto the tree.
use cixrs.Base.{
  eq-symm_false, ℕ, suc, ◌+◌, ◌<◌, ◌≡◌, refl, sym, ap, ◌∙◌, true, false, Option, some, Ordering,
  arith, ◌==◌, leb,
}
use cixrs.Run.{ok, Cmd, pure, ◌>>◌, Returns, returns, Returns-mono}
use cixrs.Heap.{
  HeapPtr, HeapNode, HeapNodeMd, Pool, set_node_md, write, modify_md, insert_left, insert_right,
  insert_below,
}
use cixrs.Heap.Tree.{Tree, leaf, node, root_of, size_of, has, Distinct, out-node, Apart-symm}
use cixrs.Heap.Owns.{
  Owns, Owns-frame, Owns-write, Owns-two, write-here, write-other, links, cell, get_node_md-ok,
  modify_md-ok, set_node_md-ok, adopt, adopt-ok, Built,
}

module _ {T : Type 0} (n : HeapNode T) where
  resized :
      (q : HeapPtr) (l r : Tree T)
      → n.md.size ≡ suc (size_of l + size_of r)
      → ◌≡◌ {A = Option (HeapNode T)}
          (some (record n {
            md = record n.md { parent = q; left_child = root_of l; right_child = root_of r };
          }))
          (some (cell n.value q l r))
  resized q l r s =
      ap
        (λ z. some (record n {
          md = record { parent = q; left_child = root_of l; right_child = root_of r; size = z };
        }))
        s

module _ {T : Type 0} (cmp : T → T → Ordering) (pool : Pool T) (i j : ℕ) (n k : HeapNode T)
    (at_i : pool i ≡ some n) (at_j : pool j ≡ some k) (ne : (j == i) ≡ false) where
  -- Node `j` becomes a leaf on the left of `i`, which keeps `r` on its right.
  pub insert_left-Built :
      (par q : HeapPtr) (r : Tree T)
      → Owns pool q r
      → Distinct r
      → has i r ≡ false
      → has j r ≡ false
      → n.md.size ≡ suc (1 + size_of r)
      → Returns
          (Built pool n.md.parent (node (node leaf j k.value leaf) i n.value r))
          (insert_left cmp (some i) (some j) (links par leaf r) pool)
  unfolding insert_left
  insert_left-Built par q r o d i_r j_r s =
      let (pool1, e1, o1, same1) = adopt-ok pool q (some i) r o d in
      let sub : Tree T = node leaf j k.value leaf in
      let n2 : HeapNode T = record n {
        md = record n.md { left_child = some j; right_child = root_of r };
      } in
      let pool2 : Pool T = write pool1 i n2 in
      let here : pool1 i ≡ some n = same1 i i_r ∙ at_i in
      let there : pool2 j ≡ some k = write-other pool1 i n2 j ne ∙ same1 j j_r ∙ at_j in
      rw (e1, modify_md-ok pool1 i n here, modify_md-ok pool2 j k there)
        (returns (record {
          top = refl;
          owns = (
            write-other pool2 j _ i (eq-symm_false j i ne)
                ∙ write-here pool1 i n2
                ∙ resized n n.md.parent sub r s,
            (write-here pool2 j _, tt, tt),
            Owns-two pool1 (some i) r i j _ _ o1 i_r j_r,
          );
          same = λ x h.
              (let o = out-node x sub i n.value r h in
                let o' = out-node x leaf j k.value leaf o.1 in
                write-other pool2 j _ x o'.0 ∙ write-other pool1 i _ x o.0 ∙ same1 x o.2);
        }))

  -- Node `j` becomes a leaf on the right of `i`, which keeps a left subtree.
  pub insert_right-Built :
      (par q : HeapPtr) (ll : Tree T) (h : ℕ) (u : T) (lr : Tree T)
      → let l = node ll h u lr in
        Owns pool q l
        → Distinct l
        → has i l ≡ false
        → has j l ≡ false
        → n.md.size ≡ suc (size_of l + 1)
        → Returns
            (Built pool n.md.parent (node l i n.value (node leaf j k.value leaf)))
            (insert_right cmp (some i) (some j) (links par l leaf) pool)
  unfolding insert_right
  insert_right-Built par q ll h u lr o d i_l j_l s =
      let l : Tree T = node ll h u lr in
      let (pool1, e1, o1, same1) = adopt-ok pool q (some i) l o d in
      let sub : Tree T = node leaf j k.value leaf in
      let n2 : HeapNode T = record n {
        md = record n.md { left_child = root_of l; right_child = some j };
      } in
      let pool2 : Pool T = write pool1 i n2 in
      let here : pool1 i ≡ some n = same1 i i_l ∙ at_i in
      let there : pool2 j ≡ some k = write-other pool1 i n2 j ne ∙ same1 j j_l ∙ at_j in
      rw (e1, modify_md-ok pool1 i n here, modify_md-ok pool2 j k there)
        (returns (record {
          top = refl;
          owns = (
            write-other pool2 j _ i (eq-symm_false j i ne)
                ∙ write-here pool1 i n2
                ∙ resized n n.md.parent l sub s,
            Owns-two pool1 (some i) l i j _ _ o1 i_l j_l,
            (write-here pool2 j _, tt, tt),
          );
          same = λ x h.
              (let o = out-node x l i n.value sub h in
                let o' = out-node x leaf j k.value leaf o.2 in
                write-other pool2 j _ x o'.0 ∙ write-other pool1 i _ x o.0 ∙ same1 x o.1);
        }))

module _ {T : Type 0} (cmp : T → T → Ordering) where
  -- The end of the last branch of insert_node: both children get their parent, and `i` its links.
  abbrev link : ℕ → HeapPtr → HeapNodeMd → HeapPtr → HeapPtr → Cmd (Pool T) HeapPtr
  link i par md a b =
      modify_md (λ c. record c { parent = some i }) a
      >> (modify_md (λ c. record c { parent = some i }) b
          >> (set_node_md (some i) (record md { left_child = a; right_child = b; parent = par })
              >> pure (some i)))

  adopt-modify :
      (q : HeapPtr) (t : Tree T)
      → 0 < size_of t
      → adopt q t ≡ modify_md (λ md. record md { parent = q }) (root_of t)
  adopt-modify q leaf h = absurd (omega arith)
  adopt-modify q (node l i v r) h = refl

  link-Built :
      (pool : Pool T) (i : ℕ) (n : HeapNode T) (par : HeapPtr) (a b : Tree T) (p q : HeapPtr)
      → pool i ≡ some n
      → Owns pool p a
      → Owns pool q b
      → 0 < size_of a
      → 0 < size_of b
      → Distinct (node a i n.value b)
      → n.md.size ≡ suc (size_of a + size_of b)
      → Returns (Built pool par (node a i n.value b)) (link i par n.md (root_of a) (root_of b) pool)
  link-Built pool i n par a b p q at_i oa ob pa pb d s =
      let (pool1, e1, o1, same1) = adopt-ok pool p (some i) a oa d.3 in
      let ob1 = Owns-frame q b ob (λ x h. same1 x (Apart-symm a b d.2 x h)) in
      let (pool2, e2, o2, same2) = adopt-ok pool1 q (some i) b ob1 d.4 in
      let oa2 = Owns-frame (some i) a o1 (λ x h. same2 x (d.2 x h)) in
      let here : pool2 i ≡ some n = same2 i d.1 ∙ same1 i d.0 ∙ at_i in
      rw
        (
          ap (λ f. f pool) (sym (adopt-modify (some i) a pa)) ∙ e1,
          ap (λ f. f pool1) (sym (adopt-modify (some i) b pb)) ∙ e2,
          set_node_md-ok pool2 i n here,
        )
        (returns (record {
          top = refl;
          owns = (
            write-here pool2 i _ ∙ resized n par a b s,
            Owns-write pool2 (some i) a i _ oa2 d.0,
            Owns-write pool2 (some i) b i _ o2 d.1,
          );
          same = λ x h.
              (let o = out-node x a i n.value b h in
                write-other pool2 i _ x o.0 ∙ same2 x o.2 ∙ same1 x o.1);
        }))

  module _ (again : HeapPtr → HeapPtr → Cmd (Pool T) HeapPtr) (pool : Pool T) (i j : ℕ)
      (n : HeapNode T) (par c : HeapPtr) (ll : Tree T) (a : ℕ) (u : T) (lr rl : Tree T) (b : ℕ)
      (w : T) (rr : Tree T) where
    abbrev pub left : Tree T
    left = node ll a u lr

    abbrev pub right : Tree T
    right = node rl b w rr

    -- The recursive call goes to the left, and leaves the tree `t` there.
    pub insert_below-left :
        (t : Tree T) (q p : HeapPtr) (pool1 : Pool T)
        → leb (size_of left) (size_of right) ≡ true
        → pool i ≡ some n
        → Owns pool c left
        → Owns pool c right
        → again (root_of left) (some j) pool ≡ ok p pool1
        → Built pool q t p pool1
        → 0 < size_of t
        → Distinct (node t i n.value right)
        → n.md.size ≡ suc (size_of t + size_of right)
        → Returns
            (Built pool par (node t i n.value right))
            (insert_below cmp again (some i) (some j) (links par left right) pool)
    unfolding insert_below
    insert_below-left t q p pool1 side at_i ol or run u' pos d s =
        let or1 = Owns-frame c right or (λ x h. u'.same x (Apart-symm t right d.2 x h)) in
        let here : pool1 i ≡ some n = u'.same i d.0 ∙ at_i in
        rw
          (
            get_node_md-ok pool a _ (ol.0),
            get_node_md-ok pool b _ (or.0),
            side,
            run,
            u'.top,
            get_node_md-ok pool1 i n here,
          )
          (Returns-mono
            (link-Built pool1 i n par t right q c here u'.owns or1 pos (omega arith) d s)
            λ p' pool2 v. record {
              top = v.top;
              owns = v.owns;
              same = λ x h. v.same x h ∙ u'.same x (out-node x t i n.value right h).1;
            })

    pub insert_below-right :
        (t : Tree T) (q p : HeapPtr) (pool1 : Pool T)
        → leb (size_of left) (size_of right) ≡ false
        → pool i ≡ some n
        → Owns pool c left
        → Owns pool c right
        → again (root_of right) (some j) pool ≡ ok p pool1
        → Built pool q t p pool1
        → 0 < size_of t
        → Distinct (node left i n.value t)
        → n.md.size ≡ suc (size_of left + size_of t)
        → Returns
            (Built pool par (node left i n.value t))
            (insert_below cmp again (some i) (some j) (links par left right) pool)
    unfolding insert_below
    insert_below-right t q p pool1 side at_i ol or run u' pos d s =
        let ol1 = Owns-frame c left ol (λ x h. u'.same x (d.2 x h)) in
        let here : pool1 i ≡ some n = u'.same i d.1 ∙ at_i in
        rw
          (
            get_node_md-ok pool a _ (ol.0),
            get_node_md-ok pool b _ (or.0),
            side,
            run,
            u'.top,
            get_node_md-ok pool1 i n here,
          )
          (Returns-mono (link-Built pool1 i n par left t c q here ol1 u'.owns (omega arith) pos d s)
            λ p' pool2 v. record {
              top = v.top;
              owns = v.owns;
              same = λ x h. v.same x h ∙ u'.same x (out-node x left i n.value t h).2;
            })
