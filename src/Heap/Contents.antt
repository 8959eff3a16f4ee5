-- ===== src/Heap/Contents.antt =====
-- What a heap holds, seen from outside: which value stands under which handle.
use cixrs.Base.{
  ℕ, ◌+◌, ◌≤◌, ◌≡◌, refl, sym, ap, ◌∙◌, ◌⊎◌, inl, inr, ◌≢◌, ◌↔◌, true, false, Ordering, List, [],
  ◌∷◌, ◌++◌, arith, ◌==◌, ==_iff, Bool-cases, leb, length, length-append, true≢false,
}
use cixrs.Heap.Tree.{
  Tree, leaf, node, size_of, has, at_root, Distinct, join, behead, graft, is_greater, is_less,
}
use cixrs.Heap.Path.{Step, step, fill, plug, on_path, unplug-Distinct}

module _ {T : Type 0} where
  -- The value `v` stands under the handle of index `x`.
  abbrev pub Holds : ℕ → T → Tree T → Type 0
  Holds x v leaf = ⊥
  Holds x v (node l i w r) = ((x ≡ i) × (v ≡ w)) ⊎ (Holds x v l ⊎ Holds x v r)

  pub Holds-has : (x : ℕ) (v : T) (t : Tree T) → Holds x v t → has x t ≡ true
  Holds-has x v leaf h = absurd h
  Holds-has x v (node l i w r) (inl e) = ground arith
  Holds-has x v (node l i w r) (inr (inl h)) = ground (arith, Holds-has x v l h)
  Holds-has x v (node l i w r) (inr (inr h)) = ground (arith, Holds-has x v r h)

  -- Where a node stands in a tree.
  pub record Located (x : ℕ) (t : Tree T) : Type 0 where
    pub path : List (Step T)
    pub left : Tree T
    pub value : T
    pub right : Tree T
    pub here : t ≡ plug path (node left x value right)
    pub depth : length path + (size_of left + size_of right) + 1 ≤ size_of t

  plug-append : (c d : List (Step T)) (t : Tree T) → plug (c ++ d) t ≡ plug d (plug c t)
  plug-append [] d t = refl
  plug-append (s ∷ c) d t = plug-append c d (fill s t)

  right_of :
      (x : ℕ) (l : Tree T) (i : ℕ) (v : T) (r : Tree T)
      → has x (node l i v r) ≡ true
      → (x == i) ≡ false
      → has x l ≡ false
      → has x r ≡ true
  right_of x l i v r h ne e = ground arith

  pub locate : (x : ℕ) (t : Tree T) → has x t ≡ true → Located x t
  locate x leaf h = absurd (true≢false (sym h))
  locate x (node l i v r) h = elim (Bool-cases (x == i)) [
    | inl e ↦ record {
      path = [];
      left = l;
      value = v;
      right = r;
      here = ap (λ k. node l k v r) (sym ((==_iff x i).0 e));
      depth = omega arith;
    }
    | inr ne ↦ elim (Bool-cases (has x l)) [
      | inl e ↦
          (let u = locate x l e in
            record {
              path = u.path ++ step true i v r ∷ [];
              left = u.left;
              value = u.value;
              right = u.right;
              here = ap (λ t. node t i v r) u.here ∙ sym (plug-append u.path _ _);
              depth = omega (arith, u.depth, length-append u.path (step true i v r ∷ []));
            })
      | inr e ↦
          (let u = locate x r (right_of x l i v r h ne e) in
            record {
              path = u.path ++ step false i v l ∷ [];
              left = u.left;
              value = u.value;
              right = u.right;
              here = ap (λ t. node l i v t) u.here ∙ sym (plug-append u.path _ _);
              depth = omega (arith, u.depth, length-append u.path (step false i v l ∷ []));
            })
    ]
  ]

module _ {T : Type 0} (cmp : T → T → Ordering) where
  abbrev HoldsBelow : ℕ → T → Tree T → Type 0
  HoldsBelow x v leaf = ⊥
  HoldsBelow x v (node l i w r) = Holds x v l ⊎ Holds x v r

  Holds-behead : (x : ℕ) (v : T) (t : Tree T) → Holds x v (behead cmp t) ↔ HoldsBelow x v t
  unfolding behead
  Holds-behead x v leaf = (λ h. h, λ h. h)
  Holds-behead x v (node leaf i u r) = (inr, λ h. elim h [ inl e ↦ absurd e | inr e ↦ e ])
  Holds-behead x v (node (node ll j w lr) i u leaf) =
      (inl, λ h. elim h [ inl e ↦ e | inr e ↦ absurd e ])
  Holds-behead x v (node (node ll j w lr) i u (node rl k z rr)) =
      let hl = Holds-behead x v (node ll j w lr) in
      let hr = Holds-behead x v (node rl k z rr) in
      elim (Bool-cases (is_greater (cmp w z))) [
        | inl e ↦ rw e ((λ h. grind (arith, hl)), (λ h. grind (arith, hl)))
        | inr e ↦ rw e ((λ h. grind (arith, hr)), (λ h. grind (arith, hr)))
      ]

  -- Joining two trees keeps what both hold.
  pub Holds-join :
      (x : ℕ) (v : T) (l r : Tree T) → Holds x v (join cmp l r) ↔ (Holds x v l ⊎ Holds x v r)
  unfolding join behead
  Holds-join x v leaf r = Holds-behead x v (node leaf x v r)
  Holds-join x v (node ll i u lr) r = Holds-behead x v (node (node ll i u lr) x v r)

  -- Grafting a node adds it and keeps the rest.
  pub Holds-graft :
      (x : ℕ) (v : T) (t : Tree T) (i : ℕ) (w : T)
      → Holds x v (graft cmp t i w) ↔ (((x ≡ i) × (v ≡ w)) ⊎ Holds x v t)
  unfolding graft
  Holds-graft x v leaf i w = ((λ h. grind arith), (λ h. grind arith))
  Holds-graft x v (node l j u r) i w = elim (Bool-cases (is_less (cmp u w))) [
    | inl e ↦ rw e (elim (Bool-cases (leb (size_of l) (size_of r))) [
      | inl s ↦
          rw s (let g = Holds-graft x v l j u in ((λ h. grind (arith, g)), (λ h. grind (arith, g))))
      | inr s ↦
          rw s (let g = Holds-graft x v r j u in ((λ h. grind (arith, g)), (λ h. grind (arith, g))))
    ])
    | inr e ↦ rw e (elim (Bool-cases (leb (size_of l) (size_of r))) [
      | inl s ↦
          rw s (let g = Holds-graft x v l i w in ((λ h. grind (arith, g)), (λ h. grind (arith, g))))
      | inr s ↦
          rw s (let g = Holds-graft x v r i w in ((λ h. grind (arith, g)), (λ h. grind (arith, g))))
    ])
  ]

module _ {T : Type 0} where
  abbrev HoldsPath : ℕ → T → List (Step T) → Type 0
  HoldsPath x v [] = ⊥
  HoldsPath x v (step b i w s ∷ c) = ((x ≡ i) × (v ≡ w)) ⊎ (Holds x v s ⊎ HoldsPath x v c)

  Holds-plug :
      (x : ℕ) (v : T) (c : List (Step T)) (t : Tree T)
      → Holds x v (plug c t) ↔ (Holds x v t ⊎ HoldsPath x v c)
  Holds-plug x v [] t = (inl, λ h. elim h [ inl e ↦ e | inr e ↦ absurd e ])
  Holds-plug x v (step true i w s ∷ c) t =
      let g = Holds-plug x v c (node t i w s) in ((λ h. grind (arith, g)), (λ h. grind (arith, g)))
  Holds-plug x v (step false i w s ∷ c) t =
      let g = Holds-plug x v c (node s i w t) in ((λ h. grind (arith, g)), (λ h. grind (arith, g)))

  HoldsPath-on_path : (x : ℕ) (v : T) (c : List (Step T)) → HoldsPath x v c → on_path x c ≡ true
  HoldsPath-on_path x v [] h = absurd h
  HoldsPath-on_path x v (step b i w s ∷ c) (inl e) = ground arith
  HoldsPath-on_path x v (step b i w s ∷ c) (inr (inl h)) = ground (arith, Holds-has x v s h)
  HoldsPath-on_path x v (step b i w s ∷ c) (inr (inr h)) = ground (arith, HoldsPath-on_path x v c h)

module _ {T : Type 0} (cmp : T → T → Ordering) where
  -- Joining the subtrees of a node in its place removes that node and nothing else.
  pub Holds-remove :
      (y : ℕ) (v : T) (c : List (Step T)) (l : Tree T) (x : ℕ) (w : T) (r : Tree T)
      → Distinct (plug c (node l x w r))
      → Holds y v (plug c (join cmp l r)) ↔ (Holds y v (plug c (node l x w r)) × (y ≢ x))
  Holds-remove y v c l x w r d =
      let (dn, dp, off) = unplug-Distinct c (node l x w r) d in
      let new = Holds-plug y v c (join cmp l r) in
      let old = Holds-plug y v c (node l x w r) in
      let joined = Holds-join cmp y v l r in
      let left : Holds y v l → y ≢ x =
        λ h e. true≢false (sym (Holds-has y v l h) ∙ ap (λ z. has z l) e ∙ dn.0) in
      let right : Holds y v r → y ≢ x =
        λ h e. true≢false (sym (Holds-has y v r h) ∙ ap (λ z. has z r) e ∙ dn.1) in
      let up : HoldsPath y v c → y ≢ x = λ h e.
        true≢false
          (sym (HoldsPath-on_path y v c h) ∙ ap (λ z. on_path z c) e ∙ off x (at_root l x w r)) in
      (
        (λ h. elim (new.0 h) [
          | inl j ↦ elim (joined.0 j) [
            | inl a ↦ (old.1 (inl (inr (inl a))), left a)
            | inr b ↦ (old.1 (inl (inr (inr b))), right b)
          ]
          | inr p ↦ (old.1 (inr p), up p)
        ]),
        (λ (h, ne). elim (old.0 h) [
          | inl (inl e) ↦ absurd (ne e.0)
          | inl (inr k) ↦ new.1 (inl (joined.1 k))
          | inr p ↦ new.1 (inr p)
        ]),
      )

  -- A handle holds one value.
  pub Holds-located :
      (x : ℕ) (v : T) (c : List (Step T)) (l : Tree T) (w : T) (r : Tree T)
      → Distinct (plug c (node l x w r))
      → Holds x v (plug c (node l x w r))
      → v ≡ w
  Holds-located x v c l w r d h =
      let (dn, dp, off) = unplug-Distinct c (node l x w r) d in
      elim ((Holds-plug x v c (node l x w r)).0 h) [
        | inl (inl e) ↦ e.1
        | inl (inr (inl k)) ↦ absurd (true≢false (sym (Holds-has x v l k) ∙ dn.0))
        | inl (inr (inr k)) ↦ absurd (true≢false (sym (Holds-has x v r k) ∙ dn.1))
        | inr p ↦ absurd (true≢false (sym (HoldsPath-on_path x v c p) ∙ off x (at_root l x w r)))
      ]
