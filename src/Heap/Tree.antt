-- ===== src/Heap/Tree.antt =====
-- The trees that a pool of src/libcix/heap.rs stands for: each node with its index in the pool and
-- its value, and the tree operations that the pointer code performs.
use cixrs.Base.{
  true≢false, eq-symm_false, ℕ, suc, ◌+◌, ◌-◌, ◌≡◌, refl, sym, ap, ◌∙◌, ==_iff, inl, inr, Bool,
  true, false, ◌||◌, Option, none, some, Ordering, leb, ◌==◌, arith, Bool-cases, if◌then◌else◌,
}

pub data Tree (T : Type 0) : Type 0 where
  leaf : Tree T
  node : Tree T → ℕ → T → Tree T → Tree T

module _ {T : Type 0} where
  abbrev pub root_of : Tree T → Option ℕ
  root_of leaf = none
  root_of (node l i v r) = some i

  abbrev pub size_of : Tree T → ℕ
  size_of leaf = 0
  size_of (node l i v r) = suc (size_of l + size_of r)

  abbrev pub has : ℕ → Tree T → Bool
  has x leaf = false
  has x (node l i v r) = (x == i) || (has x l || has x r)

  abbrev pub Apart : Tree T → Tree T → Type 0
  Apart l r = (x : ℕ) → has x l ≡ true → has x r ≡ false

  -- no index stands twice in the tree
  abbrev pub Distinct : Tree T → Type 0
  Distinct leaf = Unit {0}
  Distinct (node l i v r) =
      (has i l ≡ false) × (has i r ≡ false) × Apart l r × Distinct l × Distinct r

  pub in_left :
      (x : ℕ) (l : Tree T) (i : ℕ) (v : T) (r : Tree T)
      → has x l ≡ true
      → has x (node l i v r) ≡ true
  in_left x l i v r h = ground arith

  pub in_right :
      (x : ℕ) (l : Tree T) (i : ℕ) (v : T) (r : Tree T)
      → has x r ≡ true
      → has x (node l i v r) ≡ true
  in_right x l i v r h = ground arith

  pub at_root : (l : Tree T) (i : ℕ) (v : T) (r : Tree T) → has i (node l i v r) ≡ true
  at_root l i v r = ground arith

  pub out-node :
      (x : ℕ) (l : Tree T) (i : ℕ) (v : T) (r : Tree T)
      → has x (node l i v r) ≡ false
      → ((x == i) ≡ false) × (has x l ≡ false) × (has x r ≡ false)
  out-node x l i v r h = ground arith

  pub node-out :
      (x : ℕ) (l : Tree T) (i : ℕ) (v : T) (r : Tree T)
      → (x == i) ≡ false
      → has x l ≡ false
      → has x r ≡ false
      → has x (node l i v r) ≡ false
  node-out x l i v r h a b = ground arith

  pub Apart-symm : (l r : Tree T) → Apart l r → Apart r l
  Apart-symm l r ap x h = ground (arith, ap x)

  pub ne_of_has : (x y : ℕ) (t : Tree T) → has x t ≡ true → has y t ≡ false → (x == y) ≡ false
  ne_of_has x y t h k = elim (Bool-cases (x == y)) [
    | inl e ↦ absurd (true≢false (sym h ∙ ap (λ z. has z t) ((==_iff x y).0 e) ∙ k))
    | inr e ↦ e
  ]

abbrev pub is_greater : Ordering → Bool
is_greater Ordering.lt = false
is_greater Ordering.eq = false
is_greater Ordering.gt = true

abbrev pub is_less : Ordering → Bool
is_less Ordering.lt = true
is_less Ordering.eq = false
is_less Ordering.gt = false

module _ {T : Type 0} (cmp : T → T → Ordering) where
  -- One tree from the two below a removed node, given what they are without their roots.
  unfoldable pub pick : Tree T → Tree T → Tree T → Tree T → Tree T
  pick leaf r l' r' = r
  pick (node ll i v lr) leaf l' r' = node ll i v lr
  pick (node ll i v lr) (node rl j w rr) l' r' =
      if is_greater (cmp v w) then node l' i v (node rl j w rr) else node (node ll i v lr) j w r'

  -- The tree without its root.
  unfoldable pub behead : Tree T → Tree T
  unfolding pick
  behead leaf = leaf
  behead (node l i v r) = pick l r (behead l) (behead r)

  unfoldable pub join : Tree T → Tree T → Tree T
  unfolding pick behead
  join l r = pick l r (behead l) (behead r)

  -- The new node sinks into the smaller side, and the greater value stays above.
  unfoldable pub graft : Tree T → ℕ → T → Tree T
  graft leaf i v = node leaf i v leaf
  graft (node l h u r) i v =
      if is_less (cmp u v)
      then (if leb (size_of l) (size_of r)
          then node (graft l h u) i v r
          else node l i v (graft r h u))
      else (if leb (size_of l) (size_of r)
          then node (graft l i v) h u r
          else node l h u (graft r i v))

  -- what lies below the root
  abbrev pub has_below : ℕ → Tree T → Bool
  has_below x leaf = false
  has_below x (node l i v r) = has x l || has x r

  pub has-behead : (x : ℕ) (t : Tree T) → has x (behead t) ≡ has_below x t
  unfolding behead pick
  has-behead x leaf = refl
  has-behead x (node leaf i v r) = refl
  has-behead x (node (node ll j w lr) i v leaf) = ground arith
  has-behead x (node (node ll j w lr) i v (node rl k u rr)) =
      ground (arith, has-behead x (node ll j w lr), has-behead x (node rl k u rr))

  pub has-join : (x : ℕ) (l r : Tree T) → has x (join l r) ≡ (has x l || has x r)
  unfolding join pick
  has-join x leaf r = refl
  has-join x (node ll i v lr) leaf = ground arith
  has-join x (node ll i v lr) (node rl j w rr) =
      ground (arith, has-behead x (node ll i v lr), has-behead x (node rl j w rr))

  pub size-behead : (t : Tree T) → size_of (behead t) ≡ size_of t - 1
  unfolding behead pick
  size-behead leaf = refl
  size-behead (node leaf i v r) = omega arith
  size-behead (node (node ll j w lr) i v leaf) = omega arith
  size-behead (node (node ll j w lr) i v (node rl k u rr)) =
      ground (arith, size-behead (node ll j w lr), size-behead (node rl k u rr))

  pub size-join : (l r : Tree T) → size_of (join l r) ≡ size_of l + size_of r
  unfolding join pick
  size-join leaf r = omega arith
  size-join (node ll i v lr) leaf = omega arith
  size-join (node ll i v lr) (node rl j w rr) =
      ground (arith, size-behead (node ll i v lr), size-behead (node rl j w rr))

  pub Distinct-behead : (t : Tree T) → Distinct t → Distinct (behead t)
  unfolding behead pick
  Distinct-behead leaf d = tt
  Distinct-behead (node leaf i v r) d = d.4
  Distinct-behead (node (node ll j w lr) i v leaf) d = d.3
  Distinct-behead (node (node ll j w lr) i v (node rl k u rr)) d =
      elim (Bool-cases (is_greater (cmp w u))) [
        | inl e ↦ rw e (
          ground (arith, d.2 j, has-behead j (node ll j w lr)),
          ground (arith, d.2 j),
          (λ x h. ground (arith, d.2 x, has-behead x (node ll j w lr))),
          Distinct-behead (node ll j w lr) d.3,
          d.4,
        )
        | inr e ↦ rw e (
          ground (arith, d.2 k),
          ground (arith, has-behead k (node rl k u rr)),
          (λ x h. ground (arith, d.2 x, has-behead x (node rl k u rr))),
          d.3,
          Distinct-behead (node rl k u rr) d.4,
        )
      ]

  pub join_out :
      (x : ℕ) (l r : Tree T) → has x l ≡ false → has x r ≡ false → has x (join l r) ≡ false
  join_out x l r a b = ground (arith, has-join x l r)

  pub out-join :
      (x : ℕ) (l r : Tree T) → has x (join l r) ≡ false → (has x l ≡ false) × (has x r ≡ false)
  out-join x l r h = ground (arith, has-join x l r)

  pub Apart-join : (l r t : Tree T) → Apart l t → Apart r t → Apart (join l r) t
  Apart-join l r t al ar x h = ground (arith, has-join x l r, al x, ar x)

  pub has-graft : (x : ℕ) (t : Tree T) (i : ℕ) (v : T) → has x (graft t i v) ≡ ((x == i) || has x t)
  unfolding graft
  has-graft x leaf i v = refl
  has-graft x (node l h u r) i v =
      ground (arith, has-graft x l h u, has-graft x l i v, has-graft x r h u, has-graft x r i v)

  pub size-graft : (t : Tree T) (i : ℕ) (v : T) → size_of (graft t i v) ≡ suc (size_of t)
  unfolding graft
  size-graft leaf i v = refl
  size-graft (node l h u r) i v =
      ground (arith, size-graft l h u, size-graft l i v, size-graft r h u, size-graft r i v)

  pub graft_out :
      (x : ℕ) (t : Tree T) (i : ℕ) (v : T)
      → (x == i) ≡ false
      → has x t ≡ false
      → has x (graft t i v) ≡ false
  graft_out x t i v a b = has-graft x t i v ∙ ground arith

  pub out-graft :
      (x : ℕ) (t : Tree T) (i : ℕ) (v : T)
      → has x (graft t i v) ≡ false
      → ((x == i) ≡ false) × (has x t ≡ false)
  out-graft x t i v h = ground (arith, has-graft x t i v)

  Apart-graft :
      (l : Tree T) (i : ℕ) (v : T) (r : Tree T)
      → Apart l r
      → has i r ≡ false
      → Apart (graft l i v) r
  Apart-graft l i v r apart h x m = elim (Bool-cases (has x r)) [
    | inr out ↦ out
    | inl e ↦
        absurd
          (true≢false (sym m ∙ graft_out x l i v (ne_of_has x i r e h) (Apart-symm l r apart x e)))
  ]

  pub Distinct-graft_left :
      (l r : Tree T) (h i : ℕ) (u v : T)
      → Distinct (graft l i v)
      → Distinct r
      → Apart l r
      → (h == i) ≡ false
      → (has h l ≡ false) × (has h r ≡ false)
      → has i r ≡ false
      → Distinct (node (graft l i v) h u r)
  Distinct-graft_left l r h i u v dl dr apart ne out ir =
      (graft_out h l i v ne out.0, out.1, Apart-graft l i v r apart ir, dl, dr)

  pub Distinct-graft_right :
      (l r : Tree T) (h i : ℕ) (u v : T)
      → Distinct l
      → Distinct (graft r i v)
      → Apart l r
      → (h == i) ≡ false
      → (has h l ≡ false) × (has h r ≡ false)
      → has i l ≡ false
      → Distinct (node l h u (graft r i v))
  Distinct-graft_right l r h i u v dl dr apart ne out il = (
    out.0,
    graft_out h r i v ne out.1,
    Apart-symm (graft r i v) l (Apart-graft r i v l (Apart-symm l r apart) il),
    dl,
    dr,
  )

  pub Distinct-graft :
      (t : Tree T) (i : ℕ) (v : T) → Distinct t → has i t ≡ false → Distinct (graft t i v)
  unfolding graft
  Distinct-graft leaf i v d o = (refl, refl, (λ x h. refl), tt, tt)
  Distinct-graft (node l h u r) i v d o =
      let out = out-node i l h u r o in
      let ne : (h == i) ≡ false = eq-symm_false i h out.0 in
      elim (Bool-cases (is_less (cmp u v))) [
        | inl e ↦ rw e (elim (Bool-cases (leb (size_of l) (size_of r))) [
          | inl s ↦ rw s (
              Distinct-graft_left l r i h v u (Distinct-graft l h u d.3 d.0) d.4 d.2 out.0
                (out.1, out.2) d.1)
          | inr s ↦ rw s (
              Distinct-graft_right l r i h v u d.3 (Distinct-graft r h u d.4 d.1) d.2 out.0
                (out.1, out.2) d.0)
        ])
        | inr e ↦ rw e (elim (Bool-cases (leb (size_of l) (size_of r))) [
          | inl s ↦ rw s (
              Distinct-graft_left l r h i u v (Distinct-graft l i v d.3 out.1) d.4 d.2 ne (d.0, d.1)
                out.2)
          | inr s ↦ rw s (
              Distinct-graft_right l r h i u v d.3 (Distinct-graft r i v d.4 out.2) d.2 ne
                (d.0, d.1) out.1)
        ])
      ]

  pub Distinct-join :
      (l : Tree T) (i : ℕ) (v : T) (r : Tree T) → Distinct (node l i v r) → Distinct (join l r)
  unfolding join behead
  Distinct-join l i v r d = Distinct-behead (node l i v r) d
