-- ===== src/Heap/Order.antt =====
-- The heap order: no child is greater than its parent. What it takes of the comparison, and that
-- joining and grafting trees keep it.
use cixrs.Base.{ℕ, ◌≡◌, inl, inr, true, false, Ordering, arith, Bool-cases, leb, List, [], ◌∷◌}
use cixrs.Heap.Tree.{Tree, leaf, node, size_of, join, behead, graft, is_greater, is_less}
use cixrs.Heap.Path.{Step, step, plug}

-- What a heap relies on of its Comparer, for the values that satisfy `P`: to be a total preorder.
pub record IsComparer {T : Type 0} (P : T → Type 0) (cmp : T → T → Ordering) : Type 0 where
  pub flip : (a b : T) → P a → P b → is_less (cmp a b) ≡ false → is_greater (cmp b a) ≡ false
  pub trans :
      (a b c : T)
      → P a
      → P b
      → P c
      → is_greater (cmp a b) ≡ false
      → is_greater (cmp b c) ≡ false
      → is_greater (cmp a c) ≡ false

pub not_greater_of_less : (o : Ordering) → is_less o ≡ true → is_greater o ≡ false
not_greater_of_less o h = ground arith

not_less_of_greater : (o : Ordering) → is_greater o ≡ true → is_less o ≡ false
not_less_of_greater o h = ground arith

module _ {T : Type 0} (P : T → Type 0) (cmp : T → T → Ordering) where
  abbrev pub Below : T → Tree T → Type 0
  Below v leaf = Unit {0}
  Below v (node l i w r) = is_greater (cmp w v) ≡ false

  abbrev pub IsOrdered : Tree T → Type 0
  IsOrdered leaf = Unit {0}
  IsOrdered (node l i v r) = P v × Below v l × Below v r × IsOrdered l × IsOrdered r

module _ {T : Type 0} {P : T → Type 0} {cmp : T → T → Ordering} (c : IsComparer P cmp) where
  Below-trans :
      (v w : T) (t : Tree T)
      → P v
      → P w
      → IsOrdered P cmp t
      → Below P cmp w t
      → is_greater (cmp w v) ≡ false
      → Below P cmp v t
  Below-trans v w leaf pv pw o b h = tt
  Below-trans v w (node l i u r) pv pw o b h = c.trans u w v o.0 pw pv b h

  Below-join :
      (v : T) (l r : Tree T) → Below P cmp v l → Below P cmp v r → Below P cmp v (join cmp l r)
  unfolding join
  Below-join v leaf r bl br = br
  Below-join v (node ll i w lr) leaf bl br = bl
  Below-join v (node ll i w lr) (node rl j u rr) bl br = elim (Bool-cases (is_greater (cmp w u))) [
    | inl e ↦ rw e bl
    | inr e ↦ rw e br
  ]

  pub IsOrdered-behead : (t : Tree T) → IsOrdered P cmp t → IsOrdered P cmp (behead cmp t)
  unfolding behead join
  IsOrdered-behead leaf o = tt
  IsOrdered-behead (node leaf i v r) o = o.4
  IsOrdered-behead (node (node ll j w lr) i v leaf) o = o.3
  IsOrdered-behead (node (node ll j w lr) i v (node rl k u rr)) o =
      elim (Bool-cases (is_greater (cmp w u))) [
        | inl e ↦ rw e (
          o.3.0,
          Below-join w ll lr o.3.1 o.3.2,
          c.flip w u o.3.0 o.4.0 (not_less_of_greater _ e),
          IsOrdered-behead (node ll j w lr) o.3,
          o.4,
        )
        | inr e ↦
            rw e
              (o.4.0, e, Below-join u rl rr o.4.1 o.4.2, o.3, IsOrdered-behead (node rl k u rr) o.4)
      ]

  Below-graft :
      (v : T) (t : Tree T) (i : ℕ) (w : T)
      → Below P cmp v t
      → is_greater (cmp w v) ≡ false
      → Below P cmp v (graft cmp t i w)
  unfolding graft
  Below-graft v leaf i w b h = h
  Below-graft v (node l j u r) i w b h = ground arith

  pub IsOrdered-graft :
      (t : Tree T) (i : ℕ) (w : T) → IsOrdered P cmp t → P w → IsOrdered P cmp (graft cmp t i w)
  unfolding graft
  IsOrdered-graft leaf i w o pw = (pw, tt, tt, tt, tt)
  IsOrdered-graft (node l j u r) i w o pw = elim (Bool-cases (is_less (cmp u w))) [
    | inl e ↦
        (let g = not_greater_of_less (cmp u w) e in
          let bl = Below-trans w u l pw o.0 o.3 o.1 g in
          let br = Below-trans w u r pw o.0 o.4 o.2 g in
          rw e (elim (Bool-cases (leb (size_of l) (size_of r))) [
            | inl s ↦ rw s (pw, Below-graft w l j u bl g, br, IsOrdered-graft l j u o.3 o.0, o.4)
            | inr s ↦ rw s (pw, bl, Below-graft w r j u br g, o.3, IsOrdered-graft r j u o.4 o.0)
          ]))
    | inr e ↦
        (let g = c.flip u w o.0 pw e in
          rw e (elim (Bool-cases (leb (size_of l) (size_of r))) [
            | inl s ↦ rw s (o.0, Below-graft u l i w o.1 g, o.2, IsOrdered-graft l i w o.3 pw, o.4)
            | inr s ↦ rw s (o.0, o.1, Below-graft u r i w o.2 g, o.3, IsOrdered-graft r i w o.4 pw)
          ]))
  ]

  -- Without one node the tree stays ordered.
  pub IsOrdered-plug :
      (p : List (Step T)) (t u : Tree T)
      → (IsOrdered P cmp t → IsOrdered P cmp u)
      → ((v : T) → P v → IsOrdered P cmp t → Below P cmp v t → Below P cmp v u)
      → IsOrdered P cmp (plug p t)
      → IsOrdered P cmp (plug p u)
  IsOrdered-plug [] t u f b o = f o
  IsOrdered-plug (step true i v s ∷ p) t u f b o =
      IsOrdered-plug p (node t i v s) (node u i v s) (λ q. (q.0, b v q.0 q.3 q.1, q.2, f q.3, q.4))
        (λ w pw q h. h) o
  IsOrdered-plug (step false i v s ∷ p) t u f b o =
      IsOrdered-plug p (node s i v t) (node s i v u) (λ q. (q.0, q.1, b v q.0 q.4 q.2, q.3, f q.4))
        (λ w pw q h. h) o

  pub IsOrdered-remove :
      (p : List (Step T)) (l : Tree T) (x : ℕ) (w : T) (r : Tree T)
      → IsOrdered P cmp (plug p (node l x w r))
      → IsOrdered P cmp (plug p (join cmp l r))
  unfolding join behead
  IsOrdered-remove p l x w r =
      IsOrdered-plug p (node l x w r) (join cmp l r) (IsOrdered-behead (node l x w r)) (λ v pv o h.
        Below-join v l r (Below-trans v w l pv o.0 o.3 o.1 h) (Below-trans v w r pv o.0 o.4 o.2 h))
