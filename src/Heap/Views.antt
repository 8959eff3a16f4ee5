-- ===== src/Heap/Views.antt =====
-- The observers of src/libcix/heap.rs on a valid heap: new, peek and get.
use cixrs.Base.{
  ℕ, zero, suc, ◌+◌, ◌<◌, ◌≤◌, ◌≡◌, refl, sym, ap, ◌∙◌, inl, inr, false, some, none, Ordering,
  Option, arith, Bool-cases, length,
}
use cixrs.Run.{ok}
use cixrs.Heap.{
  HeapPtr, HeapHandle, HeapNodeMd, Pool, TreeHeap, new, range_from, listed, peek, get, default_md,
}
use cixrs.Heap.Tree.{Tree, leaf, node, root_of, is_greater, is_less}
use cixrs.Heap.Owns.{Owns, cell, links, get_node-ok}
use cixrs.Heap.Contents.{Holds}
use cixrs.Heap.Order.{IsComparer, IsOrdered, Below, not_greater_of_less}
use cixrs.Heap.Valid.{IsValid, FreeSlots}

unlisted_below : (x y n : ℕ) → x < y → listed x (range_from y n) ≡ false
unlisted_below x y zero h = refl
unlisted_below x y (suc n) h = ground (arith, unlisted_below x (suc y) n)

length-range_from : (lo n : ℕ) → length (range_from lo n) ≡ n
length-range_from lo zero = refl
length-range_from lo (suc n) = ap suc (length-range_from (suc lo) n)

module _ {T : Type 0} where
  slot_of_new :
      (d : T) (n x : ℕ) → x < n → (new d n).pool x ≡ some (record { value = d; md = default_md })
  unfolding new
  slot_of_new d n x h = ground arith

  range_from-FreeSlots :
      (d : T) (n lo k : ℕ) → lo + k ≤ n → FreeSlots (new d n).pool leaf (range_from lo k)
  range_from-FreeSlots d n lo zero h = tt
  range_from-FreeSlots d n lo (suc k) h = (
    refl,
    (_, slot_of_new d n lo (omega arith)),
    unlisted_below lo (suc lo) k (omega arith),
    range_from-FreeSlots d n (suc lo) k (omega arith),
  )

  -- The node of a value that the heap holds.
  Owns-Holds :
      (pool : Pool T) (par : HeapPtr) (t : Tree T) (x : ℕ) (w : T)
      → Owns pool par t
      → Holds x w t
      → (md : HeapNodeMd) × (pool x ≡ some (record { value = w; md = md }))
  Owns-Holds pool par leaf x w o h = absurd h
  Owns-Holds pool par (node l i v r) x w o (inl e) =
      (links par l r, ap pool (e.0) ∙ o.0 ∙ ap (λ z. some (cell z par l r)) (sym (e.1)))
  Owns-Holds pool par (node l i v r) x w o (inr (inl h)) = Owns-Holds pool (some i) l x w o.1 h
  Owns-Holds pool par (node l i v r) x w o (inr (inr h)) = Owns-Holds pool (some i) r x w o.2 h

module _ {T : Type 0} {P : T → Type 0} {cmp : T → T → Ordering} (c : IsComparer P cmp) where
  -- A new heap is valid and empty.
  pub new-IsValid : (d : T) (n : ℕ) → IsValid P cmp (new d n) leaf
  unfolding new
  new-IsValid d n = record {
    root = refl;
    owns = tt;
    distinct = tt;
    ordered = tt;
    free = range_from-FreeSlots d n 0 n (omega arith);
    room = omega (arith, length-range_from 0 n);
  }

  -- What `get` returns for a handle of a valid heap is the value held there.
  pub get-Holds :
      (heap : TreeHeap T) (t : Tree T) (x : ℕ) (w : T)
      → IsValid P cmp heap t
      → Holds x w t
      → get cmp (record { index = x }) heap ≡ ok w heap
  unfolding get
  get-Holds heap t x w h k =
      rw (get_node-ok heap.pool x _ (Owns-Holds heap.pool none t x w h.owns k).1)

  not_greater_self : (v : T) → P v → is_greater (cmp v v) ≡ false
  not_greater_self v p = elim (Bool-cases (is_less (cmp v v))) [
    | inl e ↦ not_greater_of_less (cmp v v) e
    | inr e ↦ c.flip v v p p e
  ]

  pub IsOrdered-Holds : (t : Tree T) (y : ℕ) (v : T) → IsOrdered P cmp t → Holds y v t → P v
  IsOrdered-Holds leaf y v o h = absurd h
  IsOrdered-Holds (node l i w r) y v o (inl e) = rw (e.1) (o.0)
  IsOrdered-Holds (node l i w r) y v o (inr (inl h)) = IsOrdered-Holds l y v o.3 h
  IsOrdered-Holds (node l i w r) y v o (inr (inr h)) = IsOrdered-Holds r y v o.4 h

  -- A bound on the root of an ordered tree bounds every value in it.
  pub greatest :
      (t : Tree T) (y : ℕ) (v w : T)
      → P w
      → Below P cmp w t
      → IsOrdered P cmp t
      → Holds y v t
      → is_greater (cmp v w) ≡ false
  greatest leaf y v w pw b o h = absurd h
  greatest (node l i u r) y v w pw b o (inl e) = rw (e.1) b
  greatest (node l i u r) y v w pw b o (inr (inl h)) =
      c.trans v u w (IsOrdered-Holds l y v o.3 h) o.0 pw (greatest l y v u o.0 o.1 o.3 h) b
  greatest (node l i u r) y v w pw b o (inr (inr h)) =
      c.trans v u w (IsOrdered-Holds r y v o.4 h) o.0 pw (greatest r y v u o.0 o.2 o.4 h) b

  -- Nothing in an empty heap; else a handle whose value no other value exceeds.
  unfoldable pub Peeked : Tree T → Option HeapHandle → Type 0
  Peeked t none = (y : ℕ) (v : T) → ¬ (Holds y v t)
  Peeked t (some h) =
      (w : T) × Holds h.index w t × ((y : ℕ) (v : T) → Holds y v t → is_greater (cmp v w) ≡ false)

  peek_at :
      (heap : TreeHeap T) (t : Tree T)
      → IsValid P cmp heap t
      → Peeked t (elim (root_of t) [ none ↦ none | some i ↦ some (record { index = i }) ])
  unfolding Peeked
  peek_at heap leaf h = λ y v k. k
  peek_at heap (node l i w r) h = (
    w,
    inl (refl, refl),
    λ y v k. greatest (node l i w r) y v w h.ordered.0 (not_greater_self w h.ordered.0) h.ordered k,
  )

  -- `peek` returns a handle of a greatest value, and none only of an empty heap.
  pub peek-Peeked : (heap : TreeHeap T) (t : Tree T) → IsValid P cmp heap t → Peeked t (peek heap)
  unfolding peek
  peek-Peeked heap t h = rw (h.root, peek) (peek_at heap t h)
