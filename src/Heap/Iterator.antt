-- ===== src/Heap/Iterator.antt =====
-- HeapIterator of src/libcix/heap.rs: the nodes of a heap, greatest first, through a second heap of
-- candidates. The iterator reads the first heap and never changes it.
use cixrs.Base.{ℕ, Option, none, some, List, [], ◌∷◌, Ordering, if◌then◌else◌, zero, suc}
use cixrs.Run.{Cmd, Run, out_of_fuel, pure, get_state, ◌>>=◌, ◌>>◌, within}
use cixrs.Heap.{
  HeapPtr, HeapNodeMd, default_md, TreeHeap, Pool, HeapHandle, new, is_empty, capacity, peek,
  get_node, insert, pop,
}

pub record HeapIteratorNode (T : Type 0) : Type 0 where
  pub value : T
  pub md : HeapNodeMd

pub record HeapIterator (T : Type 0) : Type 0 where
  pub heap : TreeHeap T
  pub candidates : TreeHeap (HeapIteratorNode T)

module _ {T : Type 0} (cmp : T → T → Ordering) where
  -- HeapIteratorComparator::compare
  unfoldable pub compare_nodes : HeapIteratorNode T → HeapIteratorNode T → Ordering
  compare_nodes x y = cmp x.value y.value

  abbrev on_heap : {A : Type 0} → Cmd (Pool T) A → Cmd (HeapIterator T) A
  on_heap = within (λ it. it.heap.pool) (λ it p. record it { heap = record it.heap { pool = p } })

  abbrev on_candidates :
      {A : Type 0} → Cmd (TreeHeap (HeapIteratorNode T)) A → Cmd (HeapIterator T) A
  on_candidates = within (λ it. it.candidates) (λ it c. record it { candidates = c })

  -- the node is read from the heap; the result of the insertion is dropped
  unfoldable pub add_candidate : HeapPtr → Cmd (HeapIterator T) (Unit {0})
  unfolding get_node insert compare_nodes
  add_candidate p = do
    node ← on_heap (get_node p)
    on_candidates (insert compare_nodes (record { value = node.value; md = node.md }))
    pure tt

  -- `if child >= 0`
  unfoldable pub add_child : HeapPtr → Cmd (HeapIterator T) (Unit {0})
  unfolding add_candidate
  add_child none = pure tt
  add_child (some i) = add_candidate (some i)

  unfoldable pub start : Option HeapHandle → Cmd (HeapIterator T) (Unit {0})
  unfolding add_candidate
  start none = pure tt
  start (some h) = add_candidate (some h.index)

  -- HeapIterator::new, with the default value of the candidates' nodes
  unfoldable pub iterate : T → TreeHeap T → Run (HeapIterator T) (Unit {0})
  unfolding new capacity peek start
  iterate d heap = start (peek heap) (record {
    heap = heap;
    candidates = new (record { value = d; md = default_md }) (capacity heap);
  })

  unfoldable pub next : Cmd (HeapIterator T) (Option T)
  unfolding is_empty pop compare_nodes add_child
  next = do
    it ← get_state
    if is_empty it.candidates then pure none else (do
      top ← on_candidates (pop compare_nodes)
      add_child top.md.left_child
      add_child top.md.right_child
      pure (some top.value))

-- The values that an iterator yields until it ends.
module _ {T : Type 0} (cmp : T → T → Ordering) where
  unfoldable pub collect : ℕ → Cmd (HeapIterator T) (List T)
  unfolding next
  collect zero = λ _. out_of_fuel
  collect (suc k) = do
    o ← next cmp
    elim o [ none ↦ pure [] | some x ↦ (do xs ← collect k; pure (x ∷ xs)) ]
