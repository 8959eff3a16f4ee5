-- ===== src/Heap.antt =====
-- src/libcix/heap.rs: the tree heap over a pool of nodes.
-- A HeapPtr is an i32 of which the code only ever stores -1 (no node) and pool indices: here `none`
-- and `some i`. The pool is the vector as a function from indices, `none` past its end.
mod Tests
pub mod Tree
pub mod Owns
pub mod PullUp
pub mod Insert
pub mod Graft
pub mod Path
pub mod Remove
pub mod Contents
pub mod Order
pub mod Attach
pub mod Valid
pub mod Laws
pub mod Views
pub mod Validate
pub mod Iterator
use cixrs.Base.{
  ℕ, zero, suc, ◌+◌, ◌-◌, ◌≡◌, Bool, true, false, not, ◌&&◌, ◌||◌, Option, none, some, List, [],
  ◌∷◌, Ordering, ltb, leb, ◌==◌, if◌then◌else◌,
}
use Tree.{is_greater, is_less}
use cixrs.Run.{
  Cmd, Run, ok, panic, out_of_fuel, pure, get_state, put_state, panics, assert, ◌>>=◌, ◌>>◌, within,
}

abbrev pub HeapPtr : Type 0
HeapPtr = Option ℕ

abbrev pub is_null : HeapPtr → Bool
is_null none = true
is_null (some i) = false

abbrev pub ptr_eq : HeapPtr → HeapPtr → Bool
ptr_eq none none = true
ptr_eq none (some j) = false
ptr_eq (some i) none = false
ptr_eq (some i) (some j) = i == j

pub record HeapNodeMd : Type 0 where
  pub parent : HeapPtr
  pub left_child : HeapPtr
  pub right_child : HeapPtr
  pub size : ℕ

-- HeapNodeMd::default, which HeapNodeMd::new and HeapNodeMd::reset also produce
abbrev pub default_md : HeapNodeMd
default_md = record { parent = none; left_child = none; right_child = none; size = 1 }

pub record HeapNode (T : Type 0) : Type 0 where
  pub value : T
  pub md : HeapNodeMd

abbrev pub Pool : Type 0 → Type 0
Pool T = ℕ → Option (HeapNode T)

-- The head of `free_list` is the end of the vector, where it is pushed and popped.
pub record TreeHeap (T : Type 0) : Type 0 where
  pub root : HeapPtr
  pub pool : Pool T
  pub pool_len : ℕ
  pub free_list : List ℕ

pub record HeapHandle : Type 0 where
  pub index : ℕ

-- HeapNode::reset
abbrev pub reset_node : {T : Type 0} → HeapNode T → HeapNode T
reset_node n = record n { md = default_md }

abbrev pub write : {T : Type 0} → Pool T → ℕ → HeapNode T → Pool T
write pool i n j = if j == i then some n else pool j

-- lo, lo + 1, …, with `n` entries
abbrev pub range_from : ℕ → ℕ → List ℕ
range_from lo zero = []
range_from lo (suc n) = lo ∷ range_from (suc lo) n

module _ {T : Type 0} where
  -- TreeHeap::new, of nodes that hold the default value
  unfoldable pub new : T → ℕ → TreeHeap T
  new d capacity = record {
    root = none;
    pool = λ i. if ltb i capacity then some (record { value = d; md = default_md }) else none;
    pool_len = capacity;
    free_list = range_from 0 capacity;
  }

  unfoldable pub is_empty : TreeHeap T → Bool
  is_empty heap = is_null heap.root

  unfoldable pub capacity : TreeHeap T → ℕ
  capacity heap = heap.pool_len

  unfoldable pub peek : TreeHeap T → Option HeapHandle
  peek heap = elim heap.root [ none ↦ none | some i ↦ some (record { index = i }) ]

  -- get_node, and get and get_node_md through its fields: the assertion on the bounds, then a read
  unfoldable pub get_node : HeapPtr → Cmd (Pool T) (HeapNode T)
  get_node none = panics
  get_node (some i) = λ pool. elim (pool i) [ none ↦ panic | some n ↦ ok n pool ]

  unfoldable pub get_node_md : HeapPtr → Cmd (Pool T) HeapNodeMd
  unfolding get_node
  get_node_md p = do n ← get_node p; pure n.md

  -- what is done through the reference that get_node_mut returns
  unfoldable pub modify_node : (HeapNode T → HeapNode T) → HeapPtr → Cmd (Pool T) (Unit {0})
  modify_node f none = panics
  modify_node f (some i) =
      λ pool. elim (pool i) [ none ↦ panic | some n ↦ ok tt (write pool i (f n)) ]

  -- set_node_md, and get_node_md_mut followed by assignments
  unfoldable pub modify_md : (HeapNodeMd → HeapNodeMd) → HeapPtr → Cmd (Pool T) (Unit {0})
  unfolding modify_node
  modify_md f = modify_node λ n. record n { md = f n.md }

  unfoldable pub set_node_md : HeapPtr → HeapNodeMd → Cmd (Pool T) (Unit {0})
  unfolding modify_md
  set_node_md p md = modify_md (λ _. md) p

  abbrev set_parent : HeapPtr → HeapPtr → Cmd (Pool T) (Unit {0})
  set_parent q = modify_md λ md. record md { parent = q }

  -- the size of a child, 0 if there is none
  unfoldable pub child_size : HeapPtr → Cmd (Pool T) ℕ
  unfolding get_node_md
  child_size none = pure 0
  child_size (some i) = do md ← get_node_md (some i); pure md.size

  unfoldable pub update_size : HeapPtr → Cmd (Pool T) (Unit {0})
  unfolding get_node_md child_size set_node_md
  update_size p = do
    node ← get_node_md p
    a ← child_size node.left_child
    b ← child_size node.right_child
    set_node_md p (record node { size = 1 + a + b })

  -- The walk to the root; the size is a u32, and the subtraction panics below 0.
  unfoldable pub decrement_size : ℕ → HeapPtr → Cmd (Pool T) (Unit {0})
  unfolding get_node_md modify_md
  decrement_size zero p = λ _. out_of_fuel
  decrement_size (suc k) none = pure tt
  decrement_size (suc k) (some i) = do
    md ← get_node_md (some i)
    assert (ltb 0 md.size)
    modify_md (λ m. record m { size = m.size - 1 }) (some i)
    decrement_size k md.parent

abbrev pub listed : ℕ → List ℕ → Bool
listed x [] = false
listed x (y ∷ ys) = (x == y) || listed x ys

-- `TCmp::compare` is the parameter `cmp`.
module _ {T : Type 0} (cmp : T → T → Ordering) where
  unfoldable pub pull_up : ℕ → HeapPtr → HeapPtr → Cmd (Pool T) HeapPtr
  unfolding get_node get_node_md modify_md set_node_md update_size
  pull_up zero left right = λ _. out_of_fuel
  pull_up (suc k) left right = do
    assert (not (ptr_eq left right) || (is_null left && is_null right))
    if is_null left
        then pure right
        else (if is_null right then pure left else (do
          left_node ← get_node left
          right_node ← get_node right
          if is_greater (cmp left_node.value right_node.value)
              then (do
                left_md ← get_node_md left
                pulled ← pull_up k left_md.left_child left_md.right_child
                set_node_md left (record left_md { left_child = pulled; right_child = right })
                update_size left
                set_parent left right
                pure left)
              else (do
                right_md ← get_node_md right
                pulled ← pull_up k right_md.left_child right_md.right_child
                set_node_md right (record right_md { right_child = pulled; left_child = left })
                update_size right
                set_parent right left
                pure right)))

  -- the descending node becomes a leaf below `parent`
  abbrev make_leaf : HeapPtr → HeapPtr → Cmd (Pool T) (Unit {0})
  make_leaf parent =
      modify_md λ md. record { parent = parent; left_child = none; right_child = none; size = 1 }

  -- a missing left child: the descending node takes its place
  unfoldable pub insert_left : HeapPtr → HeapPtr → HeapNodeMd → Cmd (Pool T) HeapPtr
  unfolding modify_md
  insert_left parent_index descend_index head_node = do
    if is_null head_node.right_child then pure tt else set_parent parent_index head_node.right_child
    modify_md (λ md. record md { right_child = head_node.right_child; left_child = descend_index })
        parent_index
    make_leaf parent_index descend_index
    pure parent_index

  -- a missing right child
  unfoldable pub insert_right : HeapPtr → HeapPtr → HeapNodeMd → Cmd (Pool T) HeapPtr
  unfolding modify_md
  insert_right parent_index descend_index head_node = do
    set_parent parent_index head_node.left_child
    modify_md (λ md. record md { left_child = head_node.left_child; right_child = descend_index })
        parent_index
    make_leaf parent_index descend_index
    pure parent_index

  -- two children: `again` is the recursive call, on the smaller side
  unfoldable pub insert_below :
      (HeapPtr → HeapPtr → Cmd (Pool T) HeapPtr)
      → HeapPtr
      → HeapPtr
      → HeapNodeMd
      → Cmd (Pool T) HeapPtr
  unfolding get_node_md modify_md set_node_md
  insert_below again parent_index descend_index head_node = do
    left ← get_node_md head_node.left_child
    right ← get_node_md head_node.right_child
    let go_left = leb left.size right.size
    let child_index : HeapPtr = if go_left then head_node.left_child else head_node.right_child
    new_child ← again child_index descend_index
    parent_node ← get_node_md parent_index
    let left' : HeapPtr = if go_left then new_child else head_node.left_child
    let right' : HeapPtr = if go_left then head_node.right_child else new_child
    set_parent parent_index left'
    set_parent parent_index right'
    set_node_md parent_index
        (record parent_node { left_child = left'; right_child = right'; parent = head_node.parent })
    pure parent_index

  unfoldable pub insert_node : ℕ → HeapPtr → HeapPtr → Cmd (Pool T) HeapPtr
  unfolding get_node get_node_md modify_md insert_left insert_right insert_below
  insert_node zero head new = λ _. out_of_fuel
  insert_node (suc k) head new = do
    assert (not (is_null head) && not (is_null new))
    head_value ← get_node head
    new_value ← get_node new
    let less = is_less (cmp head_value.value new_value.value)
    let parent_index : HeapPtr = if less then new else head
    let descend_index : HeapPtr = if less then head else new
    head_node ← get_node_md head
    modify_md (λ md. record md { size = head_node.size + 1 }) parent_index
    if is_null head_node.left_child
        then insert_left parent_index descend_index head_node
        else (if is_null head_node.right_child
            then insert_right parent_index descend_index head_node
            else insert_below (insert_node k) parent_index descend_index head_node)

  -- `insert_node` and `pull_up` go down a tree of at most all the pool's nodes.
  abbrev fuel_of : TreeHeap T → ℕ
  fuel_of heap = heap.pool_len + 1

  abbrev on_pool : {A : Type 0} → Cmd (Pool T) A → Cmd (TreeHeap T) A
  on_pool = within (λ heap. heap.pool) (λ heap pool. record heap { pool = pool })

  abbrev set_root : HeapPtr → Cmd (TreeHeap T) (Unit {0})
  set_root p heap = ok tt (record heap { root = p })

  unfoldable pub pop : Cmd (TreeHeap T) T
  unfolding get_node get_node_md pull_up
  pop = do
    heap ← get_state
    assert (not (is_null heap.root))
    head ← on_pool (get_node_md heap.root)
    top ← on_pool (pull_up (fuel_of heap) head.left_child head.right_child)
    set_root top
    n ← on_pool (get_node heap.root)
    pure n.value

  unfoldable pub insert_impl : ℕ → Cmd (TreeHeap T) (Unit {0})
  unfolding insert_node
  insert_impl index = do
    heap ← get_state
    if is_null heap.root
        then set_root (some index)
        else (do top ← on_pool (insert_node (fuel_of heap) heap.root (some index)); set_root top)

  -- The slot at the end of the free list; `none` is the error "heap full".
  unfoldable pub insert_at : List ℕ → T → Cmd (TreeHeap T) (Option HeapHandle)
  unfolding insert_impl modify_node
  insert_at [] val = pure none
  insert_at (index ∷ rest) val = do
    heap ← get_state
    put_state (record heap { free_list = rest })
    on_pool (modify_node (λ n. record (reset_node n) { value = val }) (some index))
    insert_impl index
    pure (some (record { index = index }))

  unfoldable pub insert : T → Cmd (TreeHeap T) (Option HeapHandle)
  unfolding insert_at
  insert val heap = insert_at heap.free_list val heap

  -- the child of the removed node's parent that is to be replaced
  unfoldable pub replace_child : ℕ → HeapPtr → HeapPtr → Cmd (Pool T) (Unit {0})
  unfolding get_node_md modify_md
  replace_child index replacement p = do
    parent ← get_node_md p
    if ptr_eq parent.left_child (some index)
        then modify_md (λ md. record md { left_child = replacement }) p
        else (assert (ptr_eq parent.right_child (some index))
            >> modify_md (λ md. record md { right_child = replacement }) p)

  unfoldable pub remove_impl : HeapHandle → Cmd (TreeHeap T) (Unit {0})
  unfolding get_node_md pull_up modify_md replace_child decrement_size
  remove_impl h = do
    heap ← get_state
    node ← on_pool (get_node_md (some h.index))
    replacement ← on_pool (pull_up (fuel_of heap) node.left_child node.right_child)
    if is_null node.parent
        then (do
          set_root replacement
          if is_null replacement then pure tt else on_pool (set_parent none replacement))
        else (do
          on_pool (replace_child h.index replacement node.parent)
          if is_null replacement then pure tt else on_pool (set_parent node.parent replacement)
          on_pool (decrement_size (fuel_of heap) node.parent))

  unfoldable pub remove : HeapHandle → Cmd (TreeHeap T) (Unit {0})
  unfolding remove_impl
  remove h = do
    remove_impl h
    heap ← get_state
    put_state (record heap { free_list = h.index ∷ heap.free_list })

  unfoldable pub update : (T → T) → HeapHandle → Cmd (TreeHeap T) (Unit {0})
  unfolding modify_node remove_impl insert_impl
  update f h = do
    on_pool (modify_node (λ n. record n { value = f n.value }) (some h.index))
    remove_impl h
    on_pool (modify_node reset_node (some h.index))
    insert_impl h.index

  unfoldable pub get : HeapHandle → Cmd (TreeHeap T) T
  unfolding get_node
  get h = do n ← on_pool (get_node (some h.index)); pure n.value

  -- the checks of validate_node on one child of node `i`; the child's size, 0 if there is none
  unfoldable pub check_child : ℕ → T → HeapPtr → Cmd (Pool T) ℕ
  unfolding get_node
  check_child i value none = pure 0
  check_child i value (some j) = do
    child ← get_node (some j)
    assert (not (is_greater (cmp child.value value)))
    assert (ptr_eq child.md.parent (some i))
    pure child.md.size

  -- The set of visited nodes is passed on.
  unfoldable pub validate_node : ℕ → HeapPtr → List ℕ → Cmd (Pool T) (List ℕ)
  unfolding check_child get_node
  validate_node zero p visited = λ _. out_of_fuel
  validate_node (suc k) none visited = pure visited
  validate_node (suc k) (some i) visited = do
    assert (not (listed i visited))
    node ← get_node (some i)
    left_size ← check_child i node.value node.md.left_child
    right_size ← check_child i node.value node.md.right_child
    assert (node.md.size == left_size + right_size + 1)
    seen ← validate_node k node.md.left_child (i ∷ visited)
    validate_node k node.md.right_child seen

  unfoldable pub validate : Cmd (TreeHeap T) (Unit {0})
  unfolding validate_node
  validate = do heap ← get_state; on_pool (validate_node (fuel_of heap) heap.root []); pure tt
