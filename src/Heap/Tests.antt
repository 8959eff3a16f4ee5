-- ===== src/Heap/Tests.antt =====
-- Runs of src/libcix/heap.rs on small inputs.
use cixrs.Base.{ℕ, zero, suc, ◌≡◌, refl, Option, none, some, compare, ◌*◌, arith, [], ◌∷◌, inl, inr}
use cixrs.Run.{Cmd, Run, ok, pure, ◌>>=◌, ◌>>◌, Returns}
use cixrs.Heap.{TreeHeap, Pool, default_md, new, insert, pop, remove, update, get, peek, validate}
use cixrs.Heap.Tree.{Tree, leaf, node}
use cixrs.Heap.Order.{IsComparer}
use cixrs.Heap.Valid.{IsValid, Inserted}
use cixrs.Heap.Laws.{insert-Inserted, Removed, remove-Removed, Updated, update-Updated}
use cixrs.Heap.Views.{get-Holds, Peeked, peek-Peeked, new-IsValid}
use cixrs.Heap.Validate.{validate-ok}

five : Cmd (TreeHeap ℕ) (ℕ × ℕ × ℕ)
unfolding insert remove update pop
five = do
  insert compare 5
  insert compare 1
  insert compare 10
  insert compare 7
  insert compare 3
  update compare (λ v. v * 30) (record { index = 1 })
  remove compare (record { index = 2 })
  a ← pop compare
  b ← pop compare
  c ← pop compare
  pure (a, b, c)

result : Run (TreeHeap ℕ) (ℕ × ℕ × ℕ) → Option (ℕ × ℕ × ℕ)
result (ok a s) = some a
result _ = none

five_pops : result (five (new 0 8)) ≡ some (30, 7, 5)
unfolding five new result
five_pops = refl

-- Any number may be in the heap.
abbrev IsAny : ℕ → Type 0
IsAny n = Unit {0}

nat_comparer : IsComparer IsAny compare
nat_comparer = record { flip = λ a b _ _ h. ground arith; trans = λ a b c _ _ _ h k. ground arith }

-- 7 with the children 5 and 3, at the slots 1, 0 and 2 of four.
abbrev three_pool : Pool ℕ
three_pool zero = some (record {
  value = 5;
  md = record { parent = some 1; left_child = none; right_child = none; size = 1 };
})
three_pool (suc zero) = some (record {
  value = 7;
  md = record { parent = none; left_child = some 0; right_child = some 2; size = 3 };
})
three_pool (suc (suc zero)) = some (record {
  value = 3;
  md = record { parent = some 1; left_child = none; right_child = none; size = 1 };
})
three_pool (suc (suc (suc zero))) = some (record { value = 0; md = default_md })
three_pool (suc (suc (suc (suc i)))) = none

abbrev three_heap : TreeHeap ℕ
three_heap = record { root = some 1; pool = three_pool; pool_len = 4; free_list = 3 ∷ [] }

abbrev three_tree : Tree ℕ
three_tree = node (node leaf 0 5 leaf) 1 7 (node leaf 2 3 leaf)

three-IsValid : IsValid IsAny compare three_heap three_tree
three-IsValid = record {
  root = refl;
  owns = (refl, (refl, tt, tt), (refl, tt, tt));
  distinct = (
    refl,
    refl,
    (λ x h. ground (arith, h)),
    (refl, refl, (λ x h. refl), tt, tt),
    (refl, refl, (λ x h. refl), tt, tt),
  );
  ordered = (tt, refl, refl, (tt, tt, tt, tt, tt), (tt, tt, tt, tt, tt));
  free = (refl, (_, refl), refl, tt);
  room = omega arith;
}

remove-Removed_example :
    Returns
      (λ _. Removed nat_comparer three_heap three_tree 1)
      (remove compare (record { index = 1 }) three_heap)
remove-Removed_example = remove-Removed nat_comparer three_heap three_tree 1 three-IsValid refl

insert-Inserted_example :
    Returns (Inserted nat_comparer three_tree 3 9) (insert compare 9 three_heap)
insert-Inserted_example =
    insert-Inserted nat_comparer three_heap three_tree 3 [] 9 three-IsValid refl tt

update-Updated_example :
    Returns
      (λ _. Updated nat_comparer three_heap three_tree 0 15)
      (update compare (λ v. v * 3) (record { index = 0 }) three_heap)
update-Updated_example =
    update-Updated nat_comparer three_heap three_tree 0 5 (λ v. v * 3) three-IsValid
      (inr (inl (inl (refl, refl)))) tt

peek-Peeked_example : Peeked nat_comparer three_tree (peek three_heap)
peek-Peeked_example = peek-Peeked nat_comparer three_heap three_tree three-IsValid

get-Holds_example : get compare (record { index = 2 }) three_heap ≡ ok 3 three_heap
get-Holds_example =
    get-Holds nat_comparer three_heap three_tree 2 3 three-IsValid (inr (inr (inl (refl, refl))))

new-IsValid_example : IsValid IsAny compare (new 0 4) leaf
new-IsValid_example = new-IsValid nat_comparer 0 4

validate-ok_example : validate compare three_heap ≡ ok tt three_heap
validate-ok_example = validate-ok IsAny compare three_heap three_tree three-IsValid
