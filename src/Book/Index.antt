-- ===== src/Book/Index.antt =====
-- The map of a BookSide from order ids to handles (src/libcix/book.rs), and its agreement with the
-- heap.
use mathlib.Core.Path.{subst}
use cixrs.Base.{
  ◌==◌, ℕ, ◌≡◌, refl, sym, ap, ◌∙◌, ◌⊎◌, inl, inr, ◌↔◌, ◌≢◌, true, Option, none, some, [], ◌∷◌,
  Ordering, arith, if◌then◌else◌, ==_iff, Bool-cases, true≢false,
}
use cixrs.Heap.{HeapHandle, TreeHeap}
use cixrs.Heap.Tree.{Tree}
use cixrs.Heap.Contents.{Holds}
use cixrs.Heap.Order.{IsComparer}
use cixrs.Heap.Views.{get-Holds}
use cixrs.Heap.Valid.{IsValid}
use cixrs.TradeTypes.OrderId.{OrderId, OrderSide}
use cixrs.TradeTypes.Orders.{Order, id_eq}
use cixrs.Book.{Lookup, lookup_get, lookup_remove, lookup_insert, BookSide, compare_orders}
use cixrs.Book.Priority.{HasPrice}

pub id_eq_iff : (a b : OrderId) → (id_eq a b ≡ true) ↔ (a ≡ b)
id_eq_iff a b = (
  λ h. ap (λ (n : ℕ). record { id = record { val = n } }) ((==_iff a.id.val b.id.val).0 h),
  λ e. (==_iff a.id.val b.id.val).1 (ap (λ (o : OrderId). o.id.val) e),
)

pub id_eq_self : (a : OrderId) → id_eq a a ≡ true
id_eq_self a = (id_eq_iff a a).1 refl

pub get-lookup_remove :
    (id gone : OrderId) (es : Lookup)
    → lookup_get id (lookup_remove gone es) ≡ (if id_eq id gone then none else lookup_get id es)
unfolding lookup_get lookup_remove
get-lookup_remove id gone [] = elim (Bool-cases (id_eq id gone)) [
  | inl h ↦ rw h refl
  | inr h ↦ rw h refl
]
get-lookup_remove id gone (e ∷ es) = ground (arith, get-lookup_remove id gone es)

pub get-lookup_insert :
    (id new : OrderId) (h : HeapHandle) (es : Lookup)
    → lookup_get id (lookup_insert new h es) ≡ (if id_eq id new then some h else lookup_get id es)
unfolding lookup_get lookup_insert
get-lookup_insert id new h es = elim (Bool-cases (id_eq id new)) [
  | inl e ↦ rw e refl
  | inr e ↦ rw (e, get-lookup_remove id new es, e) refl
]

module _ {Time : Type 0} (time_cmp : Time → Time → Ordering) where
  -- The side's heap is valid, and its map leads from an id to a handle exactly if the heap holds an
  -- order of this id there.
  pub record IsSide (side : OrderSide) (s : BookSide Time) (t : Tree (Order Time)) : Type 0 where
    pub valid : IsValid HasPrice (compare_orders time_cmp side) s.orders t
    pub indexed :
        (id : OrderId) (x : ℕ)
        → lookup_get id s.lookup ≡ some (record { index = x })
          ↔ ((o : Order Time) × Holds x o t × (o.id ≡ id))

module _ {Time : Type 0} (time_cmp : Time → Time → Ordering) (side : OrderSide)
    (c : IsComparer HasPrice (compare_orders time_cmp side)) where
  pub Holds-unique :
      (heap : TreeHeap (Order Time)) (t : Tree (Order Time)) (x : ℕ) (v w : Order Time)
      → IsValid HasPrice (compare_orders time_cmp side) heap t
      → Holds x v t
      → Holds x w t
      → v ≡ w
  Holds-unique heap t x v w h j k =
      let e = get-Holds c heap t x v h j in let f = get-Holds c heap t x w h k in cc

  -- The map after a new order came to the handle `i`.
  pub indexed-insert :
      (s : BookSide Time) (t u : Tree (Order Time)) (i : ℕ) (new : Order Time)
      → IsSide time_cmp side s t
      → lookup_get new.id s.lookup ≡ none
      → ((x : ℕ) (w : Order Time) → Holds x w u ↔ (((x ≡ i) × (w ≡ new)) ⊎ Holds x w t))
      → (id : OrderId) (x : ℕ)
      → lookup_get id (lookup_insert new.id (record { index = i }) s.lookup)
          ≡ some (record { index = x })
        ↔ ((o : Order Time) × Holds x o u × (o.id ≡ id))
  indexed-insert s t u i new h fresh holds id x = elim (Bool-cases (id_eq id new.id)) [
    | inl e ↦
        (let same = (id_eq_iff id new.id).0 e in
          rw (get-lookup_insert id new.id (record { index = i }) s.lookup, e)
            (
              (λ k. (new, (holds x new).1 (inl (sym (index_of i x k), refl)), sym same)),
              (λ (o, k, q). elim ((holds x o).0 k) [
                | inl (d, _) ↦ ap (λ (n : ℕ). some (record { index = n })) (sym d)
                | inr k' ↦ absurd (taken id x o k' q same)
              ]),
            ))
    | inr e ↦
        rw (get-lookup_insert id new.id (record { index = i }) s.lookup, e)
          (
            (λ k. (let (o, j, q) = (h.indexed id x).0 k in (o, (holds x o).1 (inr j), q))),
            (λ (o, k, q). elim ((holds x o).0 k) [
              | inl (_, d) ↦ absurd (
                  true≢false
                    (sym ((id_eq_iff id new.id).1 (sym q ∙ ap (λ (z : Order Time). z.id) d)) ∙ e))
              | inr j ↦ (h.indexed id x).1 (o, j, q)
            ]),
          )
  ]
    where
      index_of :
          (a b : ℕ)
          → ◌≡◌ {A = Option HeapHandle} (some (record { index = a })) (some (record { index = b }))
          → a ≡ b
      index_of a b k = cc

      taken : (id : OrderId) (x : ℕ) (o : Order Time) → Holds x o t → o.id ≡ id → id ≡ new.id → ⊥
      taken id x o k q same = let e = (h.indexed id x).1 (o, k, q) in cc

  -- The map after an order left its handle.
  pub indexed-remove :
      (s : BookSide Time) (t u : Tree (Order Time)) (gone : OrderId) (y : ℕ) (v : Order Time)
      → IsSide time_cmp side s t
      → Holds y v t
      → v.id ≡ gone
      → ((x : ℕ) (w : Order Time) → Holds x w u ↔ (Holds x w t × (x ≢ y)))
      → (id : OrderId) (x : ℕ)
      → lookup_get id (lookup_remove gone s.lookup) ≡ some (record { index = x })
        ↔ ((o : Order Time) × Holds x o u × (o.id ≡ id))
  indexed-remove s t u gone y v h at_y is_gone holds id x = elim (Bool-cases (id_eq id gone)) [
    | inl e ↦
        (let same = (id_eq_iff id gone).0 e in
          rw (get-lookup_remove id gone s.lookup, e)
            (
              (λ k. absurd (none_some k)),
              (λ (o, k, q).
                  (let (j, ne) = (holds x o).0 k in absurd (ne (one_handle id x o j q same)))),
            ))
    | inr e ↦
        rw (get-lookup_remove id gone s.lookup, e)
          (
            (λ k.
                (let (o, j, q) = (h.indexed id x).0 k in
                  (o, (holds x o).1 (j, λ d. true≢false (sym (other o j q d) ∙ e)), q))),
            (λ (o, k, q). (h.indexed id x).1 (o, ((holds x o).0 k).0, q)),
          )
  ]
    where
      none_some : {a : HeapHandle} → ◌≡◌ {A = Option HeapHandle} none (some a) → ⊥
      none_some k = cc

      one_handle :
          (id : OrderId) (x : ℕ) (o : Order Time) → Holds x o t → o.id ≡ id → id ≡ gone → x ≡ y
      one_handle id x o j q same =
          let e = (h.indexed id x).1 (o, j, q) in
          let f = (h.indexed gone y).1 (v, at_y, is_gone) in cc

      other : (o : Order Time) → Holds x o t → o.id ≡ id → x ≡ y → id_eq id gone ≡ true
      other o j q d = (id_eq_iff id gone).1 (
          sym q
          ∙ ap (λ (z : Order Time). z.id)
              (Holds-unique s.orders t y o v h.valid (subst (λ z. Holds z o t) d j) at_y)
          ∙ is_gone)

module _ {Time : Type 0} (time_cmp : Time → Time → Ordering) (side : OrderSide)
    (c : IsComparer HasPrice (compare_orders time_cmp side)) where
  -- The map after an order changed under its handle and kept its id.
  pub indexed-update :
      (s : BookSide Time) (t u : Tree (Order Time)) (y : ℕ) (v v' : Order Time)
      → IsSide time_cmp side s t
      → Holds y v t
      → v'.id ≡ v.id
      → ((x : ℕ) (w : Order Time) → Holds x w u ↔ (((x ≡ y) × (w ≡ v')) ⊎ (Holds x w t × (x ≢ y))))
      → (id : OrderId) (x : ℕ)
      → lookup_get id s.lookup ≡ some (record { index = x })
        ↔ ((o : Order Time) × Holds x o u × (o.id ≡ id))
  indexed-update s t u y v v' h at_y same holds id x = (
    (λ k.
        (let (o, j, q) = (h.indexed id x).0 k in
          elim (Bool-cases (x == y)) [
            | inl e ↦
                (let d = (==_iff x y).0 e in
                  let w =
                    Holds-unique time_cmp side c s.orders t y o v h.valid
                      (subst (λ z. Holds z o t) d j) at_y in
                  (
                    v',
                    (holds x v').1 (inl (d, refl)),
                    same ∙ ap (λ (z : Order Time). z.id) (sym w) ∙ q,
                  ))
            | inr e ↦ (o, (holds x o).1 (inr (j, λ d. true≢false (sym ((==_iff x y).1 d) ∙ e))), q)
          ])),
    (λ (o, k, q). elim ((holds x o).0 k) [
      | inl (d, w) ↦ (h.indexed id x).1 (
        v,
        subst (λ z. Holds z v t) (sym d) at_y,
        sym same ∙ ap (λ (z : Order Time). z.id) (sym w) ∙ q,
      )
      | inr (j, ne) ↦ (h.indexed id x).1 (o, j, q)
    ]),
  )

-- The order rests in the tree, under some handle.
abbrev pub Resting : {Time : Type 0} → Order Time → Tree (Order Time) → Type 0
Resting o t = (x : ℕ) × Holds x o t
