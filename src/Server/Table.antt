-- ===== src/Server/Table.antt =====
-- A HashMap of src/server (session.rs, server.rs) as an association list, with the keys' equality as a
-- Boolean test.
use mathlib.Core.Path.{subst}
use cixrs.Base.{
  ◌≡◌, refl, inl, inr, ◌↔◌, Bool, true, false, Option, none, some, List, [], ◌∷◌, Bool-cases,
  if◌then◌else◌,
}

abbrev pub Table : Type 0 → Type 0 → Type 0
Table K V = List (K × V)

abbrev pub IsSame : {K : Type 0} → (K → K → Bool) → Type 0
IsSame {K} same = (a b : K) → (same a b ≡ true) ↔ (a ≡ b)

module _ {K V : Type 0} (same : K → K → Bool) where
  unfoldable pub find : K → Table K V → Option V
  find k [] = none
  find k (e ∷ es) = if same k e.0 then some e.1 else find k es

  unfoldable pub remove : K → Table K V → Table K V
  remove k [] = []
  remove k (e ∷ es) = if same k e.0 then remove k es else e ∷ remove k es

  unfoldable pub insert : K → V → Table K V → Table K V
  unfolding remove
  insert k v t = (k, v) ∷ remove k t

  module _ (s : IsSame same) where
    pub find-remove : (k : K) (t : Table K V) → find k (remove k t) ≡ none
    unfolding find remove
    find-remove k [] = refl
    find-remove k (e ∷ es) = elim (Bool-cases (same k e.0)) [
      | inl h ↦ rw h (find-remove k es)
      | inr h ↦ rw (h, find, h) (find-remove k es)
    ]

    pub find-remove_other :
        (j k : K) (t : Table K V) → same j k ≡ false → find j (remove k t) ≡ find j t
    unfolding find remove
    find-remove_other j k [] h = refl
    find-remove_other j k (e ∷ es) h = elim (Bool-cases (same k e.0)) [
      | inl q ↦
          (let r : same j e.0 ≡ false = subst (λ z. same j z ≡ false) ((s k e.0).0 q) h in
            rw (q, r) (find-remove_other j k es h))
      | inr q ↦ elim (Bool-cases (same j e.0)) [
        | inl r ↦ rw (q, find, r) refl
        | inr r ↦ rw (q, find, r) (find-remove_other j k es h)
      ]
    ]

    pub find-insert : (k : K) (v : V) (t : Table K V) → find k (insert k v t) ≡ some v
    unfolding find insert
    find-insert k v t = (let r : same k k ≡ true = (s k k).1 refl in rw r refl)

    pub find-insert_other :
        (j k : K) (v : V) (t : Table K V) → same j k ≡ false → find j (insert k v t) ≡ find j t
    unfolding find insert
    find-insert_other j k v t h = rw h (find-remove_other j k t h)
