-- ===== src/Heap/Path.antt =====
-- The way from a node up to the root, as decrement_size of src/libcix/heap.rs walks it: a tree as a
-- subtree plugged into the steps above it, nearest first.
use mathlib.Core.Path.{subst}
use cixrs.Base.{
  true≢false, ℕ, zero, suc, ◌+◌, ◌-◌, ◌<◌, ◌≡◌, refl, sym, ap, ◌∙◌, Bool, true, false, ◌||◌, some,
  none, List, [], ◌∷◌, arith, ◌==◌, Bool-cases, ==_iff, inl, inr, length, ltb,
}
use cixrs.Run.{Returns, returns, Returns-mono}
use cixrs.Heap.{HeapPtr, HeapNode, HeapNodeMd, Pool, write, decrement_size}
use cixrs.Heap.Tree.{
  Tree, node, root_of, size_of, has, Distinct, at_root, in_left, in_right, Apart-symm, ne_of_has,
}
use cixrs.Heap.Owns.{Owns, Owns-frame, write-here, write-other, get_node_md-ok, modify_md-ok}

-- `step true i v r`: up to node `i` from its left, with `r` on its right; `step false i v l` mirrors.
pub data Step (T : Type 0) : Type 0 where
  step : Bool → ℕ → T → Tree T → Step T

module _ {T : Type 0} where
  abbrev pub fill : Step T → Tree T → Tree T
  fill (step true i v s) t = node t i v s
  fill (step false i v s) t = node s i v t

  abbrev pub plug : List (Step T) → Tree T → Tree T
  plug [] t = t
  plug (s ∷ c) t = plug c (fill s t)

  abbrev pub above : List (Step T) → HeapPtr
  above [] = none
  above (step b i v s ∷ c) = some i

  abbrev pub step_md : Step T → HeapPtr → HeapPtr → ℕ → HeapNodeMd
  step_md (step true i v s) par p n = record {
    parent = par;
    left_child = p;
    right_child = root_of s;
    size = suc (n + size_of s);
  }
  step_md (step false i v s) par p n = record {
    parent = par;
    left_child = root_of s;
    right_child = p;
    size = suc (size_of s + n);
  }

  -- The pool holds the steps, with a subtree of size `n` at `p` below them.
  abbrev pub OwnsPath : Pool T → HeapPtr → ℕ → List (Step T) → Type 0
  OwnsPath pool p n [] = Unit {0}
  OwnsPath pool p n (step b i v s ∷ c) =
      (pool i ≡ some (record { value = v; md = step_md (step b i v s) (above c) p n }))
      × Owns pool (some i) s
      × OwnsPath pool (some i) (step_md (step b i v s) none p n).size c

  abbrev pub on_path : ℕ → List (Step T) → Bool
  on_path x [] = false
  on_path x (step b i v s ∷ c) = (x == i) || (has x s || on_path x c)

  abbrev pub DistinctPath : List (Step T) → Type 0
  DistinctPath [] = Unit {0}
  DistinctPath (step b i v s ∷ c) =
      (has i s ≡ false)
      × (on_path i c ≡ false)
      × ((x : ℕ) → has x s ≡ true → on_path x c ≡ false)
      × Distinct s
      × DistinctPath c

  abbrev pub OffPath : Tree T → List (Step T) → Type 0
  OffPath t c = (x : ℕ) → has x t ≡ true → on_path x c ≡ false

  pub split :
      (pool : Pool T) (c : List (Step T)) (t : Tree T)
      → Owns pool none (plug c t)
      → Owns pool (above c) t × OwnsPath pool (root_of t) (size_of t) c
  split pool [] t o = (o, tt)
  split pool (step true i v s ∷ c) t o =
      let (u, w) = split pool c (node t i v s) o in (u.1, (u.0, u.2, w))
  split pool (step false i v s ∷ c) t o =
      let (u, w) = split pool c (node s i v t) o in (u.2, (u.0, u.1, w))

  pub unsplit :
      (pool : Pool T) (c : List (Step T)) (t : Tree T)
      → Owns pool (above c) t
      → OwnsPath pool (root_of t) (size_of t) c
      → Owns pool none (plug c t)
  unsplit pool [] t o w = o
  unsplit pool (step true i v s ∷ c) t o w = unsplit pool c (node t i v s) (w.0, o, w.1) w.2
  unsplit pool (step false i v s ∷ c) t o w = unsplit pool c (node s i v t) (w.0, w.1, o) w.2

  pub OwnsPath-frame :
      {pool pool' : Pool T} (p : HeapPtr) (n : ℕ) (c : List (Step T))
      → OwnsPath pool p n c
      → ((x : ℕ) → on_path x c ≡ true → pool' x ≡ pool x)
      → OwnsPath pool' p n c
  OwnsPath-frame p n [] w same = tt
  OwnsPath-frame p n (step b i v s ∷ c) w same = (
    same i (ground arith) ∙ w.0,
    Owns-frame (some i) s w.1 (λ x h. same x (ground arith)),
    OwnsPath-frame (some i) _ c w.2 (λ x h. same x (ground arith)),
  )

  off_cons :
      (x : ℕ) (b : Bool) (i : ℕ) (v : T) (s : Tree T) (c : List (Step T))
      → (x == i) ≡ false
      → has x s ≡ false
      → on_path x c ≡ false
      → on_path x (step b i v s ∷ c) ≡ false
  off_cons x b i v s c h k m = ground arith

  pub off-parts :
      (x : ℕ) (b : Bool) (i : ℕ) (v : T) (s : Tree T) (c : List (Step T))
      → on_path x (step b i v s ∷ c) ≡ false
      → ((x == i) ≡ false) × (has x s ≡ false) × (on_path x c ≡ false)
  off-parts x b i v s c h = ground arith

  -- The subtree and the step above it, as one subtree, are off the rest of the path.
  OffPath-fill :
      (b : Bool) (i : ℕ) (v : T) (s : Tree T) (c : List (Step T)) (t : Tree T)
      → on_path i c ≡ false
      → OffPath s c
      → OffPath t (step b i v s ∷ c)
      → OffPath (fill (step b i v s) t) c
  OffPath-fill true i v s c t h os off x m = ground (arith, os x, off x)
  OffPath-fill false i v s c t h os off x m = ground (arith, os x, off x)

  not-mem_of_OffPath :
      (b : Bool) (i : ℕ) (v : T) (s : Tree T) (c : List (Step T)) (t : Tree T)
      → OffPath t (step b i v s ∷ c)
      → has i t ≡ false
  not-mem_of_OffPath b i v s c t off = ground (arith, off i)

  pub unplug-Distinct :
      (c : List (Step T)) (t : Tree T)
      → Distinct (plug c t)
      → Distinct t × DistinctPath c × OffPath t c
  unplug-Distinct [] t d = (d, tt, λ x h. refl)
  unplug-Distinct (step true i v s ∷ c) t d =
      let (u, w, off) = unplug-Distinct c (node t i v s) d in
      (
        u.3,
        (u.1, off i (at_root t i v s), (λ x h. off x (in_right x t i v s h)), u.4, w),
        λ x h.
            off_cons x true i v s c (ne_of_has x i t h u.0) (u.2 x h) (off x (in_left x t i v s h)),
      )
  unplug-Distinct (step false i v s ∷ c) t d =
      let (u, w, off) = unplug-Distinct c (node s i v t) d in
      (
        u.4,
        (u.0, off i (at_root s i v t), (λ x h. off x (in_left x s i v t h)), u.3, w),
        λ x h.
            off_cons x false i v s c (ne_of_has x i t h u.1) (Apart-symm s t u.2 x h)
              (off x (in_right x s i v t h)),
      )

  pub plug-Distinct :
      (c : List (Step T)) (t : Tree T)
      → Distinct t
      → DistinctPath c
      → OffPath t c
      → Distinct (plug c t)
  plug-Distinct [] t d w off = d
  plug-Distinct (step true i v s ∷ c) t d w off =
      plug-Distinct c (node t i v s)
        (
          not-mem_of_OffPath true i v s c t off,
          w.0,
          (λ x h. (off-parts x true i v s c (off x h)).1),
          d,
          w.3,
        )
        w.4 (OffPath-fill true i v s c t w.1 w.2 off)
  plug-Distinct (step false i v s ∷ c) t d w off =
      plug-Distinct c (node s i v t)
        (
          w.0,
          not-mem_of_OffPath false i v s c t off,
          Apart-symm t s (λ x h. (off-parts x false i v s c (off x h)).1),
          w.3,
          d,
        )
        w.4 (OffPath-fill false i v s c t w.1 w.2 off)

  pub path_ne :
      (x i : ℕ) (c : List (Step T)) → on_path x c ≡ true → on_path i c ≡ false → (x == i) ≡ false
  path_ne x i c h k = elim (Bool-cases (x == i)) [
    | inl e ↦ absurd (true≢false (sym h ∙ ap (λ z. on_path z c) ((==_iff x i).0 e) ∙ k))
    | inr e ↦ e
  ]

  pub OffPath-symm :
      (t : Tree T) (c : List (Step T))
      → OffPath t c
      → (x : ℕ) → on_path x c ≡ true
      → has x t ≡ false
  OffPath-symm t c off x h = ground (arith, off x)

  fill_out :
      (x : ℕ) (b : Bool) (i : ℕ) (v : T) (s : Tree T) (t : Tree T)
      → has x (fill (step b i v s) t) ≡ false
      → ((x == i) ≡ false) × (has x s ≡ false) × (has x t ≡ false)
  fill_out x true i v s t h = ground arith
  fill_out x false i v s t h = ground arith

  pub plug_out :
      (x : ℕ) (c : List (Step T)) (t : Tree T)
      → has x (plug c t) ≡ false
      → (on_path x c ≡ false) × (has x t ≡ false)
  plug_out x [] t h = (refl, h)
  plug_out x (step b i v s ∷ c) t h =
      let (up, f) = plug_out x c (fill (step b i v s) t) h in
      let g = fill_out x b i v s t f in (off_cons x b i v s c g.0 g.1 up, g.2)

  -- What a write at `i` and later ones on the path above leave at `i` and beside it.
  kept_below :
      (pool pool' : Pool T) (i : ℕ) (m : HeapNode T) (s : Tree T) (c : List (Step T))
      → Owns pool (some i) s
      → has i s ≡ false
      → on_path i c ≡ false
      → OffPath s c
      → ((x : ℕ) → on_path x c ≡ false → pool' x ≡ write pool i m x)
      → (pool' i ≡ some m) × Owns pool' (some i) s
  kept_below pool pool' i m s c o h k off same = (
    same i k ∙ write-here pool i m,
    Owns-frame (some i) s o
        (λ x e. same x (off x e) ∙ write-other pool i m x (ne_of_has x i s e h)),
  )

  -- decrement_size takes one from every size on the way up, and writes nowhere else.
  abbrev Decremented : Pool T → HeapPtr → ℕ → List (Step T) → Pool T → Type 0
  Decremented pool p n c pool' =
      OwnsPath pool' p n c × ((x : ℕ) → on_path x c ≡ false → pool' x ≡ pool x)

  pub decrement_size-OwnsPath :
      (k : ℕ) (pool : Pool T) (p : HeapPtr) (n : ℕ) (c : List (Step T))
      → OwnsPath pool p (suc n) c
      → DistinctPath c
      → length c < k
      → Returns (λ _. Decremented pool p n c) (decrement_size k (above c) pool)
  unfolding decrement_size
  decrement_size-OwnsPath zero pool p n c w d fuel = absurd (omega arith)
  decrement_size-OwnsPath (suc k) pool p n [] w d fuel = returns (tt, λ x h. refl)
  decrement_size-OwnsPath (suc k) pool p n (step true i v s ∷ c) w d fuel =
      let after : ℕ = suc (n + size_of s) in
      let m : HeapNode T = record { value = v; md = step_md (step true i v s) (above c) p n } in
      let pool1 : Pool T = write pool i m in
      let positive : ltb 0 (suc (suc n + size_of s)) ≡ true = ground arith in
      let taken : suc (suc n + size_of s) - 1 ≡ after = omega arith in
      let more : suc (suc n + size_of s) ≡ suc after = omega arith in
      let w1 : OwnsPath pool1 (some i) (suc after) c =
        OwnsPath-frame {pool = pool} {pool' = pool1} (some i) (suc after) c
          (subst (λ z. OwnsPath pool (some i) z c) more w.2)
          (λ x h. write-other pool i m x (path_ne x i c h d.1)) in
      rw (get_node_md-ok pool i _ (w.0), positive, modify_md-ok pool i _ (w.0), taken)
        (Returns-mono (decrement_size-OwnsPath k pool1 (some i) after c w1 d.4 (omega arith))
          λ _ pool' (o, same).
            (let (here, beside) = kept_below pool pool' i m s c w.1 d.0 d.1 d.2 same in
              (
                (here, beside, o),
                λ x h.
                    (let q = off-parts x true i v s c h in same x q.2 ∙ write-other pool i m x q.0),
              )))
  decrement_size-OwnsPath (suc k) pool p n (step false i v s ∷ c) w d fuel =
      let after : ℕ = suc (size_of s + n) in
      let m : HeapNode T = record { value = v; md = step_md (step false i v s) (above c) p n } in
      let pool1 : Pool T = write pool i m in
      let positive : ltb 0 (suc (size_of s + suc n)) ≡ true = ground arith in
      let taken : suc (size_of s + suc n) - 1 ≡ after = omega arith in
      let more : suc (size_of s + suc n) ≡ suc after = omega arith in
      let w1 : OwnsPath pool1 (some i) (suc after) c =
        OwnsPath-frame {pool = pool} {pool' = pool1} (some i) (suc after) c
          (subst (λ z. OwnsPath pool (some i) z c) more w.2)
          (λ x h. write-other pool i m x (path_ne x i c h d.1)) in
      rw (get_node_md-ok pool i _ (w.0), positive, modify_md-ok pool i _ (w.0), taken)
        (Returns-mono (decrement_size-OwnsPath k pool1 (some i) after c w1 d.4 (omega arith))
          λ _ pool' (o, same).
            (let (here, beside) = kept_below pool pool' i m s c w.1 d.0 d.1 d.2 same in
              (
                (here, beside, o),
                λ x h.
                    (let q = off-parts x false i v s c h in
                      same x q.2 ∙ write-other pool i m x q.0),
              )))

  out-fill :
      (x : ℕ) (b : Bool) (i : ℕ) (v : T) (s : Tree T) (t : Tree T)
      → (x == i) ≡ false
      → has x s ≡ false
      → has x t ≡ false
      → has x (fill (step b i v s) t) ≡ false
  out-fill x true i v s t h k m = ground arith
  out-fill x false i v s t h k m = ground arith

  pub out-plug :
      (x : ℕ) (c : List (Step T)) (t : Tree T)
      → on_path x c ≡ false
      → has x t ≡ false
      → has x (plug c t) ≡ false
  out-plug x [] t h k = k
  out-plug x (step b i v s ∷ c) t h k =
      let q = off-parts x b i v s c h in
      out-plug x c (fill (step b i v s) t) q.2 (out-fill x b i v s t q.0 q.1 k)

  pub size-plug :
      (c : List (Step T)) (t u : Tree T)
      → size_of t ≡ suc (size_of u)
      → size_of (plug c t) ≡ suc (size_of (plug c u))
  size-plug [] t u e = e
  size-plug (step true i v s ∷ c) t u e = size-plug c (node t i v s) (node u i v s) (omega arith)
  size-plug (step false i v s ∷ c) t u e = size-plug c (node s i v t) (node s i v u) (omega arith)
