-- ===== src/Server/Router/Lookup.antt =====
-- SymbolLookup::new of src/server/server.rs.
use mathlib.Core.Path.{subst}
use cixrs.Base.{
  ℕ, zero, suc, ◌+◌, ◌<◌, ◌≡◌, refl, sym, ap, ◌∙◌, ◌⊎◌, inl, inr, ◌↔◌, ◌==◌, ==_iff, true, false,
  Option, none, some, List, [], ◌∷◌, length, get_elem?, Result, success, failure, Bool-cases,
  Option-cases, true≢false, arith, leb,
}
use cixrs.TradeTypes.Symbol.{Symbol}
use cixrs.Server.Engine.{symbol_eq, bytes_eq}
use cixrs.Server.Table.{Table, IsSame, find, insert, find-insert, find-insert_other}
use cixrs.Server.Router.{
  SymbolLookup, RouterError, duplicate_symbol, insert_symbols, new_lookup, get_symbol,
  get_symbol_id,
}

bytes_eq_iff : (xs ys : List ℕ) → (bytes_eq xs ys ≡ true) ↔ (xs ≡ ys)
bytes_eq_iff [] [] = ((λ _. refl), (λ _. refl))
bytes_eq_iff [] (y ∷ ys) = ((λ h. absurd (cc)), (λ h. absurd (cc)))
bytes_eq_iff (x ∷ xs) [] = ((λ h. absurd (cc)), (λ h. absurd (cc)))
bytes_eq_iff (x ∷ xs) (y ∷ ys) = elim (Bool-cases (x == y)) [
  | inl h ↦
      (let e : x ≡ y = (==_iff x y).0 h in
        (
          (λ k. (let f : xs ≡ ys = (bytes_eq_iff xs ys).0 (rw h at k) in cc)),
          (λ k. (let f : xs ≡ ys = (cc) in rw h ((bytes_eq_iff xs ys).1 f))),
        ))
  | inr h ↦ (
    (λ k. absurd (true≢false (sym (rw h at k)))),
    (λ k. (let e : x ≡ y = (cc) in absurd (true≢false (sym ((==_iff x y).1 e) ∙ h)))),
  )
]

-- The derived equality of symbols is equality.
pub symbol_eq-IsSame : IsSame symbol_eq
symbol_eq-IsSame a b = (
  (λ h. ap (λ z. record { s = z }) ((bytes_eq_iff a.s b.s).0 h)),
  (λ e. (bytes_eq_iff a.s b.s).1 (ap (λ (z : Symbol). z.s) e)),
)

-- The map gives the indices below `n` of the symbols.
abbrev Maps : List Symbol → ℕ → Table Symbol ℕ → Type 0
Maps symbols n t =
    (s : Symbol) (j : ℕ)
    → (find symbol_eq s t ≡ some j) ↔ ((j < n) × (get_elem? symbols j ≡ some s))

-- `rest` are the symbols from the index `n` on.
abbrev From : List Symbol → ℕ → List Symbol → Type 0
From symbols n rest = (k : ℕ) → get_elem? symbols (n + k) ≡ get_elem? rest k

From-head :
    (symbols : List Symbol) (n : ℕ) (x : Symbol) (rest : List Symbol)
    → From symbols n (x ∷ rest)
    → get_elem? symbols n ≡ some x
From-head symbols n x rest f = subst (λ z. get_elem? symbols z ≡ some x) (omega arith) (f 0)

From-tail :
    (symbols : List Symbol) (n : ℕ) (x : Symbol) (rest : List Symbol)
    → From symbols n (x ∷ rest)
    → From symbols (suc n) rest
From-tail symbols n x rest f k =
    let e : suc n + k ≡ n + suc k = omega arith in ap (get_elem? symbols) e ∙ f (suc k)

Maps-insert :
    (symbols : List Symbol) (n : ℕ) (x : Symbol) (t : Table Symbol ℕ)
    → Maps symbols n t
    → get_elem? symbols n ≡ some x
    → find symbol_eq x t ≡ none
    → Maps symbols (suc n) (insert symbol_eq x n t)
Maps-insert symbols n x t m at new s j = elim (Bool-cases (symbol_eq s x)) [
  | inl h ↦
      (let e : s ≡ x = (symbol_eq-IsSame s x).0 h in
        let found : find symbol_eq s (insert symbol_eq x n t) ≡ some n =
          ap (λ z. find symbol_eq z (insert symbol_eq x n t)) e
          ∙ find-insert symbol_eq symbol_eq-IsSame x n t in
        (
          (λ k.
              (let q : j ≡ n = some-inj (sym k ∙ found) in
                (omega (arith, q), ap (get_elem? symbols) q ∙ at ∙ ap some (sym e)))),
          (λ k. elim (Bool-cases (j == n)) [
            | inl q ↦ found ∙ ap some (sym ((==_iff j n).0 q))
            | inr q ↦ absurd (
                none≢some
                  (sym new ∙ ap (λ z. find symbol_eq z t) (sym e) ∙ (m s j).1 (below k.0 q, k.1)))
          ]),
        ))
  | inr h ↦
      (let same = find-insert_other symbol_eq symbol_eq-IsSame s x n t h in
        (
          (λ k. (let (lt, q) = (m s j).0 (sym same ∙ k) in (omega (arith, lt), q))),
          (λ k. elim (Bool-cases (j == n)) [
            | inl q ↦ absurd (
                true≢false (
                  sym (
                    (symbol_eq-IsSame s x).1
                      (some-inj (sym k.1 ∙ ap (get_elem? symbols) ((==_iff j n).0 q) ∙ at)))
                  ∙ h))
            | inr q ↦ same ∙ (m s j).1 (below k.0 q, k.1)
          ]),
        ))
]
  where
    some-inj : {A : Type 0} {a b : A} → ◌≡◌ {A = Option A} (some a) (some b) → a ≡ b
    some-inj k = cc

    none≢some : {A : Type 0} {a : A} → ◌≡◌ {A = Option A} none (some a) → ⊥
    none≢some k = cc

    below : {j n : ℕ} → j < suc n → (j == n) ≡ false → j < n
    below lt q = ground arith

empty-Maps : (symbols : List Symbol) → Maps symbols 0 []
unfolding find
empty-Maps symbols s j = ((λ k. absurd (cc)), (λ (lt, _). absurd (omega (arith, lt))))

-- The map and the list agree: a symbol has the index at which the list holds it.
abbrev pub IsLookup : SymbolLookup → Type 0
IsLookup l = (s : Symbol) (i : ℕ) → (get_symbol_id s l ≡ some i) ↔ (get_symbol i l ≡ some s)

-- What making the map leads to.
abbrev Outcome : List Symbol → Result RouterError (Table Symbol ℕ) → Type 0
Outcome symbols r =
    ((t : Table Symbol ℕ) × (r ≡ success t) × Maps symbols (length symbols) t)
    ⊎ ((s : Symbol) × (i : ℕ) × (j : ℕ) × (i < j)
        × (get_elem? symbols i ≡ some s)
        × (get_elem? symbols j ≡ some s)
        × (r ≡ failure (duplicate_symbol s)))

insert_symbols-Outcome :
    (symbols : List Symbol) (n : ℕ) (rest : List Symbol) (t : Table Symbol ℕ)
    → n + length rest ≡ length symbols
    → From symbols n rest
    → Maps symbols n t
    → Outcome symbols (insert_symbols n rest t)
unfolding insert_symbols
insert_symbols-Outcome symbols n [] t len f m =
    inl (t, refl, subst (λ z. Maps symbols z t) (omega (arith, len)) m)
insert_symbols-Outcome symbols n (x ∷ rest) t len f m =
    let at = From-head symbols n x rest f in
    elim (Option-cases (find symbol_eq x t)) [
      | inl new ↦
          rw (insert_symbols, new)
            (insert_symbols-Outcome symbols (suc n) rest (insert symbol_eq x n t)
              (omega (arith, len)) (From-tail symbols n x rest f)
              (Maps-insert symbols n x t m at new))
      | inr (i, old) ↦
          rw (insert_symbols, old) (let (lt, q) = (m x i).0 old in inr (x, i, n, lt, q, at, refl))
    ]

pub get_elem?-some :
    {A : Type 0} (xs : List A) (i : ℕ) (a : A) → get_elem? xs i ≡ some a → i < length xs
get_elem?-some [] i a h = absurd (cc)
get_elem?-some (x ∷ xs) zero a h = omega arith
get_elem?-some (x ∷ xs) (suc i) a h = omega (arith, get_elem?-some xs i a h)

pub get_symbol_iff :
    (l : SymbolLookup) (i : ℕ) (s : Symbol)
    → (get_symbol i l ≡ some s) ↔ (get_elem? l.symbols i ≡ some s)
unfolding get_symbol
get_symbol_iff l i s = elim (Bool-cases (leb (length l.symbols) i)) [
  | inl h ↦ rw h (
    (λ k. absurd (cc)),
    (λ k. absurd (apart (length l.symbols) i h (get_elem?-some l.symbols i s k))),
  )
  | inr h ↦ rw h ((λ k. k), (λ k. k))
]
  where
    apart : (n i : ℕ) → leb n i ≡ true → i < n → ⊥
    apart n i h k = ground arith

-- SymbolLookup::new either makes a map from each symbol of the list to its index, so that get_symbol_id
-- and get_symbol are inverse to each other, or it names a symbol that the list holds twice.
pub new_lookup-IsLookup :
    (symbols : List Symbol)
    → ((l : SymbolLookup) × (new_lookup symbols ≡ success l) × (l.symbols ≡ symbols) × IsLookup l)
      ⊎ ((s : Symbol) × (i : ℕ) × (j : ℕ) × (i < j)
          × (get_elem? symbols i ≡ some s)
          × (get_elem? symbols j ≡ some s)
          × (new_lookup symbols ≡ failure (duplicate_symbol s)))
unfolding new_lookup get_symbol_id
new_lookup-IsLookup symbols =
    elim (insert_symbols-Outcome symbols 0 symbols [] (omega arith)
      (λ k. ap (get_elem? symbols) (start k)) (empty-Maps symbols)) [
        | inl (t, e, m) ↦ inl (
          record { symbols = symbols; lookup = t },
          rw (new_lookup, e) refl,
          refl,
          λ s i. (
            (λ k. (get_symbol_iff _ i s).1 ((m s i).0 k).1),
            (λ k.
                (let at = (get_symbol_iff _ i s).0 k in
                  (m s i).1 (get_elem?-some symbols i s at, at))),
          ),
        )
        | inr (s, i, j, lt, p, q, e) ↦ inr (s, i, j, lt, p, q, rw (new_lookup, e) refl)
      ]
  where
    start : (k : ℕ) → 0 + k ≡ k
    start k = omega arith
