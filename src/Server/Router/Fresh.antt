-- ===== src/Server/Router/Fresh.antt =====
-- The order ids that SingleRouter of src/server/server.rs makes, across restarts.
use cixrs.Base.{
  ℕ, zero, suc, ◌+◌, ◌%◌, ◌^◌, ◌≤◌, ◌<◌, ◌≡◌, ◌≢◌, refl, sym, ap, ◌∙◌, ◌⊎◌, inl, inr, true, false,
  Option, none, some, List, [], ◌∷◌, length, get_elem?, Result, success, failure, Bool-cases,
  Option-cases, arith, leb,
}
use cixrs.Run.{Returns, returns}
use cixrs.TradeTypes.OrderId.{OrderId, OrderSide, OrderFields, new-OrderFields}
use cixrs.TradeTypes.OrderId as OrderId
use cixrs.TradeTypes.Symbol.{Symbol}
use cixrs.TradeTypes.OrderId.{trading_md_type_order, side_md}
use cixrs.TradeTypes.TradingId.{TradingId, IdError, new-success}
use cixrs.TradeTypes.TradingId as TradingId
use cixrs.Base.{bit_or, map_result}
use cixrs.Server.Router.{
  SingleRouter, RouterError, invalid_symbol, get_symbol_id, set_elem, create_order_id, create_at,
  new,
}
use cixrs.Server.Router.Lookup.{IsLookup, get_elem?-some, get_symbol_iff}

-- The numbers of the list only grew.
abbrev pub Raised : List ℕ → List ℕ → Type 0
Raised old new =
    (i n : ℕ) → get_elem? new i ≡ some n → (m : ℕ) × (get_elem? old i ≡ some m) × (m ≤ n)

pub set_elem-Raised :
    (xs : List ℕ) (i n m : ℕ) → get_elem? xs i ≡ some n → n ≤ m → Raised xs (set_elem xs i m)
set_elem-Raised [] i n m at le j k h = absurd (cc)
set_elem-Raised (x ∷ xs) zero n m at le zero k h =
    (x, refl, omega (arith, le, some-inj at, some-inj h))
  where
    some-inj : {a b : ℕ} → ◌≡◌ {A = Option ℕ} (some a) (some b) → a ≡ b
    some-inj k = cc
set_elem-Raised (x ∷ xs) zero n m at le (suc j) k h = (k, h, omega arith)
set_elem-Raised (x ∷ xs) (suc i) n m at le zero k h = (k, h, omega arith)
set_elem-Raised (x ∷ xs) (suc i) n m at le (suc j) k h = set_elem-Raised xs i n m at le j k h

pub get-set_elem :
    (xs : List ℕ) (i n m : ℕ) → get_elem? xs i ≡ some n → get_elem? (set_elem xs i m) i ≡ some m
get-set_elem [] i n m at = absurd (cc)
get-set_elem (x ∷ xs) zero n m at = refl
get-set_elem (x ∷ xs) (suc i) n m at = get-set_elem xs i n m at

pub length-set_elem : (xs : List ℕ) (i m : ℕ) → length (set_elem xs i m) ≡ length xs
length-set_elem [] i m = refl
length-set_elem (x ∷ xs) zero m = refl
length-set_elem (x ∷ xs) (suc i) m = ap suc (length-set_elem xs i m)

some_elem : (xs : List ℕ) (i : ℕ) → i < length xs → (n : ℕ) × (get_elem? xs i ≡ some n)
some_elem [] i h = absurd (omega (arith, h))
some_elem (x ∷ xs) zero h = (x, refl)
some_elem (x ∷ xs) (suc i) h = some_elem xs i (omega (arith, h))

-- The router's parts agree: the map of the symbols is right, each symbol has a sequence number, and
-- the symbols' indices fit into the ids.
pub record IsRouter (r : SingleRouter) : Type 0 where
  pub lookup : IsLookup r.symbols
  pub seqs : length r.seq_list ≡ length r.symbols.symbols
  pub few : length r.symbols.symbols ≤ 2 ^ 20

-- The id is behind the next one of its symbol.
abbrev pub IsPast : SingleRouter → OrderId → Type 0
IsPast r id =
    (n : ℕ) → get_elem? r.seq_list (OrderId.symbol_id id) ≡ some n → OrderId.sequence id < n

abbrev pub AllPast : SingleRouter → List OrderId → Type 0
AllPast r [] = Unit {0}
AllPast r (id ∷ ids) = IsPast r id × AllPast r ids

-- The id is none of the list.
abbrev pub IsFresh : OrderId → List OrderId → Type 0
IsFresh id [] = Unit {0}
IsFresh id (o ∷ os) = (id ≢ o) × IsFresh id os

pub IsPast-Raised :
    (r r' : SingleRouter) (id : OrderId)
    → Raised r.seq_list r'.seq_list
    → IsPast r id
    → IsPast r' id
IsPast-Raised r r' id up h n at =
    let (m, old, le) = up (OrderId.symbol_id id) n at in omega (arith, h m old, le)

AllPast-Raised :
    (r r' : SingleRouter) (ids : List OrderId)
    → Raised r.seq_list r'.seq_list
    → AllPast r ids
    → AllPast r' ids
AllPast-Raised r r' [] up h = tt
AllPast-Raised r r' (id ∷ ids) up h = (IsPast-Raised r r' id up h.0, AllPast-Raised r r' ids up h.1)

-- An id with the next sequence number of its symbol is none of those that are behind.
next-IsFresh :
    (r : SingleRouter) (id : OrderId) (n : ℕ) (ids : List OrderId)
    → get_elem? r.seq_list (OrderId.symbol_id id) ≡ some n
    → OrderId.sequence id ≡ n
    → AllPast r ids
    → IsFresh id ids
next-IsFresh r id n [] at seq h = tt
next-IsFresh r id n (o ∷ os) at seq h = (
  (λ e. omega (
    arith,
    seq,
    ap OrderId.sequence e,
    h.0 n (ap (λ z. get_elem? r.seq_list (OrderId.symbol_id z)) (sym e) ∙ at),
  )),
  next-IsFresh r id n os at seq h.1,
)

pub symbol_seq :
    (r : SingleRouter) (symbol : Symbol) (i : ℕ)
    → IsRouter r
    → get_symbol_id symbol r.symbols ≡ some i
    → (i < 2 ^ 20) × ((n : ℕ) × (get_elem? r.seq_list i ≡ some n))
symbol_seq r symbol i h at =
    let lt =
      get_elem?-some r.symbols.symbols i symbol
        ((get_symbol_iff r.symbols i symbol).0 ((h.lookup symbol i).0 at)) in
    (omega (arith, lt, h.few), some_elem r.seq_list i (omega (arith, lt, h.seqs)))

-- What create_order_id leads to.
pub data Created (r : SingleRouter) (ids : List OrderId) (symbol : Symbol) (side : OrderSide)
    : Result RouterError OrderId → SingleRouter → Type 0 where
  unknown :
      get_symbol_id symbol r.symbols ≡ none
      → Created r ids symbol side (failure (invalid_symbol symbol)) r
  exhausted :
      (i n : ℕ)
      → get_symbol_id symbol r.symbols ≡ some i
      → get_elem? r.seq_list i ≡ some n
      → 2 ^ 40 ≤ n
      → {e : RouterError} → Created r ids symbol side (failure e) r
  created :
      {id : OrderId} {r' : SingleRouter}
      → get_symbol_id symbol r.symbols ≡ some (OrderId.symbol_id id)
      → OrderId.side id ≡ side
      → IsFresh id ids
      → IsRouter r'
      → AllPast r' (id ∷ ids)
      → r'.symbols ≡ r.symbols
      → r'.sent ≡ r.sent
      → Created r ids symbol side (success id) r'

id_cases :
    (s : ℕ) (side : OrderSide) (q : ℕ)
    → s < 2 ^ 20
    → ((q < 2 ^ 40)
        × ((id : OrderId) × (OrderId.new s side q ≡ success id) × OrderFields s side q id))
      ⊎ ((2 ^ 40 ≤ q) × ((e : IdError) × (OrderId.new s side q ≡ failure e)))
unfolding OrderId.new
id_cases s side q h = elim (Bool-cases (leb (2 ^ 40) q)) [
  | inr lt ↦ inl (small lt, new-OrderFields s side q h (small lt))
  | inl le ↦ inr (
    large le,
    refused (TradingId.new s (bit_or trading_md_type_order (side_md side)) q) (λ id e. absurd (
        omega (
          arith,
          large le,
          (new-success s (bit_or trading_md_type_order (side_md side)) q id e).2,
        ))),
  )
]
  where
    small : {n : ℕ} → leb (2 ^ 40) n ≡ false → n < 2 ^ 40
    small h = ground arith

    large : {n : ℕ} → leb (2 ^ 40) n ≡ true → 2 ^ 40 ≤ n
    large h = ground arith

    refused :
        (r : Result IdError TradingId)
        → ((id : TradingId) → r ≡ success id → ⊥)
        → (e : IdError) × (map_result {B = OrderId} (λ (t : TradingId). record { id = t }) r
            ≡ failure e)
    refused (failure e) n = (e, refl)
    refused (success id) n = absurd (n id refl)

-- Making an id for a symbol and a side returns. It fails, and nothing changes, exactly if the symbol is
-- unknown or its 40-bit sequence numbers are used up. Otherwise the id names the symbol and the side, is
-- none of the ids that are behind the router's sequence numbers, and is behind them from then on.
pub create_order_id-Created :
    (r : SingleRouter) (ids : List OrderId) (symbol : Symbol) (side : OrderSide)
    → IsRouter r
    → AllPast r ids
    → Returns (Created r ids symbol side) (create_order_id symbol side r)
unfolding create_order_id create_at
create_order_id-Created r ids symbol side h past =
    elim (Option-cases (get_symbol_id symbol r.symbols)) [
      | inl none_such ↦ rw (create_order_id, none_such) (returns (unknown none_such))
      | inr (i, found) ↦
          (let (lt, (n, at)) = symbol_seq r symbol i h found in
            let narrow : i % 2 ^ 32 ≡ i = omega (arith, lt) in
            elim (id_cases i side n lt) [
              | inr (full, (e, refused)) ↦
                  rw (create_order_id, found, at, create_at, narrow, refused)
                    (returns (exhausted i n found at full))
              | inl (room, (id, made, f)) ↦
                  (let r' : SingleRouter = record r { seq_list = set_elem r.seq_list i (n + 1) } in
                    let up : Raised r.seq_list r'.seq_list =
                      set_elem-Raised r.seq_list i n (n + 1) at (omega arith) in
                    rw (create_order_id, found, at, create_at, narrow, made)
                      (returns (
                        created (found ∙ ap some (sym f.symbol_id_is)) f.side_is
                          (next-IsFresh r id n ids (ap (get_elem? r.seq_list) f.symbol_id_is ∙ at)
                            f.sequence_is past)
                          (record {
                            lookup = h.lookup;
                            seqs = length-set_elem r.seq_list i (n + 1) ∙ h.seqs;
                            few = h.few;
                          })
                          (
                            (λ k e.
                                last_past n k
                                  (sym (get-set_elem r.seq_list i n (n + 1) at)
                                    ∙ ap (get_elem? r'.seq_list) (sym f.symbol_id_is)
                                    ∙ e)
                                  f.sequence_is),
                            AllPast-Raised r r' ids up past,
                          )
                          refl refl)))
            ])
    ]
  where
    last_past : {q : ℕ} (n k : ℕ) → ◌≡◌ {A = Option ℕ} (some (n + 1)) (some k) → q ≡ n → q < k
    last_past n k e s = omega (arith, s, (let d : n + 1 ≡ k = (cc) in d))
