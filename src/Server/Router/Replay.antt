-- ===== src/Server/Router/Replay.antt =====
-- Replaying the log into SingleRouter (replay_message and init_wal of src/server/server.rs).
use mathlib.Core.Path.{subst}
use cixrs.Base.{
  ℕ, ◌+◌, ◌^◌, ◌≤◌, ◌<◌, ◌≡◌, refl, sym, ap, ◌∙◌, inl, inr, Bool, true, false, Option, some, List,
  [], ◌∷◌, ◌++◌, length, get_elem?, success, Bool-cases, arith, leb,
}
use cixrs.Run.{ok, Returns, returns, Returns-bind, Returns-inv, Returns-mono, ◌>>=◌}
use cixrs.TradeTypes.OrderId.{OrderId, OrderSide}
use cixrs.TradeTypes.OrderId as OrderId
use cixrs.TradeTypes.Symbol.{Symbol}
use cixrs.Server.Messages.{
  EngineMessage, new_order, null_message, cancel_order, serialization_message,
  get_open_orders_message,
}
use cixrs.Server.Wal.File.{append_regroup, append-nil, length-replicate}
use cixrs.Server.Router.{
  SymbolLookup, SingleRouter, get_symbol_id, create_order_id, new, replay_message, replay_order,
  replay_at, replay_all, route_order, broadcast_message, raise_seq,
}
use cixrs.Server.Router.Lookup.{IsLookup}
use cixrs.Server.Router.Fresh.{
  Raised, IsRouter, AllPast, IsPast-Raised, Created, create_order_id-Created, set_elem-Raised,
  get-set_elem, length-set_elem, symbol_seq,
}

-- The ids of the orders of a log.
abbrev pub ids_of : List EngineMessage → List OrderId
ids_of [] = []
ids_of (new_order m ∷ ms) = m.order_id ∷ ids_of ms
ids_of (m ∷ ms) = ids_of ms

-- The ids of a log's orders name the orders' symbols.
abbrev pub IsNamed : SymbolLookup → EngineMessage → Type 0
IsNamed l (new_order m) = get_symbol_id m.symbol l ≡ some (OrderId.symbol_id m.order_id)
IsNamed l m = Unit {0}

abbrev pub AllNamed : SymbolLookup → List EngineMessage → Type 0
AllNamed l [] = Unit {0}
AllNamed l (m ∷ ms) = IsNamed l m × AllNamed l ms

Raised-refl : (xs : List ℕ) → Raised xs xs
Raised-refl xs i n h = (n, h, omega arith)

Raised-trans : (xs ys zs : List ℕ) → Raised xs ys → Raised ys zs → Raised xs zs
Raised-trans xs ys zs f g i n h =
    let (m, at, le) = g i n h in let (k, at', le') = f i m at in (k, at', omega (arith, le, le'))

raise_seq-Raised :
    (xs : List ℕ) (i n q : ℕ)
    → get_elem? xs i ≡ some n
    → Raised xs (raise_seq xs i n q)
      × (length (raise_seq xs i n q) ≡ length xs)
      × ((k : ℕ) → get_elem? (raise_seq xs i n q) i ≡ some k → q < k)
raise_seq-Raised xs i n q at = elim (Bool-cases (leb n q)) [
  | inl h ↦ rw h (
    set_elem-Raised xs i n (q + 1) at (grows n q h),
    length-set_elem xs i (q + 1),
    λ k e. omega (arith, some-inj (sym (get-set_elem xs i n (q + 1) at) ∙ e)),
  )
  | inr h ↦ rw h (Raised-refl xs, refl, λ k e. omega (arith, some-inj (sym at ∙ e), behind n q h))
]
  where
    some-inj : {a b : ℕ} → ◌≡◌ {A = Option ℕ} (some a) (some b) → a ≡ b
    some-inj k = cc

    grows : (n q : ℕ) → leb n q ≡ true → n ≤ q + 1
    grows n q h = ground arith

    behind : (n q : ℕ) → leb n q ≡ false → q < n
    behind n q h = ground arith

module _ (takes : EngineMessage → Bool) (all_taken : (m : EngineMessage) → takes m ≡ true) where
  -- The router after replaying messages that the log held.
  pub record Replayed (r : SingleRouter) (log : List EngineMessage) (r' : SingleRouter)
      : Type 0 where
    pub router_ok : IsRouter r'
    pub symbols : r'.symbols ≡ r.symbols
    pub sent : r'.sent ≡ r.sent ++ log
    pub up : Raised r.seq_list r'.seq_list
    pub past : AllPast r' (ids_of log)

  route_order-sent :
      (m : EngineMessage) (r : SingleRouter)
      → route_order takes m r ≡ ok (success tt) (record r { sent = r.sent ++ (m ∷ []) })
  unfolding route_order broadcast_message
  route_order-sent m r = rw (broadcast_message, all_taken m) refl

  -- a message that is only routed
  routed :
      (r : SingleRouter) (m : EngineMessage)
      → ids_of (m ∷ []) ≡ []
      → IsRouter r
      → Returns (λ x r'. (x ≡ success tt) × Replayed r (m ∷ []) r') (route_order takes m r)
  routed r m none_new h = rw (route_order-sent m r) (
      returns (
        refl,
        record {
          router_ok = record { lookup = h.lookup; seqs = h.seqs; few = h.few };
          symbols = refl;
          sent = refl;
          up = Raised-refl r.seq_list;
          past = subst (λ z. AllPast (record r { sent = r.sent ++ (m ∷ []) }) z) (sym none_new) tt;
        },
      ))

  replay_message-Replayed :
      (r : SingleRouter) (m : EngineMessage)
      → IsRouter r
      → IsNamed r.symbols m
      → Returns (λ x r'. (x ≡ success tt) × Replayed r (m ∷ []) r') (replay_message takes m r)
  unfolding replay_message replay_order replay_at
  replay_message-Replayed r (new_order m) h named =
      let i = OrderId.symbol_id m.order_id in
      let q = OrderId.sequence m.order_id in
      let (_, (n, at)) = symbol_seq r m.symbol i h named in
      let (up, len, past) = raise_seq-Raised r.seq_list i n q at in
      let r1 : SingleRouter = record r { seq_list = raise_seq r.seq_list i n q } in
      rw (replay_order, named, replay_at, at, route_order-sent (new_order m) r1)
        (returns (
          refl,
          record {
            router_ok = record { lookup = h.lookup; seqs = len ∙ h.seqs; few = h.few };
            symbols = refl;
            sent = refl;
            up = up;
            past = (past, tt);
          },
        ))
  replay_message-Replayed r null_message h named = routed r null_message refl h
  replay_message-Replayed r (cancel_order m) h named = routed r (cancel_order m) refl h
  replay_message-Replayed r (serialization_message n) h named =
      routed r (serialization_message n) refl h
  replay_message-Replayed r (get_open_orders_message s) h named =
      routed r (get_open_orders_message s) refl h

  combined :
      (r r1 r' : SingleRouter) (m : EngineMessage) (ms : List EngineMessage)
      → Replayed r (m ∷ []) r1
      → Replayed r1 ms r'
      → Replayed r (m ∷ ms) r'
  combined r r1 r' m ms p q = record {
    router_ok = q.router_ok;
    symbols = q.symbols ∙ p.symbols;
    sent = q.sent ∙ ap (λ z. z ++ ms) p.sent ∙ append_regroup r.sent (m ∷ []) ms;
    up = Raised-trans r.seq_list r1.seq_list r'.seq_list p.up q.up;
    past = joined m p.past q.past;
  }
    where
      joined :
          (m : EngineMessage)
          → AllPast r1 (ids_of (m ∷ []))
          → AllPast r' (ids_of ms)
          → AllPast r' (ids_of (m ∷ ms))
      joined (new_order m) a b = (IsPast-Raised r1 r' m.order_id q.up a.0, b)
      joined null_message a b = b
      joined (cancel_order m) a b = b
      joined (serialization_message n) a b = b
      joined (get_open_orders_message s) a b = b

  -- Where the engine's channel takes every message, replaying a log whose orders' ids name their
  -- symbols returns: the engine gets the messages of the log in their order, and the ids of its orders
  -- are behind the router's sequence numbers, of which none is lowered.
  pub replay_all-Replayed :
      (r : SingleRouter) (log : List EngineMessage)
      → IsRouter r
      → AllNamed r.symbols log
      → Returns (λ _ r'. Replayed r log r') (replay_all takes log r)
  unfolding replay_all
  replay_all-Replayed r [] h named = returns (record {
    router_ok = h;
    symbols = refl;
    sent = sym (append-nil r.sent);
    up = Raised-refl r.seq_list;
    past = tt;
  })
  replay_all-Replayed r (m ∷ ms) h named =
      let (x, r1, run, (e, p)) = Returns-inv (replay_message-Replayed r m h named.0) in
      rw (run, e)
        (Returns-mono
          (replay_all-Replayed r1 ms p.router_ok
            (subst (λ l. AllNamed l ms) (sym p.symbols) named.1))
          (λ _ r' q. combined r r1 r' m ms p q))

  -- After a restart, that is from a new router into which such a log is replayed, making an id for a
  -- symbol and a side returns, and the id, if one is made, is none of the log's.
  pub restart-IsFresh :
      (l : SymbolLookup) (log : List EngineMessage) (symbol : Symbol) (side : OrderSide)
      → IsLookup l
      → length l.symbols ≤ 2 ^ 20
      → AllNamed l log
      → Returns
          (λ x r'. (r : SingleRouter) × (r.sent ≡ log) × Created r (ids_of log) symbol side x r')
          ((replay_all takes log >>= λ _. create_order_id symbol side) (new l))
  unfolding new
  restart-IsFresh l log symbol side h few named =
      Returns-bind
        (replay_all-Replayed (new l) log
          (record { lookup = h; seqs = length-replicate {A = ℕ} (length l.symbols) 0; few = few })
          named)
        (λ _ r p.
          Returns-mono (create_order_id-Created r (ids_of log) symbol side p.router_ok p.past)
            (λ x r' c. (r, p.sent, c)))
