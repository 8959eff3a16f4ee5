-- ===== src/Server/Router/Tests.antt =====
-- Examples of the router of src/server/server.rs, with two symbols.
use mathlib.Core.Path.{subst}
use cixrs.Base.{
  ℕ, ◌<◌, ◌≡◌, refl, sym, ◌∙◌, inl, inr, ◌⊎◌, Bool, true, some, List, [], ◌∷◌, get_elem?, Result,
  success, failure, arith,
}
use cixrs.Run.{Returns, ◌>>=◌}
use cixrs.TradeTypes.OrderId.{OrderId, buy}
use cixrs.TradeTypes.OrderId as OrderId
use cixrs.TradeTypes.TradingId as TradingId
use cixrs.TradeTypes.Symbol.{Symbol}
use cixrs.Server.Messages.{EngineMessage, new_order, cancel_order}
use cixrs.Server.Table.{find, insert, remove}
use cixrs.Server.Router.{
  SymbolLookup, RouterError, duplicate_symbol, SingleRouter, new_lookup, insert_symbols,
  get_symbol_id, new, replay_all, create_order_id,
}
use cixrs.Server.Router.Lookup.{IsLookup, new_lookup-IsLookup}
use cixrs.Server.Router.Fresh.{AllPast, Created, create_order_id-Created}
use cixrs.Server.Router.Replay.{AllNamed, ids_of, Replayed, replay_all-Replayed, restart-IsFresh}

abbrev symbol_a : Symbol
symbol_a = record { s = 65 ∷ [] }

abbrev symbol_b : Symbol
symbol_b = record { s = 66 ∷ [] }

abbrev both : List Symbol
both = symbol_a ∷ symbol_b ∷ []

abbrev both_lookup : SymbolLookup
both_lookup = record { symbols = both; lookup = (symbol_b, 1) ∷ (symbol_a, 0) ∷ [] }

both_made : new_lookup both ≡ success both_lookup
unfolding new_lookup insert_symbols find insert remove
both_made = refl

new_lookup-IsLookup_example :
    ((l : SymbolLookup) × (new_lookup both ≡ success l) × (l.symbols ≡ both) × IsLookup l)
    ⊎ ((s : Symbol) × (i : ℕ) × (j : ℕ) × (i < j)
        × (get_elem? both i ≡ some s)
        × (get_elem? both j ≡ some s)
        × (new_lookup both ≡ failure (duplicate_symbol s)))
new_lookup-IsLookup_example = new_lookup-IsLookup both

both-IsLookup : IsLookup both_lookup
both-IsLookup = elim (new_lookup-IsLookup both) [
  | inl (l, e, _, h) ↦ subst IsLookup (success-inj (sym e ∙ both_made)) h
  | inr (_, _, _, _, _, _, e) ↦ absurd (success≢failure (sym both_made ∙ e))
]
  where
    success-inj :
        {a b : SymbolLookup}
        → ◌≡◌ {A = Result RouterError SymbolLookup} (success a) (success b)
        → a ≡ b
    success-inj k = cc

    success≢failure :
        {a : SymbolLookup} {e : RouterError}
        → ◌≡◌ {A = Result RouterError SymbolLookup} (success a) (failure e)
        → ⊥
    success≢failure k = cc

-- the fifth order of the symbol 0, and a cancellation of it
abbrev fifth : OrderId
fifth = record { id = record { val = 0x20000000005 } }

abbrev log : List EngineMessage
log =
    new_order (record {
      user = 7;
      order_id = fifth;
      symbol = symbol_a;
      side = buy;
      price = record { bits = 0x4024000000000000 };
      quantity = 30;
    })
    ∷ cancel_order (record { user = 7; order_id = fifth })
    ∷ []

log-AllNamed : AllNamed both_lookup log
unfolding get_symbol_id find OrderId.symbol_id TradingId.symbol_id
log-AllNamed = (refl, (tt, tt))

abbrev any : EngineMessage → Bool
any m = true

replay_all-Replayed_example :
    Returns
      (λ _ r'. Replayed any (λ m. refl) (new both_lookup) log r')
      (replay_all any log (new both_lookup))
unfolding new
replay_all-Replayed_example =
    replay_all-Replayed any (λ m. refl) (new both_lookup) log
      (record { lookup = both-IsLookup; seqs = refl; few = omega arith }) log-AllNamed

restart-IsFresh_example :
    Returns
      (λ x r'. (r : SingleRouter) × (r.sent ≡ log) × Created r (ids_of log) symbol_a buy x r')
      ((replay_all any log >>= λ _. create_order_id symbol_a buy) (new both_lookup))
restart-IsFresh_example =
    restart-IsFresh any (λ m. refl) both_lookup log symbol_a buy both-IsLookup (omega arith)
      log-AllNamed

-- a router that has made the ids of the symbols up to 5 and 0
abbrev used : SingleRouter
used = record { symbols = both_lookup; sent = log; seq_list = 6 ∷ 1 ∷ [] }

used-AllPast : AllPast used (fifth ∷ [])
unfolding OrderId.symbol_id OrderId.sequence TradingId.symbol_id TradingId.sequence
used-AllPast = ((λ n e. (let q : 6 ≡ n = (cc) in omega (arith, q))), tt)

create_order_id-Created_example :
    Returns (Created used (fifth ∷ []) symbol_b buy) (create_order_id symbol_b buy used)
create_order_id-Created_example =
    create_order_id-Created used (fifth ∷ []) symbol_b buy
      (record { lookup = both-IsLookup; seqs = refl; few = omega arith }) used-AllPast
