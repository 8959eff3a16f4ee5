-- ===== src/Server/Router.antt =====
-- SymbolLookup and SingleRouter of src/server/server.rs. What is sent to the engine is kept in the router's
-- state in its order; `takes` tells whether the engine's channel takes a message.
pub mod Lookup
pub mod Fresh
pub mod Replay
mod Tests
use cixrs.Base.{
  ℕ, zero, suc, ◌+◌, ◌%◌, ◌^◌, leb, Bool, true, false, Option, none, some, List, [], ◌∷◌, ◌++◌,
  length, replicate, get_elem?, Result, success, failure, if◌then◌else◌,
}
use cixrs.Run.{Run, Cmd, ok, panic, out_of_fuel, pure, panics, ◌>>=◌, ◌>>◌}
use cixrs.TradeTypes.TradingId.{IdError}
use cixrs.TradeTypes.OrderId.{OrderId, OrderSide}
use cixrs.TradeTypes.OrderId as OrderId
use cixrs.TradeTypes.Symbol.{Symbol}
use cixrs.Server.Messages.{EngineMessage, new_order, NewOrderMessage}
use cixrs.Server.Engine.{symbol_eq}
use cixrs.Server.Table.{Table, find, insert}

pub record SymbolLookup : Type 0 where
  pub symbols : List Symbol
  pub lookup : Table Symbol ℕ

-- the strings of the router's errors
pub data RouterError : Type 0 where
  duplicate_symbol : Symbol → RouterError
  invalid_symbol : Symbol → RouterError
  no_id : IdError → RouterError
  not_sent : RouterError

-- the loop of SymbolLookup::new over the symbols from the index `i` on
unfoldable pub insert_symbols :
    ℕ → List Symbol → Table Symbol ℕ → Result RouterError (Table Symbol ℕ)
unfolding find insert
insert_symbols i [] lookup = success lookup
insert_symbols i (symbol ∷ rest) lookup = elim (find symbol_eq symbol lookup) [
  | some j ↦ failure (duplicate_symbol symbol)
  | none ↦ insert_symbols (suc i) rest (insert symbol_eq symbol i lookup)
]

-- SymbolLookup::new
unfoldable pub new_lookup : List Symbol → Result RouterError SymbolLookup
unfolding insert_symbols
new_lookup symbols = elim (insert_symbols 0 symbols []) [
  | failure e ↦ failure e
  | success lookup ↦ success (record { symbols = symbols; lookup = lookup })
]

unfoldable pub get_symbol : ℕ → SymbolLookup → Option Symbol
get_symbol id l = if leb (length l.symbols) id then none else get_elem? l.symbols id

unfoldable pub get_symbol_id : Symbol → SymbolLookup → Option ℕ
unfolding find
get_symbol_id symbol l = find symbol_eq symbol l.lookup

pub record SingleRouter : Type 0 where
  pub symbols : SymbolLookup
  pub sent : List EngineMessage
  pub seq_list : List ℕ

-- SingleRouter::new
unfoldable pub new : SymbolLookup → SingleRouter
new symbols = record {
  symbols = symbols;
  sent = [];
  seq_list = replicate (length symbols.symbols) 0;
}

-- the set of a cell of the list
abbrev pub set_elem : List ℕ → ℕ → ℕ → List ℕ
set_elem [] i x = []
set_elem (y ∷ ys) zero x = x ∷ ys
set_elem (y ∷ ys) (suc i) x = y ∷ set_elem ys i x

abbrev pub n_engine : ℕ
n_engine = 1

-- create_order_id, for the symbol's id and the next sequence number
unfoldable pub create_at : ℕ → ℕ → OrderSide → Cmd SingleRouter (Result RouterError OrderId)
unfolding OrderId.new
create_at sym_id seq side router = elim (OrderId.new (sym_id % 2 ^ 32) side seq) [
  | failure e ↦ ok (failure (no_id e)) router
  | success id ↦
      ok (success id) (record router { seq_list = set_elem router.seq_list sym_id (seq + 1) })
]

unfoldable pub create_order_id : Symbol → OrderSide → Cmd SingleRouter (Result RouterError OrderId)
unfolding get_symbol_id create_at
create_order_id symbol side router = elim (get_symbol_id symbol router.symbols) [
  | none ↦ ok (failure (invalid_symbol symbol)) router
  | some sym_id ↦ elim (get_elem? router.seq_list sym_id) [
    | none ↦ panic
    | some seq ↦ create_at sym_id seq side router
  ]
]

-- the sequence numbers after a replayed order
abbrev pub raise_seq : List ℕ → ℕ → ℕ → ℕ → List ℕ
raise_seq seqs sym_id seq order_seq =
    if leb seq order_seq then set_elem seqs sym_id (order_seq + 1) else seqs

module _ (takes : EngineMessage → Bool) where
  unfoldable pub broadcast_message :
      EngineMessage → Cmd SingleRouter (Result RouterError (Unit {0}))
  broadcast_message msg router =
      if takes msg
      then ok (success tt) (record router { sent = router.sent ++ (msg ∷ []) })
      else ok (failure not_sent) router

  unfoldable pub route_order : EngineMessage → Cmd SingleRouter (Result RouterError (Unit {0}))
  unfolding broadcast_message
  route_order msg = broadcast_message msg

  -- replay_message, for the symbol's id
  unfoldable pub replay_at : ℕ → NewOrderMessage → Cmd SingleRouter (Result RouterError (Unit {0}))
  unfolding OrderId.sequence route_order
  replay_at sym_id msg router = elim (get_elem? router.seq_list sym_id) [
    | none ↦ panic
    | some seq ↦ route_order (new_order msg) (record router {
      seq_list = raise_seq router.seq_list sym_id seq (OrderId.sequence msg.order_id);
    })
  ]

  unfoldable pub replay_order : NewOrderMessage → Cmd SingleRouter (Result RouterError (Unit {0}))
  unfolding get_symbol_id replay_at
  replay_order msg router = elim (get_symbol_id msg.symbol router.symbols) [
    | none ↦ ok (failure (invalid_symbol msg.symbol)) router
    | some sym_id ↦ replay_at sym_id msg router
  ]

  unfoldable pub replay_message : EngineMessage → Cmd SingleRouter (Result RouterError (Unit {0}))
  unfolding replay_order route_order
  replay_message (new_order msg) = replay_order msg
  replay_message msg = route_order msg

  -- the loop of init_wal over the messages that its reader yields
  unfoldable pub replay_all : List EngineMessage → Cmd SingleRouter (Unit {0})
  unfolding replay_message
  replay_all [] = pure tt
  replay_all (msg ∷ rest) = do
    r ← replay_message msg
    elim r [ failure e ↦ panics | success _ ↦ replay_all rest ]
