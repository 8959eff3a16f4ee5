-- ===== src/Server/Wal/Cells.antt =====
-- Data for the examples of src/server: an encoding in which a number takes one cell of the file and a message
-- begins with the four cells of its variant's number, and a log in it.
use cixrs.Base.{
  ℕ, zero, suc, ◌≤◌, ◌<◌, ◌≡◌, refl, inl, inr, Option, none, List, [], ◌∷◌, ◌++◌, length, take,
  replicate, arith, leb, Result, success, failure, if◌then◌else◌,
}
use cixrs.TradeTypes.OrderId.{OrderSide, buy, sell}
use cixrs.Server.Messages.{
  EngineMessage, null_message, new_order, cancel_order, serialization_message,
  get_open_orders_message,
}
use cixrs.Server.Wal.{Codec, WalError, Disk, Wal, contents, get_all_files}
use cixrs.Server.Wal.File.{IsCodec, take-append}
use cixrs.Server.Wal.Write.{IsLog}

abbrev pub side_cell : OrderSide → ℕ
side_cell buy = 0
side_cell sell = 1

abbrev pub cell_side : ℕ → OrderSide
cell_side zero = buy
cell_side (suc n) = sell

abbrev pub cells : EngineMessage → List ℕ
cells null_message = 0 ∷ 0 ∷ 0 ∷ 0 ∷ []
cells (new_order m) =
    1
    ∷ 0
    ∷ 0
    ∷ 0
    ∷ m.user
    ∷ m.order_id.id.val
    ∷ side_cell m.side
    ∷ m.price.bits
    ∷ m.quantity
    ∷ length m.symbol.s
    ∷ m.symbol.s
cells (cancel_order m) = 2 ∷ 0 ∷ 0 ∷ 0 ∷ m.user ∷ m.order_id.id.val ∷ []
cells (serialization_message n) = 3 ∷ 0 ∷ 0 ∷ 0 ∷ n ∷ []
cells (get_open_orders_message s) = 4 ∷ 0 ∷ 0 ∷ 0 ∷ s.user ∷ s.seq ∷ []

abbrev pub body : ℕ → List ℕ → Result (Unit {0}) EngineMessage
body zero rest = success null_message
body (suc zero) (u ∷ i ∷ s ∷ p ∷ q ∷ n ∷ rest) = success (
    new_order (record {
      user = u;
      order_id = record { id = record { val = i } };
      symbol = record { s = take n rest };
      side = cell_side s;
      price = record { bits = p };
      quantity = q;
    }))
body (suc (suc zero)) (u ∷ i ∷ rest) =
    success (cancel_order (record { user = u; order_id = record { id = record { val = i } } }))
body (suc (suc (suc zero))) (n ∷ rest) = success (serialization_message n)
body (suc (suc (suc (suc zero)))) (u ∷ s ∷ rest) =
    success (get_open_orders_message (record { user = u; seq = s }))
body n rest = failure tt

abbrev pub decode : List ℕ → Result (Unit {0}) EngineMessage
decode (t ∷ a ∷ b ∷ c ∷ rest) = body t rest
decode _ = failure tt

abbrev pub cell_codec : Codec
cell_codec = record {
  serialize = λ m n. if leb (length (cells m)) n then success (cells m) else failure tt;
  deserialize = decode;
  serialized_size = λ m. length (cells m);
}

cell_side-side_cell : (d : OrderSide) → cell_side (side_cell d) ≡ d
cell_side-side_cell buy = refl
cell_side-side_cell sell = refl

pub cells-decode : (m : EngineMessage) (rest : List ℕ) → decode (cells m ++ rest) ≡ success m
cells-decode null_message rest = refl
cells-decode (new_order m) rest =
    rw (take-append (length m.symbol.s) m.symbol.s rest refl, cell_side-side_cell m.side) refl
cells-decode (cancel_order m) rest = refl
cells-decode (serialization_message n) rest = refl
cells-decode (get_open_orders_message s) rest = refl

pub zeros-decode : (n : ℕ) → 4 ≤ n → decode (replicate n 0) ≡ success null_message
zeros-decode (suc (suc (suc (suc n)))) h = refl
zeros-decode (suc (suc (suc zero))) h = absurd (omega (arith, h))
zeros-decode (suc (suc zero)) h = absurd (omega (arith, h))
zeros-decode (suc zero) h = absurd (omega (arith, h))
zeros-decode zero h = absurd (omega (arith, h))

pub short-decode : (n : ℕ) → n < 4 → decode (replicate n 0) ≡ failure tt
short-decode (suc (suc (suc (suc n)))) h = absurd (omega (arith, h))
short-decode (suc (suc (suc zero))) h = refl
short-decode (suc (suc zero)) h = refl
short-decode (suc zero) h = refl
short-decode zero h = refl

pub cells_tag : (m : EngineMessage) → 4 ≤ length (cells m)
cells_tag null_message = omega arith
cells_tag (new_order m) = omega arith
cells_tag (cancel_order m) = omega arith
cells_tag (serialization_message n) = omega arith
cells_tag (get_open_orders_message s) = omega arith

pub fit :
    (c : List ℕ) (k n : ℕ)
    → k ≤ n
    → ◌≡◌ {A = Result (Unit {0}) (List ℕ)} (if leb k n then success c else failure tt) (success c)
fit c k n h = ground (arith, h)

pub unfit :
    (c : List ℕ) (k n : ℕ)
    → n < k
    → ◌≡◌ {A = Result (Unit {0}) (List ℕ)} (if leb k n then success c else failure tt) (failure tt)
unfit c k n h = ground (arith, h)

abbrev pub is_cell_codec : IsCodec cell_codec
is_cell_codec = record {
  encode = cells;
  fits = λ m n h. fit (cells m) (length (cells m)) n h;
  too_long = λ m n h. unfit (cells m) (length (cells m)) n h;
  size = λ m. refl;
  tag = cells_tag;
  prefix = cells-decode;
  zeros = zeros-decode;
  short = short-decode;
}

abbrev pub no_fault : ℕ → Option WalError
no_fault i = none

-- A file of twelve cells whose log is a message of five, at the index 2.
abbrev pub one : EngineMessage
one = serialization_message 9

abbrev pub twelve : Disk
twelve = (2, cells one ++ replicate 7 0) ∷ []

abbrev pub at_one : Wal
at_one = record { index = 2; file_size = 12; wal = record { file = 2; cursor = 5; capacity = 12 } }

pub none_above : (j : ℕ) → 2 < j → contents j twelve ≡ none
unfolding contents
none_above j lt = ground arith

unfoldable pub one-IsLog : IsLog is_cell_codec no_fault twelve at_one (one ∷ [])
unfolding get_all_files contents
one-IsLog = record {
  older = [];
  newest = one ∷ [];
  log_is = refl;
  files = refl;
  logged = tt;
  current = record {
    tail = 7;
    bytes = refl;
    readable = inr (omega arith);
    opens = refl;
    entries = (refl, tt);
  };
  cursor = refl;
  capacity = refl;
  below = tt;
  above = none_above;
  index = inl refl;
}

-- The second message does not fit into the seven cells that are left and begins a new file.
abbrev pub two : EngineMessage
two = new_order (record {
  user = 7;
  order_id = record { id = record { val = 3 } };
  symbol = record { s = 65 ∷ 66 ∷ [] };
  side = buy;
  price = record { bits = 1 };
  quantity = 30;
})
