-- ===== src/TradeTypes/TradingId.antt =====
-- TradingId of src/libcix/order.rs: a 64-bit id of a symbol id (20 bits), metadata (4 bits) and a
-- sequence number (40 bits).
use cixrs.Base.{
  ℕ, ◌+◌, ◌*◌, ◌/◌, ◌%◌, ◌^◌, ◌<◌, bit_and, bit_or, ◌≡◌, refl, sym, ap, ◌∙◌, ltb, if◌then◌else◌,
  arith, Result, success, failure, false,
}
use cixrs.Words.{shift_left, shift_right, mask, bit_or_fields, bit_and-mask}

-- the strings of the errors of trade_types
pub data IdError : Type 0 where
  symbol_id_too_high : IdError
  metadata_too_high : IdError
  sequence_too_high : IdError
  not_an_order : IdError
  not_an_execution : IdError

pub record TradingId : Type 0 where
  pub val : ℕ

abbrev pub symbol_bits : ℕ
symbol_bits = 20

abbrev pub metadata_bits : ℕ
metadata_bits = 4

abbrev pub sequence_bits : ℕ
sequence_bits = 40

abbrev pub symbol_max : ℕ
symbol_max = mask symbol_bits

abbrev pub metadata_max : ℕ
metadata_max = mask metadata_bits

abbrev pub sequence_max : ℕ
sequence_max = mask sequence_bits

abbrev pub sequence_offset : ℕ
sequence_offset = 0

abbrev pub metadata_offset : ℕ
metadata_offset = sequence_offset + sequence_bits

abbrev pub symbol_offset : ℕ
symbol_offset = metadata_offset + metadata_bits

unfoldable pub new : ℕ → ℕ → ℕ → Result IdError TradingId
new symbol_id metadata seq =
    if ltb symbol_max symbol_id
    then failure symbol_id_too_high
    else (if ltb metadata_max metadata
        then failure metadata_too_high
        else (if ltb sequence_max seq
            then failure sequence_too_high
            else success (record {
              val =
                  bit_or
                    (bit_or (shift_left 64 seq sequence_offset)
                      (shift_left 64 metadata metadata_offset))
                    (shift_left 64 symbol_id symbol_offset);
            })))

unfoldable pub from_raw : ℕ → TradingId
from_raw raw = record { val = raw }

unfoldable pub raw : TradingId → ℕ
raw id = id.val

unfoldable pub symbol_id : TradingId → ℕ
symbol_id id = bit_and (shift_right id.val symbol_offset) symbol_max % 2 ^ 32

unfoldable pub metadata : TradingId → ℕ
metadata id = bit_and (shift_right id.val metadata_offset) metadata_max % 2 ^ 8

unfoldable pub sequence : TradingId → ℕ
sequence id = bit_and (shift_right id.val sequence_offset) sequence_max

-- The three fields side by side.
abbrev pub packed : ℕ → ℕ → ℕ → ℕ
packed s m q = s * 2 ^ 44 + (m * 2 ^ 40 + q)

new-packed :
    (s m q : ℕ)
    → s < 2 ^ 20
    → m < 2 ^ 4
    → q < 2 ^ 40
    → new s m q ≡ success (record { val = packed s m q })
unfolding new
new-packed s m q hs hm hq =
    let e1 : (q * 2 ^ 0) % 2 ^ 64 ≡ q = omega arith in
    let e2 : (m * 2 ^ 40) % 2 ^ 64 ≡ m * 2 ^ 40 = omega arith in
    let e3 : (s * 2 ^ 44) % 2 ^ 64 ≡ s * 2 ^ 44 = omega arith in
    let a1 : ltb symbol_max s ≡ false = ground arith in
    let a2 : ltb metadata_max m ≡ false = ground arith in
    let a3 : ltb sequence_max q ≡ false = ground arith in
    rw
      (
        a1,
        a2,
        a3,
        e1,
        e2,
        e3,
        bit_or_fields 40 m q hq,
        bit_or_fields 44 s (m * 2 ^ 40 + q) (omega arith),
      )
      refl

-- What the getters of an id return: `s`, `m` and `q`.
pub record Fields (id : TradingId) (s m q : ℕ) : Type 0 where
  pub symbol_id_is : symbol_id id ≡ s
  pub metadata_is : metadata id ≡ m
  pub sequence_is : sequence id ≡ q

packed-Fields :
    (s m q : ℕ) → s < 2 ^ 20 → m < 2 ^ 4 → q < 2 ^ 40 → Fields (record { val = packed s m q }) s m q
unfolding symbol_id metadata sequence
packed-Fields s m q hs hm hq = record {
  symbol_id_is =
      (let e : packed s m q / 2 ^ 44 ≡ 0 * 2 ^ 20 + s = omega arith in
        rw (e, bit_and-mask 20 0 s hs) (omega arith));
  metadata_is =
      (let e : packed s m q / 2 ^ 40 ≡ s * 2 ^ 4 + m = omega arith in
        rw (e, bit_and-mask 4 s m hm) (omega arith));
  sequence_is =
      (let e : packed s m q / 2 ^ 0 ≡ (s * 2 ^ 4 + m) * 2 ^ 40 + q = omega arith in
        rw (e, bit_and-mask 40 (s * 2 ^ 4 + m) q hq) refl);
}

-- An id made of a symbol id, metadata and a sequence number that fit their fields is a 64-bit number
-- from which the getters return these three.
pub new-Fields :
    (s m q : ℕ)
    → s < 2 ^ 20
    → m < 2 ^ 4
    → q < 2 ^ 40
    → (id : TradingId) × (new s m q ≡ success id) × Fields id s m q × (raw id < 2 ^ 64)
unfolding raw
new-Fields s m q hs hm hq =
    (_, new-packed s m q hs hm hq, packed-Fields s m q hs hm hq, omega arith)

-- An id is determined by its fields: every 64-bit number is the id that `new` makes of the symbol id,
-- the metadata and the sequence number read from it.
pub new-from_raw :
    (n : ℕ)
    → n < 2 ^ 64
    → new (symbol_id (from_raw n)) (metadata (from_raw n)) (sequence (from_raw n))
      ≡ success (from_raw n)
unfolding from_raw
new-from_raw n h =
    let s = n / 2 ^ 44 in
    let m = (n / 2 ^ 40) % 2 ^ 4 in
    let q = n % 2 ^ 40 in
    let hs : s < 2 ^ 20 = omega arith in
    let hm : m < 2 ^ 4 = omega arith in
    let hq : q < 2 ^ 40 = omega arith in
    let e : n ≡ packed s m q = omega arith in
    let f = packed-Fields s m q hs hm hq in
    ap
      (λ z.
        new (symbol_id (record { val = z })) (metadata (record { val = z }))
          (sequence (record { val = z })))
      e
    ∙ (rw (f.symbol_id_is, f.metadata_is, f.sequence_is) (new-packed s m q hs hm hq))
    ∙ ap (λ z. success (record { val = z })) (sym e)

-- `new` makes an id only of arguments that fit their fields.
pub new-success :
    (s m q : ℕ) (id : TradingId)
    → new s m q ≡ success id
    → (s < 2 ^ 20) × (m < 2 ^ 4) × (q < 2 ^ 40)
unfolding new
new-success s m q id h = ground arith
