-- ===== src/TradeTypes/Symbol.antt =====
-- Symbol of src/libcix/order.rs: eight bytes, of which those after the text are 0. The bytes are
-- numbers below 256.
use cixrs.Base.{
  ℕ, zero, suc, ◌-◌, ◌≤◌, ◌<◌, ◌≡◌, refl, sym, ap, ◌∙◌, if◌then◌else◌, ltb, arith, Result, success,
  failure, List, [], ◌∷◌, ◌++◌, false, length, replicate,
}

abbrev pub symbol_max_length : ℕ
symbol_max_length = 8

-- `s` stands for an array of eight bytes.
pub record Symbol : Type 0 where
  pub s : List ℕ

unfoldable pub new : Symbol
new = record { s = replicate symbol_max_length 0 }

-- `dest[..src.len()].clone_from_slice(src)`, for a source no longer than the destination
abbrev pub overwrite : {A : Type 0} → List A → List A → List A
overwrite dest [] = dest
overwrite [] (x ∷ xs) = []
overwrite (d ∷ dest) (x ∷ xs) = x ∷ overwrite dest xs

unfoldable pub from_bytes : List ℕ → Result (Unit {0}) Symbol
unfolding new
from_bytes bytes =
    if ltb symbol_max_length (length bytes)
    then failure tt
    else success (record { s = overwrite new.s bytes })

unfoldable pub to_bytes : Symbol → List ℕ
to_bytes symbol = symbol.s

length-overwrite : (dest xs : List ℕ) → length (overwrite dest xs) ≡ length dest
length-overwrite dest [] = refl
length-overwrite [] (x ∷ xs) = refl
length-overwrite (d ∷ dest) (x ∷ xs) = ap suc (length-overwrite dest xs)

overwrite-zeros :
    (n : ℕ) (xs : List ℕ)
    → length xs ≤ n
    → overwrite (replicate n 0) xs ≡ xs ++ replicate (n - length xs) 0
overwrite-zeros n [] h = ap (λ z. replicate z 0) (omega arith)
overwrite-zeros zero (x ∷ xs) h = absurd (omega arith)
overwrite-zeros (suc n) (x ∷ xs) h =
    ap (◌∷◌ x) (overwrite-zeros n xs (omega arith))
    ∙ ap (λ z. x ∷ (xs ++ replicate z 0)) (omega arith)

-- A symbol of at most eight bytes is these bytes followed by zeros.
pub from_bytes-padded :
    (bytes : List ℕ)
    → length bytes ≤ 8
    → from_bytes bytes ≡ success (record { s = bytes ++ replicate (8 - length bytes) 0 })
unfolding from_bytes new
from_bytes-padded bytes h =
    let e : ltb symbol_max_length (length bytes) ≡ false = ground arith in
    rw e (ap (λ z. success (record { s = z })) (overwrite-zeros 8 bytes h))

-- Text bytes, none of them 0.
abbrev pub IsText : List ℕ → Type 0
IsText [] = Unit {0}
IsText (x ∷ xs) = (0 < x) × IsText xs

-- The text of a symbol: its bytes up to the first 0.
abbrev pub text : List ℕ → List ℕ
text [] = []
text (zero ∷ xs) = []
text (suc x ∷ xs) = suc x ∷ text xs

text-padded : (xs : List ℕ) (n : ℕ) → IsText xs → text (xs ++ replicate n 0) ≡ xs
text-padded [] zero h = refl
text-padded [] (suc n) h = refl
text-padded (zero ∷ xs) n h = absurd (omega (arith, h.0))
text-padded (suc x ∷ xs) n h = ap (◌∷◌ (suc x)) (text-padded xs n h.1)

-- A text of at most eight bytes, none of them 0, is a symbol from whose eight bytes it is read back.
pub from_bytes-text :
    (bytes : List ℕ)
    → length bytes ≤ 8
    → IsText bytes
    → (symbol : Symbol) × (from_bytes bytes ≡ success symbol)
      × (text (to_bytes symbol) ≡ bytes)
      × (length (to_bytes symbol) ≡ 8)
unfolding to_bytes
from_bytes-text bytes h t = (
  _,
  from_bytes-padded bytes h,
  text-padded bytes (8 - length bytes) t,
  ap length (sym (overwrite-zeros 8 bytes h)) ∙ length-overwrite (replicate 8 0) bytes,
)
