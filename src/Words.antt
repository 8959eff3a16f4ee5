-- ===== src/Words.antt =====
-- The integers of src/libcix/order.rs: `|` of fields that do not overlap and `&` with a mask of low
-- ones, as arithmetic, at every width.
use Prim.Native.Nat.{max, digits, bit_and-bitwise, bit_or-bitwise}
use native.Mathlib.Nat.{pow-suc, one-le-pow}
use cixrs.Base.{
  ℕ, zero, suc, ◌+◌, ◌-◌, ◌*◌, ◌/◌, ◌%◌, ◌^◌, ◌≤◌, ◌<◌, min, bit_and, bit_or, ◌≡◌, refl, ap, arith,
}

-- w-bit shifts: the bits above the width are lost
abbrev pub shift_left : ℕ → ℕ → ℕ → ℕ
shift_left w a k = (a * 2 ^ k) % 2 ^ w

abbrev pub shift_right : ℕ → ℕ → ℕ
shift_right a k = a / 2 ^ k

-- (1 << k) - 1
abbrev pub mask : ℕ → ℕ
mask k = 2 ^ k - 1

double_shift : (q k : ℕ) → q * 2 ^ suc k ≡ 2 * (q * 2 ^ k)
double_shift q k = omega (arith, ap (λ (t : ℕ). q * t) (pow-suc 2 k))

or_digits : (n k q r : ℕ) → r ≤ n → r < 2 ^ k → digits (λ b. b) max n r (q * 2 ^ k) ≡ q * 2 ^ k + r
or_digits zero k q r h f = omega arith
or_digits (suc n) k q zero h f = omega arith
or_digits (suc n) zero q (suc r) h f = absurd (omega arith)
or_digits (suc n) (suc k) q (suc r) h f =
    let e = double_shift q k in
    let half : (q * 2 ^ suc k) / 2 ≡ q * 2 ^ k = omega (arith, e) in
    let even : (q * 2 ^ suc k) % 2 ≡ 0 = omega (arith, e) in
    let ih = or_digits n k q (suc r / 2) (omega arith) (omega (arith, pow-suc 2 k)) in
    rw (half, even, ih) (omega (arith, e))

and_digits :
    (n k q r a : ℕ) → a ≡ q * 2 ^ k + r → a ≤ n → r < 2 ^ k → digits (λ b. 0) min n a (mask k) ≡ r
and_digits zero k q r a e h f = omega (arith, e)
and_digits (suc n) k q r zero e h f = omega (arith, e)
and_digits (suc n) zero q r (suc a) e h f =
    omega
      (arith, and_digits n zero (suc a / 2) 0 (suc a / 2) (omega arith) (omega arith) (omega arith))
and_digits (suc n) (suc k) q r (suc a) e h f =
    let p = pow-suc 2 k in
    let d = double_shift q k in
    let half : mask (suc k) / 2 ≡ mask k = omega (arith, p, one-le-pow k 2) in
    let odd : mask (suc k) % 2 ≡ 1 = omega (arith, p, one-le-pow k 2) in
    let ih =
      and_digits n k q (r / 2) (suc a / 2) (omega (arith, e, d)) (omega arith) (omega (arith, p)) in
    rw (half, odd, ih) (omega (arith, e, d))

-- A field below another is their sum.
pub bit_or_fields : (k q r : ℕ) → r < 2 ^ k → bit_or r (q * 2 ^ k) ≡ q * 2 ^ k + r
bit_or_fields k q r f = simp bit_or-bitwise (or_digits r k q r (omega arith) f)

-- A mask of ones takes the low bits.
pub bit_and-mask : (k q r : ℕ) → r < 2 ^ k → bit_and (q * 2 ^ k + r) (mask k) ≡ r
bit_and-mask k q r f =
    simp bit_and-bitwise (and_digits (q * 2 ^ k + r) k q r (q * 2 ^ k + r) refl (omega arith) f)
