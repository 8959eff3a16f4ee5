-- ===== src/Run.antt =====
-- How a call ends in the model of a Rust function: it returns with a new state, it panics (a failed
-- `assert!`, an index out of bounds, an `unwrap` of nothing), or the model's fuel runs out.
use cixrs.Base.{◌≡◌, refl, Bool, true, false}

pub data Run (S A : Type 0) : Type 0 where
  ok : A → S → Run S A
  panic : Run S A
  out_of_fuel : Run S A

abbrev pub Cmd : Type 0 → Type 0 → Type 0
Cmd S A = S → Run S A

abbrev pub pure : {S A : Type 0} → A → Cmd S A
pure = ok

abbrev pub get_state : {S : Type 0} → Cmd S S
get_state s = ok s s

abbrev pub put_state : {S : Type 0} → S → Cmd S (Unit {0})
put_state t s = ok tt t

abbrev pub panics : {S A : Type 0} → Cmd S A
panics s = panic

abbrev pub assert : {S : Type 0} → Bool → Cmd S (Unit {0})
assert true s = ok tt s
assert false s = panic

module _ {S A B : Type 0} where
  abbrev pub and_then : Run S A → (A → Cmd S B) → Run S B
  and_then (ok a s) k = k a s
  and_then panic k = panic
  and_then out_of_fuel k = out_of_fuel

  infixl 5 ◌>>=◌ ◌>>◌
  abbrev pub ◌>>=◌ : Cmd S A → (A → Cmd S B) → Cmd S B
  m >>= k = λ s. and_then (m s) k

  abbrev pub ◌>>◌ : Cmd S A → Cmd S B → Cmd S B
  m >> n = m >>= λ _. n

-- A command on a part of the state: `within get set` runs it there and stores the part back.
module _ {S P A : Type 0} where
  abbrev pub stored : (P → S) → Run P A → Run S A
  stored set (ok a p) = ok a (set p)
  stored set panic = panic
  stored set out_of_fuel = out_of_fuel

  abbrev pub within : (S → P) → (S → P → S) → Cmd P A → Cmd S A
  within get set m = λ s. stored (set s) (m (get s))

-- Total correctness of a run: it returns, and its result and state satisfy `P`.
pub data Returns {S A : Type 0} (P : A → S → Type 0) : Run S A → Type 0 where
  returns : {a : A} {s : S} → P a s → Returns P (ok a s)

module _ {S A : Type 0} {P : A → S → Type 0} where
  pub Returns-bind :
      {B : Type 0} {Q : B → S → Type 0} {r : Run S A} {k : A → Cmd S B}
      → Returns P r
      → ((a : A) (s : S) → P a s → Returns Q (k a s))
      → Returns Q (and_then r k)
  Returns-bind (returns p) next = next _ _ p

  pub Returns-mono :
      {Q : A → S → Type 0} {r : Run S A}
      → Returns P r
      → ((a : A) (s : S) → P a s → Q a s)
      → Returns Q r
  Returns-mono (returns p) weaken = returns (weaken _ _ p)

  pub Returns-eq : {r r' : Run S A} → r ≡ r' → Returns P r' → Returns P r
  Returns-eq e h = rw e h

  pub Returns-inv : {r : Run S A} → Returns P r → (a : A) × (s : S) × (r ≡ ok a s) × P a s
  Returns-inv (returns p) = (_, _, refl, p)

module _ {S Z A : Type 0} {P : A → Z → Type 0} where
  pub Returns-stored :
      {Q : A → S → Type 0} {r : Run Z A} (set : Z → S)
      → Returns P r
      → ((a : A) (z : Z) → P a z → Q a (set z))
      → Returns Q (stored set r)
  Returns-stored set (returns p) weaken = returns (weaken _ _ p)
