-- ===== src/Prelude/Decimal.antt =====
-- Integers as decimal text: Atoi and Itoa of package strconv, and the int of the code, 64 bits wide.
use Prim.Native.Nat.{ℕ, zero, suc, ◌+◌, ◌-◌, ◌*◌, ◌/◌, ◌%◌, ◌^◌, ◌<◌}
use mathlib.Core.Path.{◌≡◌, refl, sym, ◌∙◌, ap}
use mathlib.Core.Logic.{inl, inr}
use mathlib.Core.Bool.{Bool, true, false, ◌&&◌}
use mathlib.Core.Option.{Option, none, some}
use mathlib.Core.List.{[], ◌∷◌}
use native.Mathlib.Omega.{arith}
use go_espn_api.Prelude.Tests.{leb, ltb, ◌==◌, if◌then◌else◌, Bool-cases, ltb→lt, ltb→le, lt→ltb}
use go_espn_api.Prelude.Text.{Bytes, is_empty}
use go_espn_api.Prelude.Int.{ℤ, pos, negsuc}

-- The int that a word of 64 bits stands for.
abbrev pub int_of_word : ℕ → ℤ
int_of_word w = if ltb w (2 ^ 63) then pos w else negsuc (2 ^ 64 - w - 1)

abbrev pub is_digit : ℕ → Bool
is_digit c = leb b'0' c && leb c b'9'

-- The value of digits behind those that are read.
unfoldable pub digits_value : Bytes → ℕ → Option ℕ
digits_value [] n = some n
digits_value (c ∷ s) n =
    let rest = digits_value s (n * 10 + (c - b'0')) in if is_digit c then rest else none

-- The value of digits, of which there is at least one.
unfoldable pub atoi_digits : Bytes → Option ℕ
unfolding digits_value
atoi_digits [] = none
atoi_digits (c ∷ s) = digits_value (c ∷ s) 0

abbrev positive : Option ℕ → Option ℤ
positive none = none
positive (some n) = if ltb n (2 ^ 63) then some (pos n) else none

abbrev negative : Option ℕ → Option ℤ
negative none = none
negative (some zero) = some (pos 0)
negative (some (suc n)) = if ltb n (2 ^ 63) then some (negsuc n) else none

-- strconv.Atoi: a sign may stand before the digits; a value that is no int is an error.
unfoldable pub atoi : Bytes → Option ℤ
unfolding atoi_digits
atoi [] = none
atoi (c ∷ s) =
    if c == b'-'
    then negative (atoi_digits s)
    else if c == b'+'
    then positive (atoi_digits s)
    else positive (atoi_digits (c ∷ s))

-- The digits of n before a text, of which there are at most as many as the fuel.
unfoldable pub decimal : ℕ → ℕ → Bytes → Bytes
decimal zero n tail = tail
decimal (suc fuel) n tail =
    let rest = decimal fuel (n / 10) ((n % 10 + b'0') ∷ tail) in
    if ltb n 10 then (n + b'0') ∷ tail else rest

-- strconv.Itoa, of what is not negative.
unfoldable pub itoa : ℕ → Bytes
unfolding decimal
itoa n = decimal (suc n) n []

digits_value-decimal :
    (fuel n : ℕ) (tail : Bytes)
    → n < fuel
    → digits_value (decimal fuel n tail) 0 ≡ digits_value tail n
unfolding digits_value decimal
digits_value-decimal zero n tail h = elim h [ ]
digits_value-decimal (suc fuel) n tail h = elim (Bool-cases (ltb n 10)) [
  | inl y ↦
      let small = ltb→lt n 10 y in
      let e : is_digit (n + 48) ≡ true = ground arith in
      rw (y, e) (ap (digits_value tail) (omega arith))
  | inr m ↦
      let e : is_digit (n % 10 + 48) ≡ true = ground arith in
      let v : n / 10 * 10 + (n % 10 + 48 - 48) ≡ n = omega arith in
      rw m (
        digits_value-decimal fuel (n / 10) ((n % 10 + 48) ∷ tail) (omega (arith, ltb→le n 10 m))
        ∙ rw e (ap (digits_value tail) v))
]

decimal-cons :
    (fuel n : ℕ) (tail : Bytes)
    → n < fuel
    → (c : ℕ) × (s : Bytes) × (decimal fuel n tail ≡ c ∷ s) × (is_digit c ≡ true)
unfolding decimal
decimal-cons zero n tail h = elim h [ ]
decimal-cons (suc fuel) n tail h = elim (Bool-cases (ltb n 10)) [
  | inl y ↦ let small = ltb→lt n 10 y in (n + 48, tail, rw y refl, ground arith)
  | inr m ↦
      let (c, s, e, d) =
        decimal-cons fuel (n / 10) ((n % 10 + 48) ∷ tail) (omega (arith, ltb→le n 10 m)) in
      (c, s, rw m e, d)
]

atoi-digit :
    (c : ℕ) (s : Bytes) → is_digit c ≡ true → atoi (c ∷ s) ≡ positive (digits_value (c ∷ s) 0)
unfolding atoi atoi_digits
atoi-digit c s d = ground arith

-- What Itoa writes, Atoi reads.
pub atoi-itoa : (n : ℕ) → n < 2 ^ 63 → atoi (itoa n) ≡ some (pos n)
unfolding itoa digits_value
atoi-itoa n h =
    let (c, s, e, d) = decimal-cons (suc n) n [] (omega arith) in
    let v : digits_value (c ∷ s) 0 ≡ some n =
      ap (λ z. digits_value z 0) (sym e) ∙ digits_value-decimal (suc n) n [] (omega arith) in
    ap atoi e ∙ atoi-digit c s d ∙ ap positive v ∙ rw (lt→ltb n (2 ^ 63) h) refl

pub itoa-not_empty : (n : ℕ) → is_empty (itoa n) ≡ false
unfolding itoa
itoa-not_empty n = let (c, s, e, d) = decimal-cons (suc n) n [] (omega arith) in ap is_empty e
