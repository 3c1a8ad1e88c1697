-- ===== src/Text/Decimal.antt =====
-- Two numbers with the same decimal numeral are equal, so a database key made from a number names
-- that number alone.
use mathlib.Core.Path.{subst}
use mathlib.Core.List.{reverse, reverse-reverse}
use dexmd.Base.{
  List, ◌≢◌, All, All-reverse, ◌≤◌, ℕ, zero, suc, ◌+◌, ◌-◌, ◌*◌, ◌/◌, ◌<◌, ◌≡◌, sym, ap, ◌∙◌, [],
  ◌∷◌, map, Bytes, arith,
}
use dexmd.Base.Int.{ℤ, pos, negsuc}
use dexmd.Text.{digits, decimal, itoa}

-- The number that a numeral stands for, its last digit first.
value : Bytes → ℕ
value [] = 0
value (c ∷ s) = c - b'0' + 10 * value s

value-digits : (f n : ℕ) → n < f → value (map (λ d. b'0' + d) (digits f n)) ≡ n
unfolding value digits
value-digits zero n h = absurd (omega arith)
value-digits (suc f) n h = ground (arith, value-digits f (n / 10))

read_decimal : Bytes → ℕ
read_decimal s = value (reverse s)

read_decimal-decimal : (n : ℕ) → read_decimal (decimal n) ≡ n
unfolding read_decimal decimal
read_decimal-decimal n = rw reverse-reverse (value-digits (suc n) n (omega arith))

pub decimal-injective : (m n : ℕ) → decimal m ≡ decimal n → m ≡ n
decimal-injective m n e =
    sym (read_decimal-decimal m) ∙ (ap read_decimal e ∙ read_decimal-decimal n)

chars_large : (ds : List ℕ) → All (λ c. b'0' ≤ c) (map (λ d. b'0' + d) ds)
chars_large [] = tt
chars_large (d ∷ ds) = (omega arith, chars_large ds)

decimal_chars : (n : ℕ) → All (λ c. b'0' ≤ c) (decimal n)
unfolding decimal
decimal_chars n = All-reverse (λ c. b'0' ≤ c) _ (chars_large (digits (suc n) n))

minus_not_digit : (s : Bytes) (m : ℕ) → b'-' ∷ s ≢ decimal m
minus_not_digit s m e = absurd (omega (arith, large.0))
  where
    large : All (λ c. b'0' ≤ c) (b'-' ∷ s)
    large = subst (λ t. All (λ c. b'0' ≤ c) t) (sym e) (decimal_chars m)

tail_eq : {a b : ℕ} {s t : Bytes} → a ∷ s ≡ b ∷ t → s ≡ t
tail_eq e = cc

-- Two ints with the same `strconv.Itoa` are equal.
pub itoa-injective : (a b : ℤ) → itoa a ≡ itoa b → a ≡ b
unfolding itoa
itoa-injective (pos m) (pos n) e = ap pos (decimal-injective m n e)
itoa-injective (pos m) (negsuc n) e = absurd (minus_not_digit (decimal (suc n)) m (sym e))
itoa-injective (negsuc m) (pos n) e = absurd (minus_not_digit (decimal (suc m)) n e)
itoa-injective (negsuc m) (negsuc n) e =
    ap negsuc (omega (arith, decimal-injective (suc m) (suc n) (tail_eq e)))
