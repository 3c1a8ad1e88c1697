-- ===== src/Text.antt =====
-- Go strings as byte lists: literals, slices, and the numerals that `fmt` and `strconv` print.
pub mod Hex
pub mod Decimal
pub mod Slices
use dexmd.Base.Int.{negsuc, pos, ℤ}
use Prim.Native.Char.{code}
use Prim.Native.String.{String}
use mathlib.Core.List.{reverse}
use dexmd.Base.{
  nat_eq, ◌^◌, ◌==◌, ◌||◌, ℕ, suc, zero, ◌+◌, ◌-◌, ◌*◌, ◌/◌, ◌%◌, List, [], ◌∷◌, ◌++◌, map, Bytes,
  Option, none, some, Outcome, ok, panic, length, take, drop, ltb, leb, ◌&&◌, if◌then◌else◌,
}

-- A string literal of the source.
abbrev pub text : String → Bytes
text String.[] = []
text (String.◌∷◌ c s) = code c ∷ text s

-- `s[lo:hi]` panics when the bounds are out of order or out of range.
unfoldable pub slice : ℕ → ℕ → Bytes → Outcome Bytes
slice lo hi s = if leb lo hi && leb hi (length s) then ok (take (hi - lo) (drop lo s)) else panic

-- One digit of `%X`.
unfoldable pub hex_digit : ℕ → ℕ
hex_digit d = if ltb d 10 then b'0' + d else b'A' + (d - 10)

-- `%0wX` of a value below 16 ^ w: exactly w digits.
unfoldable pub hex : ℕ → ℕ → Bytes
unfolding hex_digit
hex zero n = []
hex (suc w) n = hex w (n / 16) ++ hex_digit (n % 16) ∷ []

-- The value of a digit, as `strconv.ParseUint` reads it in base 16.
unfoldable pub hex_value : ℕ → Option ℕ
hex_value c =
    if leb b'0' c && leb c b'9'
    then some (c - b'0')
    else if leb b'A' c && leb c b'F'
    then some (c - b'A' + 10)
    else if leb b'a' c && leb c b'f'
    then some (c - b'a' + 10)
    else none

-- The digits read so far, then the rest; a value of 2 ^ 32 or more is a range error.
unfoldable pub parse_digits : ℕ → Bytes → Option ℕ
parse_digits acc [] = some acc
parse_digits acc (c ∷ s) = elim (hex_value c) [
  | none ↦ none
  | some d ↦ if ltb (acc * 16 + d) 4294967296 then parse_digits (acc * 16 + d) s else none
]

-- `strconv.ParseUint(s, 16, 32)`; the empty string is a syntax error.
unfoldable pub parse_hex32 : Bytes → Option ℕ
unfolding hex_value parse_digits
parse_hex32 [] = none
parse_hex32 (c ∷ s) = parse_digits 0 (c ∷ s)

-- The decimal digits, least significant first; every number has at least one.
unfoldable pub digits : ℕ → ℕ → List ℕ
digits zero n = []
digits (suc fuel) n = let rest = digits fuel (n / 10) in if ltb n 10 then n ∷ [] else n % 10 ∷ rest

-- `strconv.Itoa` and `strconv.FormatUint(n, 10)` of a number that is not negative.
unfoldable pub decimal : ℕ → Bytes
unfolding digits
decimal n = reverse (map (λ d. b'0' + d) (digits (suc n) n))

-- `strconv.Itoa` of an int.
unfoldable pub itoa : ℤ → Bytes
itoa (pos n) = decimal n
itoa (negsuc n) = b'-' ∷ decimal (suc n)

-- `string(n)` of an integer is the UTF-8 encoding of a code point; what is none gives U+FFFD.
unfoldable pub rune_string : ℕ → Bytes
rune_string n =
    if ltb n 0x80
    then n ∷ []
    else if ltb n 0x800
    then (0xC0 + n / 64) ∷ (0x80 + n % 64) ∷ []
    else if ltb 0x10FFFF n || (leb 0xD800 n && leb n 0xDFFF)
    then 0xEF ∷ 0xBF ∷ 0xBD ∷ []
    else if ltb n 0x10000
    then (0xE0 + n / 4096) ∷ (0x80 + n / 64 % 64) ∷ (0x80 + n % 64) ∷ []
    else (0xF0 + n / 262144) ∷ (0x80 + n / 4096 % 64) ∷ (0x80 + n / 64 % 64) ∷ (0x80 + n % 64) ∷ []

-- `hex.EncodeToString`, in lower case.
unfoldable pub hex_char : ℕ → ℕ
hex_char d = if ltb d 10 then b'0' + d else b'a' + (d - 10)

unfoldable pub hex_string : Bytes → Bytes
unfolding hex_char
hex_string [] = []
hex_string (b ∷ bs) = hex_char (b / 16) ∷ hex_char (b % 16) ∷ hex_string bs

-- The digits of `strconv.Atoi` read so far, then the rest; beyond the limit it is a range error.
unfoldable pub atoi_digits : ℕ → ℕ → Bytes → Option ℕ
atoi_digits limit acc [] = if leb acc limit then some acc else none
atoi_digits limit acc (c ∷ s) =
    let rest = atoi_digits limit (acc * 10 + (c - b'0')) s in
    if leb b'0' c && leb c b'9' then rest else none

unfoldable pub negative : ℕ → ℤ
negative zero = pos 0
negative (suc n) = negsuc n

-- The digits after a sign: at least one.
unfoldable pub atoi_magnitude : ℕ → Bytes → Option ℕ
unfolding atoi_digits
atoi_magnitude limit [] = none
atoi_magnitude limit (c ∷ s) = atoi_digits limit 0 (c ∷ s)

-- `strconv.Atoi`
unfoldable pub atoi : Bytes → Option ℤ
unfolding atoi_magnitude negative
atoi [] = none
atoi (c ∷ s) =
    if c == b'-'
    then elim (atoi_magnitude (2 ^ 63) s) [ none ↦ none | some n ↦ some (negative n) ]
    else if c == b'+'
    then elim (atoi_magnitude (2 ^ 63 - 1) s) [ none ↦ none | some n ↦ some (pos n) ]
    else elim (atoi_magnitude (2 ^ 63 - 1) (c ∷ s)) [ none ↦ none | some n ↦ some (pos n) ]
