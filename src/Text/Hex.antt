-- ===== src/Text/Hex.antt =====
-- What `fmt` prints in base 16, `strconv` reads back.
use native.Mathlib.Nat.{pow-suc}
use dexmd.Base.{
  ap, ◌∙◌, inl, inr, ℕ, zero, suc, ◌+◌, ◌*◌, ◌/◌, ◌%◌, ◌^◌, ◌<◌, ◌≡◌, refl, ◌++◌, [], ◌∷◌, Bytes,
  some, arith, length, length-append, Option-cases,
}
use dexmd.Text.{hex, hex_digit, hex_value, parse_digits, parse_hex32}

pub length-hex : (w n : ℕ) → length (hex w n) ≡ w
unfolding hex
length-hex zero n = refl
length-hex (suc w) n =
    omega (arith, length-append (hex w (n / 16)) (hex_digit (n % 16) ∷ []), length-hex w (n / 16))

hex_value-hex_digit : (d : ℕ) → d < 16 → hex_value (hex_digit d) ≡ some d
unfolding hex_value hex_digit
hex_value-hex_digit d h = ground arith

-- Reading one more digit at the end.
parse_digits-snoc :
    (acc : ℕ) (s : Bytes) (m d : ℕ)
    → parse_digits acc s ≡ some m
    → d < 16
    → m * 16 + d < 4294967296
    → parse_digits acc (s ++ hex_digit d ∷ []) ≡ some (m * 16 + d)
unfolding parse_digits
parse_digits-snoc acc [] m d e h b = ground (arith, hex_value-hex_digit d h)
parse_digits-snoc acc (c ∷ s) m d e h b = elim (Option-cases (hex_value c)) [
  | inl bad ↦ ground arith
  | inr (v, good) ↦ ground (arith, parse_digits-snoc (acc * 16 + v) s m d)
]

pub parse_digits-hex : (w n : ℕ) → n < 16 ^ w → n < 4294967296 → parse_digits 0 (hex w n) ≡ some n
unfolding parse_digits hex
parse_digits-hex zero n h b = ground arith
parse_digits-hex (suc w) n h b =
    let below : n / 16 < 16 ^ w = omega (arith, pow-suc 16 w) in
    let whole : n / 16 * 16 + n % 16 ≡ n = omega arith in
    parse_digits-snoc 0 (hex w (n / 16)) (n / 16) (n % 16)
      (parse_digits-hex w (n / 16) below (omega arith)) (omega arith) (omega arith)
    ∙ ap some whole

-- `ParseUint` in base 16 undoes `%0wX`.
pub parse_hex32-hex :
    (w n : ℕ) → n < 16 ^ suc w → n < 4294967296 → parse_hex32 (hex (suc w) n) ≡ some n
unfolding parse_hex32
parse_hex32-hex w n h b =
    starts_with_digit (hex (suc w) n) (length-hex (suc w) n) ∙ parse_digits-hex (suc w) n h b
  where
    starts_with_digit : (s : Bytes) → length s ≡ suc w → parse_hex32 s ≡ parse_digits 0 s
    starts_with_digit [] e = absurd (omega arith)
    starts_with_digit (c ∷ s) e = refl
