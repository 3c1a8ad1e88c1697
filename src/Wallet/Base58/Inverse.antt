-- ===== src/Wallet/Base58/Inverse.antt =====
-- `base58Encoding` as a whole.
use mathlib.Core.List.{reverse-cons}
use dexmd.Wallet.Base58.Digits.{
  IsCanonical, IsCanonical-skip_zeros, spell-reverse, spell-skip_zeros, digit_chars-Written,
  AreDigits-skip_zeros, spell, index_in, ones, read58,
}
use native.Mathlib.Nat.{pow-le-pow_left}
use mathlib.Core.Path.{ap₂}
use dexmd.Wallet.Base58.Unique.{
  canonical_unique, length-le_of_lt, spell-lt, leading_zeros-split, IsCanonical-leading_zeros,
}
use dexmd.Base.{
  ap, sym, ◌≤◌, length-append, ◌∙◌, ◌++◌, ok, List, ℕ, All-append, zero, suc, ◌+◌, ◌*◌, ◌/◌, ◌^◌,
  ◌<◌, ◌≡◌, refl, [], ◌∷◌, Bytes, arith, length, All, replicate, length-replicate,
}
use dexmd.Wallet.{reverse, skip_zeros, base58_encoding, leading_zeros, add_bytes, set_bytes}
use dexmd.Wallet.Base58.Carry.{
  AreDigits, Filled, add_bytes_fills, value-replicate, AreDigits-replicate, ZeroFrom-replicate,
}
use dexmd.Wallet.Base58.Bound.{size_fits, set_bytes-lt}

AreBytes-leading_zeros :
    (bin : Bytes) → All (λ b. b < 256) bin → All (λ b. b < 256) (leading_zeros bin).1
unfolding leading_zeros
AreBytes-leading_zeros [] a = tt
AreBytes-leading_zeros (zero ∷ bin) a = AreBytes-leading_zeros bin a.1
AreBytes-leading_zeros (suc b ∷ bin) a = a

set_bytes-leading_zeros : (bin : Bytes) → set_bytes 0 (leading_zeros bin).1 ≡ set_bytes 0 bin
unfolding leading_zeros set_bytes
set_bytes-leading_zeros [] = refl
set_bytes-leading_zeros (zero ∷ bin) = set_bytes-leading_zeros bin
set_bytes-leading_zeros (suc b ∷ bin) = refl

-- The buffer after the outer loop.
filled :
    (rest : Bytes)
    → All (λ b. b < 256) rest
    → let size = length rest * 138 / 100 + 1 in
      Filled (set_bytes 0 rest) size (add_bytes 0 rest (replicate size 0))
filled rest a =
    let size = length rest * 138 / 100 + 1 in
    let start = value-replicate size in
    let len : length {A = ℕ} (replicate size 0) ≡ size = length-replicate size 0 in
    let fits : set_bytes 0 rest < 58 ^ size =
      omega (arith, set_bytes-lt 0 rest a, size_fits (length rest)) in
    let f =
      add_bytes_fills 0 rest (replicate size 0) (ZeroFrom-replicate size) (AreDigits-replicate size)
        (rw (start, len) fits) in
    rw (start, len) at f

AreDigits-append : (xs ys : List ℕ) → AreDigits xs → AreDigits ys → AreDigits (xs ++ ys)
AreDigits-append xs ys a b = All-append (λ d. d < 58) xs ys a b

AreDigits-reverse : (buf : List ℕ) → AreDigits buf → AreDigits (reverse buf)
AreDigits-reverse [] a = tt
AreDigits-reverse (d ∷ buf) a =
    rw (reverse-cons d buf)
      (AreDigits-append (reverse buf) (d ∷ []) (AreDigits-reverse buf a.1) (a.0, tt))

read58-ones : (n : ℕ) (s : Bytes) → read58 0 (replicate n b'1' ++ s) ≡ read58 0 s
unfolding read58 index_in
read58-ones zero s = refl
read58-ones (suc n) s = read58-ones n s

ones-replicate : (n : ℕ) (s : Bytes) → ones (replicate n b'1' ++ s) ≡ n + ones s
unfolding ones
ones-replicate zero s = omega arith
ones-replicate (suc n) s = omega (arith, ones-replicate n s)

-- What the encoding of some bytes looks like to a reader of base 58.
pub record Encoded (bin : Bytes) : Type 0 where
  pub chars : Bytes
  pub returns : base58_encoding bin ≡ ok chars
  pub number : read58 0 chars ≡ set_bytes 0 bin
  pub leading : ones chars ≡ (leading_zeros bin).0
  pub body : List ℕ
  pub parts : length chars ≡ (leading_zeros bin).0 + length body
  pub body_number : spell 0 body ≡ set_bytes 0 bin
  pub body_digits : AreDigits body

pub encoded : (bin : Bytes) → All (λ b. b < 256) bin → Encoded bin
unfolding base58_encoding
encoded bin a =
    let z = (leading_zeros bin).0 in
    let f = filled (leading_zeros bin).1 (AreBytes-leading_zeros bin a) in
    let ds = skip_zeros (reverse f.buf) in
    let are = AreDigits-skip_zeros (reverse f.buf) (AreDigits-reverse f.buf f.are_digits) in
    let w = digit_chars-Written ds are in
    let spelled : spell 0 ds ≡ set_bytes 0 bin =
      spell-skip_zeros (reverse f.buf)
      ∙ (spell-reverse f.buf ∙ (f.holds ∙ set_bytes-leading_zeros bin)) in
    record {
      chars = replicate z b'1' ++ w.chars;
      returns = rw (f.returns, w.returns);
      number = read58-ones z w.chars ∙ (w.read 0 ∙ spelled);
      leading =
          ones-replicate z w.chars
          ∙ (omega (arith, w.no_ones (IsCanonical-skip_zeros (reverse f.buf))));
      body = ds;
      parts =
          length-append (replicate z b'1') w.chars
          ∙ omega (arith, length-replicate {A = ℕ} z b'1', w.chars_length);
      body_number = spelled;
      body_digits = are;
    }

-- On bytes, `base58Encoding` never runs out of its buffer. It returns as many '1's as there are
-- leading zero bytes, and characters that spell in base 58 the number that the bytes spell.
pub base58_encoding_reads :
    (bin : Bytes)
    → All (λ b. b < 256) bin
    → (s : Bytes) × (base58_encoding bin ≡ ok s)
      × (read58 0 s ≡ set_bytes 0 bin)
      × (ones s ≡ (leading_zeros bin).0)
base58_encoding_reads bin a = let e = encoded bin a in (e.chars, e.returns, e.number, e.leading)

ok-injective : {a b : Bytes} → ok a ≡ ok b → a ≡ b
ok-injective e = cc

-- Two byte strings with the same result of `base58Encoding` are equal.
pub base58_encoding-injective :
    (a b : Bytes)
    → All (λ d. d < 256) a
    → All (λ d. d < 256) b
    → base58_encoding a ≡ base58_encoding b
    → a ≡ b
base58_encoding-injective a b ha hb same =
    let ea = encoded a ha in
    let eb = encoded b hb in
    let chars : ea.chars ≡ eb.chars = ok-injective (sym ea.returns ∙ (same ∙ eb.returns)) in
    let zeros : (leading_zeros a).0 ≡ (leading_zeros b).0 =
      sym ea.leading ∙ (ap ones chars ∙ eb.leading) in
    let numbers : set_bytes 0 (leading_zeros a).1 ≡ set_bytes 0 (leading_zeros b).1 =
      set_bytes-leading_zeros a
      ∙ (sym ea.number ∙ (ap (read58 0) chars ∙ (eb.number ∙ sym (set_bytes-leading_zeros b)))) in
    let rests =
      canonical_unique (leading_zeros a).1 (leading_zeros b).1 (AreBytes-leading_zeros a ha)
        (AreBytes-leading_zeros b hb) (IsCanonical-leading_zeros a) (IsCanonical-leading_zeros b)
        numbers in
    leading_zeros-split a
    ∙ (ap₂ (λ n (s : Bytes). replicate n 0 ++ s) zeros rests ∙ sym (leading_zeros-split b))

length-leading_zeros :
    (bin : Bytes) → length bin ≡ (leading_zeros bin).0 + length (leading_zeros bin).1
unfolding leading_zeros
length-leading_zeros [] = omega arith
length-leading_zeros (zero ∷ bin) = omega (arith, length-leading_zeros bin)
length-leading_zeros (suc b ∷ bin) = omega arith

-- A number needs at least as many digits in base 58 as in base 256.
numeral_length :
    (rest : Bytes) (n : ℕ) → IsCanonical rest → set_bytes 0 rest < 256 ^ n → length rest ≤ n
numeral_length [] n c h = omega arith
numeral_length (b ∷ rest) n c h = length-le_of_lt b rest n c h

-- The encoding is at least as long as the bytes.
pub length-le-base58_encoding :
    (bin s : Bytes) → All (λ b. b < 256) bin → base58_encoding bin ≡ ok s → length bin ≤ length s
length-le-base58_encoding bin s a h =
    let e = encoded bin a in
    let same : e.chars ≡ s = ok-injective (sym e.returns ∙ h) in
    let small : spell 0 e.body < (0 + 1) * 58 ^ length e.body = spell-lt 0 e.body e.body_digits in
    let wider : 58 ^ length e.body ≤ 256 ^ length e.body =
      pow-le-pow_left (omega arith) (length e.body) in
    let below : set_bytes 0 (leading_zeros bin).1 < 256 ^ length e.body =
      omega (arith, small, wider, e.body_number, set_bytes-leading_zeros bin) in
    let body =
      numeral_length (leading_zeros bin).1 (length e.body) (IsCanonical-leading_zeros bin) below in
    omega (arith, length-leading_zeros bin, body, e.parts, ap (λ (t : Bytes). length t) same)
