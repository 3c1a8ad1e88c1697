-- ===== src/Wallet/Base58/Unique.antt =====
-- Bytes with the same leading zeros that spell the same number are the same bytes.
use native.Mathlib.Nat.{pow-suc, pow-le-pow_right, mul-le-mul_right}
use dexmd.Base.{
  ℕ, zero, suc, ◌+◌, ◌*◌, ◌^◌, ◌≤◌, ◌<◌, ◌≡◌, refl, ap, List, [], ◌∷◌, ◌++◌, arith, Bytes, bytes_eq,
  nat_eq, length, All, replicate, dec_lt,
}
use dexmd.Wallet.{set_bytes, leading_zeros}
use dexmd.Wallet.Base58.Bound.{set_bytes-lt}
use dexmd.Wallet.Base58.Digits.{spell, IsCanonical}
use dexmd.Wallet.Base58.Carry.{AreDigits}

mul-le-set_bytes : (acc : ℕ) (bin : Bytes) → acc * 256 ^ length bin ≤ set_bytes acc bin
unfolding set_bytes
mul-le-set_bytes acc [] = omega arith
mul-le-set_bytes acc (b ∷ bin) =
    let grown : acc * 256 * 256 ^ length bin ≤ (acc * 256 + b) * 256 ^ length bin =
      mul-le-mul_right (256 ^ length bin) (omega arith) in
    let step : acc * 256 ^ suc (length bin) ≤ set_bytes (acc * 256 + b) bin =
      rw (pow-suc 256 (length bin)) (omega (arith, mul-le-set_bytes (acc * 256 + b) bin, grown)) in
    step

-- A number that starts with a digit other than 0 has no shorter numeral.
pub length-le_of_lt :
    (b : ℕ) (bin : Bytes) (n : ℕ) → 0 < b → set_bytes 0 (b ∷ bin) < 256 ^ n → length bin < n
unfolding set_bytes
length-le_of_lt b bin n p h = elim (dec_lt (length bin) n) [
  | yes lt ↦ lt
  | no ge ↦
      let mono : 256 ^ n ≤ 256 ^ length bin = pow-le-pow_right (omega arith) (omega arith) in
      let begin : b * 256 ^ length bin ≤ (0 * 256 + b) * 256 ^ length bin =
        mul-le-mul_right (256 ^ length bin) (omega arith) in
      let h' : set_bytes (0 * 256 + b) bin < 256 ^ n = h in
      let low : 1 * 256 ^ length bin ≤ b * 256 ^ length bin =
        mul-le-mul_right (256 ^ length bin) p in
      absurd (omega (arith, mono, low, mul-le-set_bytes (0 * 256 + b) bin, begin))
]

set_bytes-injective :
    (a b : ℕ) (xs ys : Bytes)
    → All (λ d. d < 256) xs
    → All (λ d. d < 256) ys
    → length xs ≡ length ys
    → set_bytes a xs ≡ set_bytes b ys
    → (a ≡ b) × (xs ≡ ys)
unfolding set_bytes
set_bytes-injective a b [] [] ha hb l e = (e, refl)
set_bytes-injective a b [] (y ∷ ys) ha hb l e = absurd (omega arith)
set_bytes-injective a b (x ∷ xs) [] ha hb l e = absurd (omega arith)
set_bytes-injective a b (x ∷ xs) (y ∷ ys) ha hb l e =
    let ih = set_bytes-injective (a * 256 + x) (b * 256 + y) xs ys ha.1 hb.1 (omega arith) e in
    let heads : x ≡ y = omega (arith, ih.0) in (omega (arith, ih.0), cc (heads, ih.1))

pub spell-lt : (acc : ℕ) (ds : List ℕ) → AreDigits ds → spell acc ds < (acc + 1) * 58 ^ length ds
unfolding spell
spell-lt acc [] a = omega arith
spell-lt acc (d ∷ ds) a =
    let grown : (acc * 58 + d + 1) * 58 ^ length ds ≤ (acc * 58 + 58) * 58 ^ length ds =
      mul-le-mul_right (58 ^ length ds) (omega arith) in
    let step : spell (acc * 58 + d) ds < (acc + 1) * 58 ^ suc (length ds) =
      rw (pow-suc 58 (length ds)) (omega (arith, spell-lt (acc * 58 + d) ds a.1, grown)) in
    step

pub leading_zeros-split :
    (bin : Bytes) → bin ≡ replicate (leading_zeros bin).0 0 ++ (leading_zeros bin).1
unfolding leading_zeros
leading_zeros-split [] = refl
leading_zeros-split (zero ∷ bin) = ap (◌∷◌ 0) (leading_zeros-split bin)
leading_zeros-split (suc b ∷ bin) = refl

pub IsCanonical-leading_zeros : (bin : Bytes) → IsCanonical (leading_zeros bin).1
unfolding leading_zeros
IsCanonical-leading_zeros [] = tt
IsCanonical-leading_zeros (zero ∷ bin) = IsCanonical-leading_zeros bin
IsCanonical-leading_zeros (suc b ∷ bin) = omega arith

-- Canonical byte strings with the same number are equal.
pub canonical_unique :
    (xs ys : Bytes)
    → All (λ d. d < 256) xs
    → All (λ d. d < 256) ys
    → IsCanonical xs
    → IsCanonical ys
    → set_bytes 0 xs ≡ set_bytes 0 ys
    → xs ≡ ys
unfolding set_bytes
canonical_unique [] [] ax ay cx cy e = refl
canonical_unique [] (y ∷ ys) ax ay cx cy e =
    absurd (omega (arith, length-le_of_lt y ys 0 cy (rw (← e) (omega arith))))
canonical_unique (x ∷ xs) [] ax ay cx cy e =
    absurd (omega (arith, length-le_of_lt x xs 0 cx (rw e (omega arith))))
canonical_unique (x ∷ xs) (y ∷ ys) ax ay cx cy e =
    let vx = set_bytes-lt 0 (x ∷ xs) ax in
    let vy = set_bytes-lt 0 (y ∷ ys) ay in
    let l1 = length-le_of_lt x xs (length (y ∷ ys)) cx (rw e (omega (arith, vy))) in
    let l2 = length-le_of_lt y ys (length (x ∷ xs)) cy (rw (← e) (omega (arith, vx))) in
    (set_bytes-injective 0 0 (x ∷ xs) (y ∷ ys) ax ay (omega (arith, l1, l2)) e).1
