-- ===== src/Wallet/Base58/Bound.antt =====
-- The buffer of `base58Encoding` has room for every number that its bytes can spell.
use native.Mathlib.Nat.{pow-suc, add-zero, pow-zero, mul-le-mul, le_refl}
use mathlib.Core.Path.{◌≡⟨◌⟩◌, ◌∎}
use dexmd.Base.{
  all_below, all_below_sound, ap, ℕ, zero, suc, ◌+◌, ◌*◌, ◌/◌, ◌%◌, ◌^◌, ◌≤◌, ◌<◌, ◌≡◌, refl, Bool,
  true, [], ◌∷◌, Bytes, arith, length, All, leb,
}
use dexmd.Wallet.{set_bytes}

pow-add : (a m n : ℕ) → a ^ (m + n) ≡ a ^ m * a ^ n
pow-add a m zero = rw (add-zero m, pow-zero a) (omega arith)
pow-add a m (suc n) =
    a ^ (m + suc n)
    ≡⟨ ap (λ k. a ^ k) (omega arith) ⟩ a ^ suc (m + n)
    ≡⟨ pow-suc a (m + n) ⟩ a ^ (m + n) * a
    ≡⟨ ap (λ k. k * a) (pow-add a m n) ⟩ a ^ m * a ^ n * a
    ≡⟨ rw (pow-suc a n) (omega arith) ⟩ a ^ m * a ^ suc n ∎

abbrev fits : ℕ → Bool
fits n = leb (256 ^ n) (58 ^ (n * 138 / 100 + 1))

fits_table : all_below 50 fits ≡ true
unfolding all_below
fits_table = refl

fits_small : (r : ℕ) → r < 50 → 256 ^ r ≤ 58 ^ (r * 138 / 100 + 1)
fits_small r h = ground (arith, all_below_sound 50 fits r fits_table h)

-- 138 hundredths of a cell for each byte, and one cell more, are enough: 50 bytes take 69 cells.
fits_blocks : (q r : ℕ) → r < 50 → 256 ^ (q * 50 + r) ≤ 58 ^ ((q * 50 + r) * 138 / 100 + 1)
fits_blocks zero r h = let e : 0 * 50 + r ≡ r = omega arith in rw e (fits_small r h)
fits_blocks (suc q) r h =
    let n = q * 50 + r in
    let bytes : suc q * 50 + r ≡ n + 50 = omega arith in
    let cells : (n + 50) * 138 / 100 + 1 ≡ n * 138 / 100 + 1 + 69 = omega arith in
    let block : 256 ^ 50 ≤ 58 ^ 69 = omega arith in
    rw (bytes, cells, pow-add 256 n 50, pow-add 58 (n * 138 / 100 + 1) 69)
      (mul-le-mul (fits_blocks q r h) block)

pub size_fits : (n : ℕ) → 256 ^ n ≤ 58 ^ (n * 138 / 100 + 1)
size_fits n =
    let e : n ≡ n / 50 * 50 + n % 50 = omega arith in
    rw e (fits_blocks (n / 50) (n % 50) (omega arith))

pub set_bytes-lt :
    (acc : ℕ) (bin : Bytes)
    → All (λ b. b < 256) bin
    → set_bytes acc bin < (acc + 1) * 256 ^ length bin
unfolding set_bytes
set_bytes-lt acc [] a = omega arith
set_bytes-lt acc (b ∷ bin) a =
    let grown : (acc * 256 + b + 1) * 256 ^ length bin ≤ (acc * 256 + 256) * 256 ^ length bin =
      mul-le-mul (omega arith) (le_refl _) in
    let step : set_bytes (acc * 256 + b) bin < (acc + 1) * 256 ^ suc (length bin) =
      rw (pow-suc 256 (length bin)) (omega (arith, set_bytes-lt (acc * 256 + b) bin a.1, grown)) in
    step
