-- ===== src/Wallet/Base58/Carry.antt =====
-- The carry loop multiplies the number in the buffer by 256 and adds a byte.
use dexmd.Base.{
  ap, ◌∙◌, ◌%◌, ◌/◌, replicate, ◌>>=◌, ℕ, zero, suc, ◌+◌, ◌*◌, ◌^◌, ◌≤◌, ◌<◌, ◌≡◌, refl, List, [],
  ◌∷◌, Bytes, Outcome, ok, arith, length, All,
}
use dexmd.Wallet.{add_carry, add_bytes, set_bytes}
use native.Mathlib.Nat.{pow-suc}

-- The number that a buffer holds, its last cell first.
unfoldable pub value : List ℕ → ℕ
value [] = 0
value (d ∷ buf) = d + 58 * value buf

abbrev pub AreDigits : List ℕ → Type 0
AreDigits = All (λ d. d < 58)

-- The cells after the first `k` hold 0: the loop has not been there.
abbrev pub ZeroFrom : ℕ → List ℕ → Type 0
ZeroFrom k [] = Unit
ZeroFrom zero (d ∷ buf) = (d ≡ 0) × ZeroFrom zero buf
ZeroFrom (suc k) (d ∷ buf) = ZeroFrom k buf

value-ZeroFrom : (buf : List ℕ) → ZeroFrom 0 buf → value buf ≡ 0
unfolding value
value-ZeroFrom [] z = refl
value-ZeroFrom (d ∷ buf) z = omega (arith, value-ZeroFrom buf z.1)

AreDigits-ZeroFrom : (buf : List ℕ) → ZeroFrom 0 buf → AreDigits buf
AreDigits-ZeroFrom [] z = tt
AreDigits-ZeroFrom (d ∷ buf) z = (omega arith, AreDigits-ZeroFrom buf z.1)

-- What a pass of the loop leaves behind.
pub record Pass (target len : ℕ) (o : Outcome (List ℕ × ℕ)) : Type 0 where
  pub buf : List ℕ
  pub visited : ℕ
  pub returns : o ≡ ok (buf, visited)
  pub holds : value buf ≡ target
  pub keeps_length : length buf ≡ len
  pub rest : ZeroFrom visited buf
  pub are_digits : AreDigits buf

-- The cell that the loop has just written, and the pass over the cells after it.
Pass-cons :
    (d : ℕ) {target total len : ℕ} {o : Outcome (List ℕ × ℕ)}
    → d < 58
    → total ≡ d + 58 * target
    → Pass target len o
    → Pass total (suc len) (o >>= λ (rest, n). ok (d ∷ rest, suc n))
unfolding value
Pass-cons d small e p = record {
  buf = d ∷ p.buf;
  visited = suc p.visited;
  returns = rw p.returns;
  holds = omega (arith, p.holds);
  keeps_length = ap suc p.keeps_length;
  rest = p.rest;
  are_digits = (small, p.are_digits);
}

carry_split :
    (c d v : ℕ) → 256 * (d + 58 * v) + c ≡ (c + 256 * d) % 58 + 58 * (256 * v + (c + 256 * d) / 58)
carry_split c d v = omega arith

carry_bound :
    (c d v n : ℕ) → 256 * (d + 58 * v) + c < 58 ^ suc n → 256 * v + (c + 256 * d) / 58 < 58 ^ n
carry_bound c d v n h = omega (arith, pow-suc 58 n)

pub add_carry-Pass :
    (k c : ℕ) (buf : List ℕ)
    → ZeroFrom k buf
    → 256 * value buf + c < 58 ^ length buf
    → Pass (256 * value buf + c) (length buf) (add_carry k c buf)
unfolding add_carry value
add_carry-Pass k zero [] z h = record {
  buf = [];
  visited = 0;
  returns = refl;
  holds = refl;
  keeps_length = refl;
  rest = tt;
  are_digits = tt;
}
add_carry-Pass k (suc c) [] z h = absurd (omega arith)
add_carry-Pass zero zero (d ∷ buf) z h = record {
  buf = d ∷ buf;
  visited = 0;
  returns = refl;
  holds = omega (arith, value-ZeroFrom buf z.1);
  keeps_length = refl;
  rest = z;
  are_digits = AreDigits-ZeroFrom (d ∷ buf) z;
}
add_carry-Pass zero (suc c) (d ∷ buf) z h =
    Pass-cons ((suc c + 256 * d) % 58) (omega arith) (carry_split (suc c) d (value buf)) (
      add_carry-Pass zero ((suc c + 256 * d) / 58) buf z.1
        (carry_bound (suc c) d (value buf) (length buf) h))
add_carry-Pass (suc k) c (d ∷ buf) z h =
    Pass-cons ((c + 256 * d) % 58) (omega arith) (carry_split c d (value buf))
      (add_carry-Pass k ((c + 256 * d) / 58) buf z (carry_bound c d (value buf) (length buf) h))

le-set_bytes : (acc : ℕ) (bin : Bytes) → acc ≤ set_bytes acc bin
unfolding set_bytes
le-set_bytes acc [] = omega arith
le-set_bytes acc (b ∷ bin) = omega (arith, le-set_bytes (acc * 256 + b) bin)

-- The whole outer loop: it returns, and the buffer then holds the number that the bytes spell.
pub record Filled (target len : ℕ) (o : Outcome (List ℕ)) : Type 0 where
  pub buf : List ℕ
  pub returns : o ≡ ok buf
  pub holds : value buf ≡ target
  pub keeps_length : length buf ≡ len
  pub are_digits : AreDigits buf

pub add_bytes_fills :
    (k : ℕ) (bin : Bytes) (buf : List ℕ)
    → ZeroFrom k buf
    → AreDigits buf
    → set_bytes (value buf) bin < 58 ^ length buf
    → Filled (set_bytes (value buf) bin) (length buf) (add_bytes k bin buf)
unfolding add_bytes set_bytes
add_bytes_fills k [] buf z a h = record {
  buf = buf;
  returns = refl;
  holds = refl;
  keeps_length = refl;
  are_digits = a;
}
add_bytes_fills k (b ∷ bin) buf z a h =
    let room : 256 * value buf + b < 58 ^ length buf =
      omega (arith, le-set_bytes (value buf * 256 + b) bin) in
    let p = add_carry-Pass k b buf z room in
    let e : value p.buf ≡ value buf * 256 + b = omega (arith, p.holds) in
    let f = add_bytes_fills p.visited bin p.buf p.rest p.are_digits (rw (e, p.keeps_length) h) in
    record {
      buf = f.buf;
      returns = rw p.returns f.returns;
      holds = f.holds ∙ ap (λ t. set_bytes t bin) e;
      keeps_length = f.keeps_length ∙ p.keeps_length;
      are_digits = f.are_digits;
    }

-- The buffer that `make` gives.
pub value-replicate : (n : ℕ) → value (replicate n 0) ≡ 0
unfolding value
value-replicate zero = refl
value-replicate (suc n) = omega (arith, value-replicate n)

pub AreDigits-replicate : (n : ℕ) → AreDigits (replicate n 0)
AreDigits-replicate zero = tt
AreDigits-replicate (suc n) = (omega arith, AreDigits-replicate n)

pub ZeroFrom-replicate : (n : ℕ) → ZeroFrom 0 (replicate n 0)
ZeroFrom-replicate zero = tt
ZeroFrom-replicate (suc n) = (refl, ZeroFrom-replicate n)
