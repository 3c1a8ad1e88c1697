-- ===== src/Wallet/Base58/Digits.antt =====
-- The characters that `base58Encoding` writes, and the number that they spell.
use mathlib.Core.List.{reverse, reverse-cons}
use dexmd.Base.{
  nat_beq_iff, all_below, all_below_sound, ℕ, zero, suc, ◌+◌, ◌*◌, ◌<◌, ◌≡◌, refl, ap, List, [],
  ◌∷◌, ◌++◌, Bytes, ok, Option, none, some, arith, length, get_elem?, nat_beq, Bool, true,
  if◌then◌else◌,
}
use dexmd.Wallet.{skip_zeros, digit_chars, b58digits_ordered}
use dexmd.Wallet.Base58.Carry.{value, AreDigits}

-- The place of a character in a string; the length, if it is not there.
unfoldable pub index_in : Bytes → ℕ → ℕ
index_in [] c = 0
index_in (d ∷ s) c = let rest = index_in s c in if nat_beq c d then 0 else suc rest

-- A reader of base 58 numerals, most significant character first.
unfoldable pub read58 : ℕ → Bytes → ℕ
read58 acc [] = acc
read58 acc (c ∷ s) = read58 (acc * 58 + index_in b58digits_ordered c) s

-- The number of '1's at the front.
unfoldable pub ones : Bytes → ℕ
ones [] = 0
ones (c ∷ s) = let rest = ones s in if nat_beq c b'1' then suc rest else 0

-- The number of a digit list, most significant digit first.
unfoldable pub spell : ℕ → List ℕ → ℕ
spell acc [] = acc
spell acc (d ∷ ds) = spell (acc * 58 + d) ds

spell-append : (acc : ℕ) (xs ys : List ℕ) → spell acc (xs ++ ys) ≡ spell (spell acc xs) ys
unfolding spell
spell-append acc [] ys = refl
spell-append acc (d ∷ xs) ys = spell-append (acc * 58 + d) xs ys

pub spell-reverse : (buf : List ℕ) → spell 0 (reverse buf) ≡ value buf
unfolding spell value
spell-reverse [] = refl
spell-reverse (d ∷ buf) =
    rw (reverse-cons d buf, spell-append 0 (reverse buf) (d ∷ []), spell-reverse buf) (omega arith)

pub spell-skip_zeros : (ds : List ℕ) → spell 0 (skip_zeros ds) ≡ spell 0 ds
unfolding spell skip_zeros
spell-skip_zeros [] = refl
spell-skip_zeros (zero ∷ ds) = spell-skip_zeros ds
spell-skip_zeros (suc d ∷ ds) = refl

pub AreDigits-skip_zeros : (ds : List ℕ) → AreDigits ds → AreDigits (skip_zeros ds)
unfolding skip_zeros
AreDigits-skip_zeros [] a = tt
AreDigits-skip_zeros (zero ∷ ds) a = AreDigits-skip_zeros ds a.1
AreDigits-skip_zeros (suc d ∷ ds) a = a

-- Every digit has its character, at its own place in the alphabet.
or_zero : Option ℕ → ℕ
or_zero none = 0
or_zero (some c) = c

char_in : Bytes → ℕ → ℕ
char_in s d = or_zero (get_elem? s d)

placed : Bytes → ℕ → Bool
placed s d = nat_beq (index_in s (char_in s d)) d

placed_sound :
    (s : Bytes) (d : ℕ)
    → placed s d ≡ true
    → d < length s
    → (get_elem? s d ≡ some (char_in s d)) × (index_in s (char_in s d) ≡ d)
unfolding placed char_in or_zero
placed_sound s d h b = (get_elem?-char_in s d b, ground arith)
  where
    get_elem?-char_in : (s : Bytes) (d : ℕ) → d < length s → get_elem? s d ≡ some (char_in s d)
    get_elem?-char_in [] d b = absurd (omega arith)
    get_elem?-char_in (c ∷ s) zero b = refl
    get_elem?-char_in (c ∷ s) (suc d) b = get_elem?-char_in s d (omega arith)

placed_table : all_below 58 (placed b58digits_ordered) ≡ true
unfolding all_below placed index_in char_in or_zero
placed_table = refl

char_placed :
    (d : ℕ)
    → d < 58
    → (get_elem? b58digits_ordered d ≡ some (char_in b58digits_ordered d))
      × (index_in b58digits_ordered (char_in b58digits_ordered d) ≡ d)
char_placed d h = placed_sound b58digits_ordered d (all_below_sound 58 _ d placed_table h) h

-- Only the digit 0 is written as '1'.
ones-char_in : (d : ℕ) → d < 58 → (s : Bytes) → 0 < d → ones (char_in b58digits_ordered d ∷ s) ≡ 0
unfolding ones index_in
ones-char_in d h s p =
    ground (arith, (char_placed d h).1, nat_beq_iff (char_in b58digits_ordered d) b'1')

-- The first digit is not 0, if there is one.
abbrev pub IsCanonical : List ℕ → Type 0
IsCanonical [] = Unit
IsCanonical (d ∷ ds) = 0 < d

pub IsCanonical-skip_zeros : (ds : List ℕ) → IsCanonical (skip_zeros ds)
unfolding skip_zeros
IsCanonical-skip_zeros [] = tt
IsCanonical-skip_zeros (zero ∷ ds) = IsCanonical-skip_zeros ds
IsCanonical-skip_zeros (suc d ∷ ds) = omega arith

pub record Written (ds : List ℕ) : Type 0 where
  pub chars : Bytes
  pub returns : digit_chars ds ≡ ok chars
  pub read : (acc : ℕ) → read58 acc chars ≡ spell acc ds
  pub chars_length : length chars ≡ length ds
  pub no_ones : IsCanonical ds → ones chars ≡ 0

pub digit_chars-Written : (ds : List ℕ) → AreDigits ds → Written ds
unfolding digit_chars read58 spell ones
digit_chars-Written [] a = record {
  chars = [];
  returns = refl;
  read = λ acc. refl;
  chars_length = refl;
  no_ones = λ _. refl;
}
digit_chars-Written (d ∷ ds) a =
    let w = digit_chars-Written ds a.1 in
    record {
      chars = char_in b58digits_ordered d ∷ w.chars;
      returns = rw ((char_placed d a.0).0, w.returns);
      read = λ acc. rw (char_placed d a.0).1 (w.read (acc * 58 + d));
      chars_length = ap suc w.chars_length;
      no_ones = λ canonical. ones-char_in d a.0 w.chars canonical;
    }
