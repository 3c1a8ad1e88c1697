-- ===== src/Text/Slices.antt =====
-- Slices of a string that is put together from parts.
use dexmd.Base.{
  ℕ, ◌+◌, ◌-◌, ◌≡◌, ◌++◌, Bytes, ok, arith, length, length-append, take-append, drop-append,
}
use dexmd.Text.{slice}

-- The middle of three parts, by the lengths of the first two.
pub slice_middle : (a b c : Bytes) → slice (length a) (length a + length b) (a ++ (b ++ c)) ≡ ok b
unfolding slice
slice_middle a b c =
    let e : length a + length b - length a ≡ length b = omega arith in
    ground (
      arith,
      e,
      length-append a (b ++ c),
      length-append b c,
      drop-append a (b ++ c),
      take-append b c,
    )

-- The same, for a string and bounds that are given otherwise.
pub slice_part :
    (s a b c : Bytes) (lo hi : ℕ)
    → s ≡ a ++ (b ++ c)
    → lo ≡ length a
    → hi ≡ length a + length b
    → slice lo hi s ≡ ok b
slice_part s a b c lo hi e l h = rw (e, l, h) (slice_middle a b c)
