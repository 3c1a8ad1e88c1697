-- ===== src/Util/Exact.antt =====
-- When the flags of util/overflow.go are right, and when the signed one is not.
use dexmd.Base.{ℕ, ◌+◌, ◌^◌, ◌<◌, ◌≡◌, true, false, arith, ltb, leb}
use dexmd.Base.Int.{ℤ, pos, negsuc, InI64, ◌+ℤ◌}
use dexmd.Util.{add_u32o, sub_u32o, add_u64o, sub_u64o, add_i64o}

-- For two uint64 values the flag of `AddU64O` is true exactly if the sum fits, and then the result
-- is the sum; otherwise the result is the sum less 2^64.
pub add_u64o_exact :
    (a b : ℕ)
    → a < 2 ^ 64
    → b < 2 ^ 64
    → ((add_u64o a b).1 ≡ ltb (a + b) (2 ^ 64))
      × ((add_u64o a b).1 ≡ true → (add_u64o a b).0 ≡ a + b)
      × ((add_u64o a b).1 ≡ false → (add_u64o a b).0 + 2 ^ 64 ≡ a + b)
unfolding add_u64o
add_u64o_exact a b ha hb = ground arith

-- For two uint64 values the flag of `SubU64O` is true exactly if the second is at most the first,
-- and then the result is the difference; otherwise the result is the difference plus 2^64.
pub sub_u64o_exact :
    (a b : ℕ)
    → a < 2 ^ 64
    → b < 2 ^ 64
    → ((sub_u64o a b).1 ≡ leb b a)
      × ((sub_u64o a b).1 ≡ true → (sub_u64o a b).0 + b ≡ a)
      × ((sub_u64o a b).1 ≡ false → (sub_u64o a b).0 + b ≡ a + 2 ^ 64)
unfolding sub_u64o
sub_u64o_exact a b ha hb = ground arith

-- The same of the uint32 versions: `SubU32O` undoes an `AddU32O`, whether or not that wrapped.
pub sub_u32o-add_u32o : (a b : ℕ) → a < 2 ^ 32 → b < 2 ^ 32 → (sub_u32o (add_u32o a b).0 b).0 ≡ a
unfolding sub_u32o add_u32o
sub_u32o-add_u32o a b ha hb = omega arith

-- With a second argument that is not negative, the flag of `AddI64O` is true exactly if the sum is
-- an int64, and then the result is the sum.
pub add_i64o_nonneg :
    (a : ℤ) (b : ℕ)
    → InI64 a
    → b < 2 ^ 63
    → ((add_i64o a (pos b)).1 ≡ true → (add_i64o a (pos b)).0 ≡ a +ℤ pos b)
      × ((add_i64o a (pos b)).1 ≡ true → InI64 (a +ℤ pos b))
      × (InI64 (a +ℤ pos b) → (add_i64o a (pos b)).1 ≡ true)
unfolding add_i64o
add_i64o_nonneg (pos a) b ha hb = (ground arith, ground arith, ground arith)
add_i64o_nonneg (negsuc a) b ha hb = (ground arith, ground arith, ground arith)

-- With a negative second argument the flag of `AddI64O` is false whenever the sum is an int64: it
-- reports an overflow where there is none.
pub add_i64o_negative :
    (a : ℤ) (b : ℕ)
    → InI64 a
    → b < 2 ^ 63
    → InI64 (a +ℤ negsuc b)
    → ((add_i64o a (negsuc b)).1 ≡ false) × ((add_i64o a (negsuc b)).0 ≡ a +ℤ negsuc b)
unfolding add_i64o
add_i64o_negative (pos a) b ha hb h = (ground arith, ground arith)
add_i64o_negative (negsuc a) b ha hb h = (ground arith, ground arith)
