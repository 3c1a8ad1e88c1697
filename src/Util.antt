-- ===== src/Util.antt =====
-- util/overflow.go: sums and differences of machine integers, each with a flag that is true when
-- the result did not wrap around.
pub mod Exact
mod Examples
use dexmd.Base.{ℕ, ◌+◌, ◌-◌, ◌%◌, ◌^◌, Bool, not, ltb}
use dexmd.Base.Int.{ℤ, ◌+ℤ◌, ltb_ℤ, wrap_i64}

unfoldable pub add_u32o : ℕ → ℕ → ℕ × Bool
add_u32o a b = ((a + b) % 2 ^ 32, not (ltb ((a + b) % 2 ^ 32) a))

unfoldable pub sub_u32o : ℕ → ℕ → ℕ × Bool
sub_u32o a b = ((a + 2 ^ 32 - b) % 2 ^ 32, not (ltb a ((a + 2 ^ 32 - b) % 2 ^ 32)))

unfoldable pub add_u64o : ℕ → ℕ → ℕ × Bool
add_u64o a b = ((a + b) % 2 ^ 64, not (ltb ((a + b) % 2 ^ 64) a))

unfoldable pub sub_u64o : ℕ → ℕ → ℕ × Bool
sub_u64o a b = ((a + 2 ^ 64 - b) % 2 ^ 64, not (ltb a ((a + 2 ^ 64 - b) % 2 ^ 64)))

unfoldable pub add_i64o : ℤ → ℤ → ℤ × Bool
add_i64o a b = (wrap_i64 (a +ℤ b), not (ltb_ℤ (wrap_i64 (a +ℤ b)) a))
