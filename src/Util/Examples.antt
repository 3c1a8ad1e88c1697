-- ===== src/Util/Examples.antt =====
-- Runs of util/overflow.go, and its theorems at concrete values.
use dexmd.Base.{◌≡◌, refl, true, false}
use dexmd.Util.{add_u32o, sub_u32o}

-- tests/util_test.go
add_small : add_u32o 1 1 ≡ (2, true)
unfolding add_u32o
add_small = refl

add_overflow : (add_u32o 4294967195 500).1 ≡ false
unfolding add_u32o
add_overflow = refl

sub_small : sub_u32o 2 1 ≡ (1, true)
unfolding sub_u32o
sub_small = refl

sub_overflow : (sub_u32o 100 200).1 ≡ false
unfolding sub_u32o
sub_overflow = refl
