-- ===== src/Contracts/Imports/Examples.antt =====
-- An import of a contract.
use dexmd.Contracts.Imports.{text, FunctionSig, setup_import, resolve}
use dexmd.Contracts.Imports.ValueType.{i32, i64}
use dexmd.Base.{◌≡◌, refl, [], ◌∷◌, none, bytes_eq, nat_eq, lookup, bytes_beq}

abbrev paying : FunctionSig
paying = record { form = 2; param_types = i32 ∷ i64 ∷ i64 ∷ []; return_types = [] }

-- The lock has no name.
lock_missing : resolve (setup_import []) (text "lock") ≡ none
unfolding resolve lookup setup_import bytes_beq
lock_missing = refl
