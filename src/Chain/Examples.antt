-- ===== src/Chain/Examples.antt =====
-- The theorems on the databases of a chain, at concrete values.
use dexmd.Text.{decimal}
use dexmd.External.Toy.{lossy}
use dexmd.Chain.{block_key}
use dexmd.Base.{◌≡◌, refl, [], ◌∷◌, some, bytes_eq, nat_eq, ◌==◌, if◌then◌else◌, ok}
use dexmd.Proto.{Block}
use dexmd.External.Toy.{toy, no_block}
use dexmd.Chain.{Blockchain, set_state, save_block}
use dexmd.Chain.Samples.{alice, chain}

abbrev block_four : Block
block_four = record no_block { index = 4 }

abbrev richer : Blockchain
richer = record chain {
  balances_db = λ j. if alice == j then some (900 ∷ []) else chain.balances_db j;
}

abbrev longer : Blockchain
longer = record chain {
  block_db = λ j. if (b'4' ∷ []) == j then some (4 ∷ []) else chain.block_db j;
}

set_richer : set_state toy chain alice (record { balance = 900 }) ≡ ok richer
unfolding set_state
set_richer = refl

save_longer : save_block toy chain block_four ≡ ok longer
unfolding save_block block_key lossy decimal
save_longer = refl
