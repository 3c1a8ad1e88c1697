-- ===== src/ForkChoice/Examples.antt =====
-- Blocks in and out of order, at concrete values.
use dexmd.Base.{[], ◌∷◌, Bytes, bytes_eq, nat_eq}
use dexmd.Chain.{Blockchain}
use dexmd.Chain.Samples.{chain}

abbrev key_a : Bytes
key_a = 1 ∷ []

abbrev key_b : Bytes
key_b = 2 ∷ []

abbrev key_c : Bytes
key_c = 3 ∷ []

abbrev rooted : Blockchain
rooted = record chain { hash_blocks = (key_a, 7) ∷ [] }
