-- ===== src/Network/Reading/Examples.antt =====
-- The way of a message over many nodes, at concrete values.
use dexmd.External.Toy.{lossy}
use dexmd.Wallet.{signature_valid}
use dexmd.External.Toy.{toy}
use dexmd.Network.Reading.Hops.{travel-ends, travel}
use dexmd.Proto.{EnvelopeType, Envelope}
use dexmd.Network.Samples.{node}
use dexmd.Base.{◌≡◌, refl, [], ◌∷◌, none, some, arith, bytes_eq, nat_eq, replicate, bytes_beq}

-- A message that claims to live longer than any may.
abbrev lasting : Envelope
lasting = record {
  payload = 5 ∷ [];
  type = EnvelopeType.broadcast;
  shard = 1;
  identity = record { pubkey = 1 ∷ []; r = 1 ∷ []; s = 1 ∷ []; signed_data = 5 ∷ [] };
  ttl = 65;
}

-- One node passes it on.
one_hop : travel toy (node ∷ []) lasting ≡ some (record lasting { ttl = 64 })
unfolding travel signature_valid bytes_beq lossy
one_hop = refl

travel-ends_example : travel toy (replicate 65 node) lasting ≡ none
travel-ends_example = travel-ends toy (replicate 65 node) lasting (omega arith) (omega arith)
