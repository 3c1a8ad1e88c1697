-- ===== src/Network/Sync/Examples.antt =====
-- Bringing a chain up to date, at concrete values.
use dexmd.Network.{chain_of}
use dexmd.Network.Sync.Endless.{update_chain-Endless}
use dexmd.External.Toy.{toy}
use dexmd.Chain.Samples.{chain}
use dexmd.Chain.{get_network_index}
use dexmd.Network.{Node}
use dexmd.Network.Sync.{answered, update_chain, Feed}
use dexmd.Network.Samples.{node, idle}
use dexmd.Base.{
  ◌≡◌, ◌⊎◌, refl, [], ◌∷◌, none, true, arith, bytes_eq, nat_eq, err, panic, Error, lookup,
}
use dexmd.Base.Int.{◌<ℤ◌, pos}

-- A peer that has five blocks; the network is at block 200.
abbrev talkative : Feed
talkative = record {
  now = λ r. 1000;
  length_reply = λ round client. answered (b'5' ∷ []);
  block_reply = λ round client index. answered [];
  wallets = [];
  draw = λ i. 0;
  config = none;
  removes = true;
}

abbrev joined : Node
joined = record node { clients = (7, true) ∷ [] }

begun : pos 0 <ℤ get_network_index chain 1000
unfolding get_network_index
begun = omega arith

update_chain-Endless_example :
    ((update_chain toy idle 1 talkative 3 [] joined).1 ≡ panic)
    ⊎ ((update_chain toy idle 1 talkative 3 [] joined).1 ≡ err Error.unfinished)
unfolding get_network_index chain_of lookup
update_chain-Endless_example =
    update_chain-Endless toy idle 1 talkative 3 [] joined chain refl begun (λ r. omega arith)
