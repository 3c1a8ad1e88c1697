-- ===== src/Network/Samples.antt =====
-- A node with one chain, a wallet and a machine without contracts, for tests.
use dexmd.Contracts.{Machine}
use dexmd.Wallet.{Wallet}
use dexmd.Network.{text, Node}
use dexmd.Chain.Samples.{chain}
use dexmd.Base.{[], ◌∷◌, none, false, bytes_eq, nat_eq}
use dexmd.Base.Int.{pos}

abbrev pub node : Node
node = record {
  clients = [];
  shards_chain = (1, chain) ∷ [];
  merkle_roots_db = [];
  validators = record { vals_withdraw = []; vals_array = [] };
  beacon_block = [];
  interests = text "0" ∷ text "1" ∷ [];
  interested_clients = [];
  hash_messages = [];
  receipt_burned = [];
}

abbrev pub purse : Wallet
purse = record {
  priv_key = 1 ∷ [];
  shard = 1;
  balance = pos 0;
  priv_key_schnorr = [];
  pub_key_schnorr = [];
}

abbrev pub idle : Machine
idle = record {
  read_module = λ code. none;
  new_vm = λ code. none;
  exec_code = λ c index args. (c, false);
}
