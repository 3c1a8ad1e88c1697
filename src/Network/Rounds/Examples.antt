-- ===== src/Network/Rounds/Examples.antt =====
-- The rounds of a node, at concrete values.
use dexmd.Schnorr.Laws.{sign_all}
use dexmd.Schnorr.Laws.{keys_of}
use dexmd.Schnorr.Laws.{commitments_of}
use dexmd.Network.Broadcasts.{verify_roots, parse_points}
use dexmd.Pool.{generate_block}
use dexmd.Network.Rounds.{produce}
use dexmd.Validators.{check_is_validator}
use dexmd.Network.Rounds.{change_shard}
use dexmd.Network.Rounds.{gossip}
use dexmd.Validators.Draw.{choose_validator}
use dexmd.External.{IsCurve}
use dexmd.Network.Rounds.Joint.{signed_roots-verifies, Canonical}
use dexmd.Network.{MerkleRootsSigned, Blockchain, chain_of}
use dexmd.Network.Rounds.Progress.{rounds-advance, round-advances}
use dexmd.External.Toy.{toy}
use dexmd.Network.Rounds.Phases.{At}
use dexmd.Network.Rounds.Signing.{signed_roots, round, rounds}
use dexmd.Network.Rounds.{Chance, Turn}
use dexmd.Network.{Node}
use dexmd.Validators.{Validator}
use dexmd.Network.Sync.Reply.{unsent}
use dexmd.Network.Samples.{node, purse, idle}
use dexmd.Chain.Samples.{chain, alice, bob}
use dexmd.Base.{
  bytes_beq_refl, ◌≡◌, refl, [], ◌∷◌, none, some, true, arith, bytes_eq, nat_eq, ok, lookup, insert,
  bytes_beq,
}
use dexmd.Base.Int.{pos, negsuc}

-- The node is the only validator of shard 1.
abbrev member : Validator
member = record {
  wallet = alice;
  start_dynasty = pos 0;
  end_dynasty = negsuc 0;
  stake = 5;
  shard = 1;
  schnorr_public_key = [];
}

-- A chain at which the validator's dynasty has begun.
abbrev running : Blockchain
running = record chain { current_block = 301 }

abbrev miner_node : Node
miner_node = record node {
  shards_chain = (1, running) ∷ [];
  validators = record { vals_withdraw = []; vals_array = (alice, member) ∷ [] };
}

abbrev begins : Turn
begins = record { node = miner_node; current_k = none; sent = [] }

abbrev chance : Chance
chance = record {
  random = record { perm = λ seed n. 0 ∷ []; reaches = λ seed n i. true; shards = λ seed n. 1 };
  draw = 0;
  address = λ n. [];
  scalar = [];
  now = 0;
  choice_block = 0;
  opened = ok chain;
  feed = record {
    now = λ r. 0;
    length_reply = λ round client. unsent;
    block_reply = λ round client index. unsent;
    wallets = [];
    draw = λ i. 0;
    config = none;
    removes = true;
  };
  sync_fuel = 1;
}

abbrev ahead : Turn
ahead = record begins {
  node = record miner_node {
    shards_chain =
        (1, record chain { current_block = 302; current_validator = (302, alice) ∷ [] }) ∷ [];
  };
}

-- The chain has no queue of blocks, so the chosen validator cannot make one.
one_round : round toy idle purse alice 1 begins chance ≡ ok ahead
unfolding round lookup insert choose_validator bytes_beq gossip change_shard check_is_validator
    produce generate_block
one_round = refl

round-advances_example : At ahead.node 1 302
unfolding chain_of lookup
round-advances_example =
    round-advances toy idle purse alice 1 begins ahead chance running refl one_round

abbrev later : Turn
later = record begins {
  node = record miner_node {
    shards_chain =
        (
          1,
          record chain {
            current_block = 303;
            current_validator = (302, alice) ∷ (303, alice) ∷ [];
          },
        )
        ∷ [];
  };
}

-- Seen by another wallet, which is no validator.
two_rounds : rounds toy idle purse bob 1 begins (chance ∷ chance ∷ []) ≡ ok later
unfolding rounds lookup insert choose_validator bytes_beq gossip change_shard check_is_validator
two_rounds = refl

rounds-advance_example : At later.node 1 303
unfolding chain_of lookup
rounds-advance_example =
    rounds-advance toy idle purse bob 1 begins later (chance ∷ chance ∷ []) running refl
      (omega arith) two_rounds

toy-Canonical : Canonical toy
toy-Canonical = record {
  mul_read = λ a p. refl;
  add_read = λ p q. refl;
  sub_read = λ a b. refl;
  sum_read = λ a b. refl;
}

toy-IsCurve : IsCurve toy.curve
toy-IsCurve = record {
  point_add_comm = λ p q. refl;
  point_add_assoc = λ p q r. refl;
  mul-scalar_add = λ a b p. refl;
  mul-scalar_sub = λ a b p. refl;
  mul-scalar_mul = λ a b p. refl;
  mul-point_add = λ a p q. refl;
  point_eq_refl = λ p. bytes_beq_refl p;
}

abbrev gathered : Blockchain
gathered = record chain {
  r_schnorr = [] ∷ [] ∷ [];
  p_schnorr = [] ∷ [] ∷ [];
  mt_receipt = [] ∷ [] ∷ [];
  messages_receipt = (6 ∷ []) ∷ (6 ∷ []) ∷ [];
}

signed_roots-verifies_example :
    (mr : MerkleRootsSigned) × (signed_roots toy idle purse alice 1 gathered ≡ ok (some mr))
    × (parse_points toy mr.r_validators mr.p_validators ≡ ok (mr.r_validators, mr.p_validators))
    × (verify_roots toy mr mr.r_validators mr.p_validators mr.merkle_roots_receipt ≡ ok 2)
unfolding commitments_of keys_of sign_all
signed_roots-verifies_example =
    signed_roots-verifies toy toy-Canonical toy-IsCurve idle purse alice 1 gathered (6 ∷ [])
      (1 ∷ [], 2 ∷ []) ((3 ∷ [], 4 ∷ []) ∷ []) refl refl refl refl
