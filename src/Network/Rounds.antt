-- ===== src/Network/Rounds.antt =====
-- networking/server.go, `ValidatorLoop`: what a node does in each round. A round is one step: the
-- handlers that run while it sleeps are not interleaved with it.
pub mod Signing
pub mod Proving
pub mod Phases
pub mod Blocks
pub mod Progress
pub mod Joint
mod Examples
use dexmd.Pool.{generate_block, Counters}
use dexmd.ForkChoice.{set_height, insert_priority, height}
use dexmd.Contracts.{Machine}
use dexmd.Network.Sync.{update_chain, Feed}
use dexmd.External.{External}
use dexmd.Chain.{get_block, Blockchain}
use dexmd.Validators.Draw.{choose_shard, Random}
use dexmd.Network.{
  hex_string, get_pub_key, BroadcastType, decimal, make_envelope_broadcast, sealed, set_bytes,
  Wallet, Envelope, set_chain, Node, chain_of,
}
use dexmd.Base.{
  machine, Outcome-cases, drop, take, keys, ℕ, zero, suc, ◌+◌, ◌-◌, ◌*◌, ◌/◌, ◌%◌, ◌^◌, ◌≤◌, ◌<◌,
  ◌≡◌, ◌≢◌, ◌↔◌, ◌⊎◌, inl, inr, refl, sym, ap, ◌∙◌, List, [], ◌∷◌, ◌++◌, map, Option, none, some,
  Bool, true, false, not, ◌&&◌, ◌||◌, arith, Bytes, bytes_eq, nat_eq, ◌==◌, if◌then◌else◌, ltb, leb,
  Bool-cases, Option-cases, length, All, replicate, Outcome, ok, err, panic, Error, ◌>>=◌, ◌>>◌,
  fail_if, or_fail, or_panic, Dict, lookup, insert, erase, bytes_beq,
}
use dexmd.Base.{fatal, unfinished}
use dexmd.Proto.{PeersAndInterests, Block}
use dexmd.Proto.BroadcastType.{block_proposal}
use dexmd.Proto.EnvelopeType.{neighbour_interests}
use dexmd.Base.Int.{ℤ, pos, negsuc, to_i64, to_u64, ltb_ℤ, wrap_i64, negate, ◌+ℤ◌}

-- A node that takes part: its state, the scalar it committed to last, which is nil at first, and the
-- envelopes that it has sent.
pub record Turn : Type 0 where
  pub node : Node
  pub current_k : Option Bytes
  pub sent : List Envelope

-- What the random sources, the clock, the peers and the disk give to a round. `draw` is
-- `int(rand.Float64()*100)`, and `choice_block` the package variable `currentBlock`.
pub record Chance : Type 0 where
  pub random : Random
  pub draw : ℕ
  pub address : ℕ → Bytes
  pub scalar : Bytes
  pub now : ℕ
  pub choice_block : ℕ
  pub opened : Outcome Blockchain
  pub feed : Feed
  pub sync_fuel : ℕ

-- `CurrentBlock++`
unfoldable pub count_up : Blockchain → Blockchain
count_up bc = record bc { current_block = (bc.current_block + 1) % 2 ^ 64 }

-- `CurrentValidator[CurrentBlock] = validator`
unfoldable pub expect_validator : Bytes → Blockchain → Blockchain
expect_validator validator bc = record bc {
  current_validator = insert bc.current_block validator bc.current_validator;
}

-- A change of the chain of a shard.
unfoldable pub update_shard : Node → ℕ → (Blockchain → Blockchain) → Outcome Node
unfolding chain_of set_chain
update_shard cs shard change = do bc ← chain_of cs shard; ok (set_chain cs shard (change bc))

-- The number that `ChooseShard` returns beside an error is 0.
unfoldable pub shard_or_zero : Outcome ℕ → ℕ
shard_or_zero (ok shard) = shard
shard_or_zero (err _) = 0
shard_or_zero panic = 0

module _ (x : External) (m : Machine) (w : Wallet) (wal : Bytes) (shard : ℕ) where
  -- `MakeEnvelopeBroadcast`, with what goes into the channel.
  unfoldable pub send : Turn → Bytes → BroadcastType → ℕ → Outcome Turn
  unfolding make_envelope_broadcast
  send t payload type shard_envelope = do
    env ← make_envelope_broadcast x w payload type 1 shard_envelope
    ok (record t { sent = t.sent ++ env ∷ [] })

  -- The message with the interests and the peers, more often the nearer the next hundred is. It goes
  -- to every connection.
  unfoldable pub gossip : Turn → Chance → Outcome Turn
  unfolding sealed chain_of
  gossip t c = do
    bc ← chain_of t.node shard
    if not (ltb (100 - bc.current_block % 100) c.draw) then ok t else do
      let peers : PeersAndInterests = record {
        keys = t.node.interests;
        ips = map c.address (keys t.node.clients);
        address = elim (get_pub_key x w) [ ok key ↦ key | err _ ↦ [] | panic ↦ [] ];
        shard_address = w.shard;
      }
      let raw = x.peers_and_interests.encode peers
      identity ← sealed x w raw
      let env : Envelope = record {
        payload = raw;
        type = neighbour_interests;
        shard = 0;
        identity = identity;
        ttl = 0;
      }
      ok (record t { sent = t.sent ++ env ∷ [] })

  -- A block that is not there counts as no bytes.
  unfoldable pub block_or_nil : Blockchain → ℕ → Bytes
  block_or_nil bc i = elim (get_block x bc i) [ ok raw ↦ raw | err _ ↦ [] | panic ↦ [] ]

  -- The previous hashes of the blocks from an index downwards, as many as are asked for.
  unfoldable pub prev_hashes : Blockchain → ℕ → ℕ → Bytes
  unfolding block_or_nil
  prev_hashes bc zero i = []
  prev_hashes bc (suc n) i =
      (x.block.decode (block_or_nil bc i)).prev_hash ++ prev_hashes bc n ((i + 2 ^ 64 - 1) % 2 ^ 64)

  -- The seed for the shards: the hash of the newest block and of 99 previous hashes.
  unfoldable pub shard_seed : Blockchain → ℤ
  unfolding prev_hashes block_or_nil
  shard_seed bc =
      let newest = (bc.current_block + 2 ^ 64 - 1) % 2 ^ 64 in
      let hash_blocks = x.sha256 (block_or_nil bc newest) ++ prev_hashes bc 99 newest in
      to_i64 (set_bytes 0 (take 8 (x.sha256 hash_blocks)))

  -- `UpdateChain` of a new shard; any error of it ends the program.
  unfoldable pub update_or_die : Chance → ℕ → Node → Outcome Node
  update_or_die c new_shard cs =
      let (cs', result) = update_chain x m new_shard c.feed c.sync_fuel (decimal shard) cs in
      elim result [
        | ok _ ↦ ok cs'
        | panic ↦ panic
        | err unfinished ↦ err unfinished
        | err _ ↦ err fatal
      ]

  -- The chain of the new shard: the one that is there, brought up to date, or a new one.
  unfoldable pub enter_shard : Chance → ℕ → ℕ → Node → Outcome Node
  unfolding update_or_die set_chain
  enter_shard c new_shard block cs = elim (lookup new_shard cs.shards_chain) [
    | some bc ↦ if bc.current_block == block then ok cs else update_or_die c new_shard cs
    | none ↦ elim c.opened [
      | ok bc ↦ update_or_die c new_shard (set_chain cs new_shard bc)
      | err _ ↦ err fatal
      | panic ↦ panic
    ]
  ]

  -- The validators are dealt to the shards again. A node that is none of them gets shard 0, since the
  -- error is only logged.
  unfoldable pub deal_again : Turn → Chance → Blockchain → Outcome Turn
  unfolding enter_shard shard_seed shard_or_zero
  deal_again t c bc = do
    (v, dealt) ← choose_shard c.random t.node.validators c.choice_block (shard_seed bc) wal
    cs ← enter_shard c (shard_or_zero dealt) bc.current_block (record t.node { validators = v })
    ok (record t { node = cs })

  -- The deal comes every 10000 blocks.
  unfoldable pub change_shard : Turn → Chance → Outcome Turn
  unfolding chain_of deal_again
  change_shard t c = do
    bc ← chain_of t.node shard
    if not (bc.current_block % 10000 == 0) then ok t else deal_again t c bc

  -- The height of the block that the node has made. As in `handleBroadcast` the hash of the block
  -- itself is meant, but both names get the hash of the previous block's hash.
  unfoldable pub place_own : Blockchain → Block → Blockchain
  unfolding height insert_priority set_height
  place_own bc block =
      let hash_prev_block = hex_string (x.sha256 block.prev_hash) in
      let hash_current_block = hash_prev_block in
      let bc1 = set_height bc hash_current_block (height bc hash_prev_block + 1) in
      insert_priority x bc1 hash_current_block (height bc1 hash_current_block * 1000 + 500)

  -- The case of the chosen validator; false is a `continue`. What `GenerateBlock` has popped from the
  -- queues stays away after an error.
  unfoldable pub produce : Turn → Chance → Outcome (Turn × Bool)
  unfolding chain_of place_own set_chain
  produce t c = do
    bc ← chain_of t.node shard
    let counters : Counters = record { mempool_transactions = 0; block_transactions = 0 }
    let (_, bc1, made) = generate_block x m counters bc wal shard t.node.validators c.now
    elim made [
      | panic ↦ panic
      | err _ ↦ ok (record t { node = set_chain t.node shard bc1 }, false)
      | ok block ↦ do
        t' ←
            send (record t { node = set_chain t.node shard (place_own bc1 block) })
              (x.block.encode block) block_proposal shard
        ok (t', true)
    ]
