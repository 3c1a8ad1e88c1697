-- ===== src/Chain.antt =====
-- blockchain/processing.go: the state of one shard's chain, and the calls that read and write its
-- databases. `Frame` is about the databases after a write.
pub mod Frame
pub mod Samples
pub mod Examples
use dexmd.Base.{
  ℕ, zero, suc, ◌+◌, ◌-◌, ◌*◌, ◌/◌, ◌%◌, ◌^◌, ◌≤◌, ◌<◌, ◌≡◌, ◌≢◌, ◌↔◌, ◌⊎◌, inl, inr, refl, sym, ap,
  ◌∙◌, List, [], ◌∷◌, ◌++◌, map, Option, none, some, Bool, true, false, not, ◌&&◌, ◌||◌, arith,
  Bytes, bytes_eq, nat_eq, ◌==◌, if◌then◌else◌, ltb, leb, Bool-cases, Option-cases, length, All,
  replicate, dec_lt, Outcome, ok, err, panic, Error, ◌>>=◌, ◌>>◌, fail_if, or_fail, or_panic, Dict,
  lookup, insert, erase,
}
use dexmd.Base.Int.{negsuc, negate, ◌+ℤ◌, pos, wrap_i64, ℤ, to_i64}
use dexmd.Text.{text, itoa}
use dexmd.Proto.{AccountState, Block, MerkleRootsSigned}
use dexmd.External.{External, Db, Queue}

-- `MissingBlockStruct`. An arrival order is a float64 with three decimals, kept in thousandths.
pub record MissingBlock : Type 0 where
  pub sequence_block : ℕ
  pub arrival_order : ℕ
  pub hightest_block : Bytes
  pub blocks_to_recalculate : List Bytes

-- `Blockchain`. The mempool is its size limit and its queue.
pub record Blockchain : Type 0 where
  pub balances_db : Db
  pub block_db : Db
  pub contract_db : Db
  pub state_db : Db
  pub casper_votes_db : Db
  pub max_block_bytes : ℕ
  pub mempool : Queue
  pub schnorr : Dict Bytes Bytes
  pub mt_receipt : List Bytes
  pub r_schnorr : List Bytes
  pub p_schnorr : List Bytes
  pub messages_receipt : List Bytes
  pub genesis_timestamp : ℕ
  pub current_block : ℕ
  pub current_vote : ℕ
  pub current_checkpoint : ℕ
  pub current_validator : Dict ℕ Bytes
  pub priority_blocks : Queue
  pub missing_block : Dict Bytes MissingBlock
  pub hash_blocks : Dict Bytes ℕ

-- `NewBlockchain`, on databases that have been opened; a failure to open one ends the call before.
unfoldable pub new_blockchain : Db → Db → Db → Db → Db → ℕ → Blockchain
new_blockchain balances blocks code memory votes index = record {
  balances_db = balances;
  block_db = blocks;
  contract_db = code;
  state_db = memory;
  casper_votes_db = votes;
  max_block_bytes = 1000000;
  mempool = [];
  schnorr = [];
  mt_receipt = [];
  r_schnorr = [];
  p_schnorr = [];
  messages_receipt = [];
  genesis_timestamp = 0;
  current_block = index;
  current_vote = 0;
  current_checkpoint = 0;
  current_validator = (0, text "Dexm0135yvZqn8V7S88emfcJFzQMMMn3ARDCA241D2") ∷ (1, []) ∷ [];
  priority_blocks = [];
  missing_block = [];
  hash_blocks = [];
}

-- `ModifyMissingBlock`
unfoldable pub modify_missing_block : Blockchain → Bytes → MissingBlock → Bytes → Blockchain
modify_missing_block bc key mb hash_current_block = record bc {
  missing_block =
      insert key
        (record {
          sequence_block = (mb.sequence_block + 1) % 2 ^ 64;
          arrival_order = mb.arrival_order;
          hightest_block = mb.hightest_block;
          blocks_to_recalculate = mb.blocks_to_recalculate ++ hash_current_block ∷ [];
        })
        bc.missing_block;
}

-- `AddMissingBlock`
unfoldable pub add_missing_block : Blockchain → Bytes → ℕ → Bytes → Blockchain
add_missing_block bc key arrival_order hightest_block = record bc {
  missing_block =
      insert key
        (record {
          sequence_block = 1;
          arrival_order = arrival_order;
          hightest_block = hightest_block;
          blocks_to_recalculate = [];
        })
        bc.missing_block;
}

-- The key under which a block is kept: `strconv.Itoa(int(index))`.
unfoldable pub block_key : ℕ → Bytes
unfolding itoa
block_key index = itoa (to_i64 index)

-- `GetNetworkIndex` at a time in seconds. The quotient is a float64 that is rounded down.
unfoldable pub get_network_index : Blockchain → ℕ → ℤ
get_network_index bc now = elim (wrap_i64 (pos now +ℤ negate (to_i64 bc.genesis_timestamp))) [
  | pos n ↦ pos (n / 5)
  | negsuc n ↦ negsuc (n / 5)
]

module _ (x : External) where
  -- `GetWalletState`; an entry that does not decode still gives a state.
  unfoldable pub get_wallet_state : Blockchain → Bytes → Outcome AccountState
  get_wallet_state bc wallet = do
    raw ← or_fail (bc.balances_db wallet) Error.database
    ok (x.account.decode raw)

  -- `SetState`
  unfoldable pub set_state : Blockchain → Bytes → AccountState → Outcome Blockchain
  set_state bc wallet state = do
    fail_if (not (x.account.encodes state)) Error.codec
    db ← or_fail (x.put bc.balances_db wallet (x.account.encode state)) Error.database
    ok (record bc { balances_db = db })

  -- `GetBlock`
  unfoldable pub get_block : Blockchain → ℕ → Outcome Bytes
  get_block bc index = or_fail (bc.block_db (block_key index)) Error.database

  -- `GetContractCode`
  unfoldable pub get_contract_code : Blockchain → Bytes → Outcome Bytes
  get_contract_code bc address = or_fail (bc.contract_db address) Error.database

  -- networking/import.go, `SaveBlock`
  unfoldable pub save_block : Blockchain → Block → Outcome Blockchain
  save_block bc block = do
    db ← or_fail (x.put bc.block_db (block_key block.index) (x.block.encode block)) Error.database
    ok (record bc { block_db = db })
