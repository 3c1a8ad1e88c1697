-- ===== src/Pool.antt =====
-- blockchain/pool.go: the mempool and the making of a block.
pub mod Cases
pub mod Budget
pub mod Made
pub mod Acceptance
mod Examples
use dexmd.Base.{
  ℕ, ◌+◌, List, [], ◌∷◌, ◌++◌, Option, none, some, Bool, false, not, ◌&&◌, ◌||◌, Bytes, bytes_eq,
  nat_eq, ◌==◌, if◌then◌else◌, ltb, length, Outcome, ok, err, panic, Error, ◌>>=◌, or_panic, insert,
}
use dexmd.Proto.{Transaction, Receipt, AccountState, Block}
use dexmd.External.{External, Queue}
use dexmd.Util.{add_u64o, sub_u64o}
use dexmd.Wallet.{bytes_to_address}
use dexmd.Chain.{Blockchain}
use dexmd.Validation.{Tainted, current_state, validate_transaction, generate_merkle_tree}
use dexmd.Validators.{ValidatorsBook, get_shard}
use dexmd.Contracts.{Machine, get_contract, execute_contract}

-- The counters for the dashboards, package variables of the source.
pub record Counters : Type 0 where
  pub mempool_transactions : ℕ
  pub block_transactions : ℕ

-- The functions that `DashMempoolTransactions` and `DashBlockTransactions` return: the count since
-- the last call, and the counter set to 0.
unfoldable pub dash_mempool_transactions : Counters → Counters × ℕ
dash_mempool_transactions c = (record c { mempool_transactions = 0 }, c.mempool_transactions)

unfoldable pub dash_block_transactions : Counters → Counters × ℕ
dash_block_transactions c = (record c { block_transactions = 0 }, c.block_transactions)

module _ (x : External) where
  -- `AddMempoolTransaction`. An error of the write to the database is not looked at: the key goes
  -- into the queue all the same.
  unfoldable pub add_mempool_transaction :
      Counters → Blockchain → Transaction → Bytes → Counters × Blockchain × Outcome (Unit {0})
  add_mempool_transaction c bc pb raw = elim (validate_transaction x bc pb) [
    | err e ↦ (c, bc, err e)
    | panic ↦ (c, bc, panic)
    | ok _ ↦
        let key = x.sha256 raw in
        elim (bc.block_db key) [
          | some _ ↦ (c, bc, err Error.already_in_db)
          | none ↦ (
            record c { mempool_transactions = c.mempool_transactions + 1 },
            record bc {
              block_db = elim (x.put bc.block_db key raw) [ none ↦ bc.block_db | some db ↦ db ];
              mempool = x.insert_ref key pb.gas bc.mempool;
            },
            ok tt,
          )
        ]
  ]

  -- What the loop of `GenerateBlock` carries.
  pub record Draft : Type 0 where
    pub current_len : ℕ
    pub tainted : Tainted x
    pub receipts_contracts : List Receipt
    pub transactions : List Transaction

  unfoldable pub sum_lengths : List Receipt → ℕ
  sum_lengths [] = 0
  sum_lengths (r ∷ rs) = length (x.receipt.encode r) + sum_lengths rs

module _ (x : External) (m : Machine) where
  -- Running the contract that a transaction calls. `none` is a `continue`; the result of a call
  -- that succeeds is nil, and reading its outputs panics.
  unfoldable pub contract_receipts :
      Blockchain → Transaction → ℕ → List Receipt → Outcome (Option (List Receipt))
  contract_receipts bc rtx balance receipts =
      if length rtx.function == 0
      then ok (some receipts)
      else elim (get_contract x m rtx.recipient bc rtx balance) [
        | err _ ↦ ok none
        | panic ↦ panic
        | ok c ↦ do
          returned ← or_panic (execute_contract x m c rtx.function rtx.args).1
          ok (some (receipts ++ returned.outputs))
      ]

  -- The end of the loop body: the charge to the sender, and the transaction in the block.
  unfoldable pub include : Draft x → Transaction → Bytes → AccountState → List Receipt → Draft x
  unfolding sum_lengths
  include d rtx sender state receipts =
      let d' : Draft x = record d { receipts_contracts = receipts } in
      let (required, fits) = add_u64o rtx.amount rtx.gas in
      let (new_bal, covered) = sub_u64o state.balance required in
      if (ltb state.balance required && fits) || not covered then d' else record d' {
        tainted = insert sender (record state { balance = new_bal }) d.tainted;
        transactions =
            if x.transaction.encodes rtx then d.transactions ++ rtx ∷ [] else d.transactions;
        current_len =
            if x.transaction.encodes rtx
            then d.current_len + length (x.transaction.encode rtx) + sum_lengths x receipts
            else d.current_len;
      }

  -- Whether the sender and the miner are validators of one shard.
  unfoldable pub same_shard : ValidatorsBook → Bytes → Bytes → Bool
  same_shard v sender miner = elim (get_shard v sender) [
    | ok a ↦ elim (get_shard v miner) [ ok b ↦ a == b | err _ ↦ false | panic ↦ false ]
    | err _ ↦ false
    | panic ↦ false
  ]

  -- The loop body after the transaction has been read from the database.
  unfoldable pub consider :
      Blockchain → ValidatorsBook → Bytes → Draft x → Transaction → Outcome (Draft x)
  unfolding same_shard
  consider bc v miner d rtx = elim (validate_transaction x bc rtx) [
    | err _ ↦ ok d
    | panic ↦ panic
    | ok _ ↦ do
      sender ← bytes_to_address x rtx.sender rtx.shard
      if not (same_shard v sender miner) then ok d else elim (current_state x bc d.tainted sender) [
        | err _ ↦ ok d
        | panic ↦ panic
        | ok state ↦ do
          called ← contract_receipts bc rtx state.balance d.receipts_contracts
          elim called [ none ↦ ok d | some receipts ↦ ok (include d rtx sender state receipts) ]
      ]
  ]

  -- The loop of `GenerateBlock`: it pops keys until the block is full or the queue is empty.
  unfoldable pub fill_block :
      Blockchain → ValidatorsBook → Bytes → Queue → Draft x → Outcome (Draft x × Queue)
  unfolding consider
  fill_block bc v miner [] d = ok (d, [])
  fill_block bc v miner ((key, gas) ∷ queue) d =
      let rest : Draft x → Outcome (Draft x × Queue) = fill_block bc v miner queue in
      if not (ltb d.current_len bc.max_block_bytes)
      then ok (d, (key, gas) ∷ queue)
      else elim (bc.block_db key) [
        | none ↦ rest d
        | some stored ↦ do d' ← consider bc v miner d (x.transaction.decode stored); rest d'
      ]

  -- The Merkle root of a block; a block without transactions has the empty one.
  unfoldable pub block_root : Draft x → Outcome Bytes
  block_root d =
      if length d.transactions == 0
      then ok []
      else generate_merkle_tree x d.transactions d.receipts_contracts

  -- `GenerateBlock` at a time: the counters, the chain with its queues popped, and the block.
  unfoldable pub generate_block :
      Counters → Blockchain → Bytes → ℕ → ValidatorsBook → ℕ → Counters × Blockchain × Outcome Block
  unfolding fill_block block_root
  generate_block c bc miner shard v now = elim bc.priority_blocks [
    | [] ↦ (c, bc, err Error.queue)
    | (hash, _) ∷ blocks ↦
        let bc' : Blockchain = record bc { priority_blocks = blocks } in
        let header : Block = record {
          index = bc.current_block;
          timestamp = now;
          miner = miner;
          prev_hash = hash;
          shard = shard;
          transactions = [];
          receipts_contracts = [];
          merkle_root_receipt = [];
        } in
        if not (x.block.encodes header)
        then (c, bc', err Error.codec)
        else let start : Draft x = record {
          current_len = length (x.block.encode header);
          tainted = [];
          receipts_contracts = [];
          transactions = [];
        } in
          elim (fill_block bc' v miner bc'.mempool start) [
            | err e ↦ (c, bc', err e)
            | panic ↦ (c, bc', panic)
            | ok (d, queue) ↦ (
              record c { block_transactions = length d.transactions },
              record bc' { mempool = queue },
              do
                root ← block_root d
                ok (record header {
                  transactions = d.transactions;
                  receipts_contracts = d.receipts_contracts;
                  merkle_root_receipt = root;
                }),
            )
          ]
  ]
