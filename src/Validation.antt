-- ===== src/Validation.antt =====
-- blockchain/processing.go, `ValidateTransaction` and `ValidateBlock`, and blockchain/merkletree.go.
pub mod Transactions
pub mod Spends
pub mod Blocks
pub mod Repeats
mod Examples
use dexmd.Base.{
  ℕ, zero, suc, ◌+◌, ◌-◌, ◌*◌, ◌/◌, ◌%◌, ◌^◌, ◌≤◌, ◌<◌, ◌≡◌, ◌≢◌, ◌↔◌, ◌⊎◌, inl, inr, refl, sym, ap,
  ◌∙◌, List, [], ◌∷◌, ◌++◌, map, Option, none, some, Bool, true, false, not, ◌&&◌, ◌||◌, arith,
  Bytes, bytes_eq, nat_eq, ◌==◌, if◌then◌else◌, ltb, leb, Bool-cases, Option-cases, length, All,
  replicate, dec_lt, Outcome, ok, err, panic, Error, ◌>>=◌, ◌>>◌, fail_if, or_fail, or_panic, Dict,
  lookup, insert, erase,
}
use dexmd.Proto.{Transaction, Receipt, AccountState, Block}
use dexmd.External.{External}
use dexmd.Util.{add_u64o, sub_u64o}
use dexmd.Wallet.{bytes_to_address, is_wallet_valid, signature_valid}
use dexmd.Chain.{Blockchain, get_wallet_state}

module _ (x : External) where
  -- The digest that a transaction's signature is checked against.
  unfoldable pub transaction_hash : Transaction → Bytes
  transaction_hash t = x.sha256 (x.transaction.encode t)

  -- `ValidateTransaction`. `ok tt` is the nil error: a signature that does not verify ends the call
  -- with the error of `SignatureValid`, which is nil then. The gas is multiplied as a uint32.
  unfoldable pub validate_transaction : Blockchain → Transaction → Outcome (Unit {0})
  validate_transaction bc t = do
    sender ← bytes_to_address x t.sender t.shard
    known ← is_wallet_valid x t.recipient
    fail_if (not known) Error.invalid_recipient
    valid ← signature_valid x t.sender t.r t.s (transaction_hash t)
    if not valid then ok tt else do
      balance ← get_wallet_state x bc sender
      fail_if (ltb t.gas 16000) Error.not_enough_gas
      let (required, fits) = add_u64o t.amount (t.gas * 1000000000 % 2 ^ 32)
      fail_if (ltb balance.balance required && fits) Error.insufficient_balance

  -- The receipts of the transactions, encoded.
  unfoldable pub receipt_data : List Transaction → Outcome (List Bytes)
  receipt_data [] = ok []
  receipt_data (t ∷ ts) = do
    sender ← bytes_to_address x t.sender t.shard
    rest ← receipt_data ts
    let r : Receipt = record {
      sender = sender;
      recipient = t.recipient;
      amount = t.amount;
      nonce = t.nonce;
    }
    ok (x.receipt.encode r ∷ rest)

  -- `GenerateMerkleTree`
  unfoldable pub generate_merkle_tree : List Transaction → List Receipt → Outcome Bytes
  unfolding receipt_data
  generate_merkle_tree ts receipts = do
    leaves ← receipt_data ts
    or_fail (x.merkle_root (leaves ++ map x.receipt.encode receipts)) Error.merkle

  -- `isTainted` and `taintedState` are filled together, so they are one map here.
  abbrev pub Tainted : Type 0
  Tainted = Dict Bytes AccountState

  -- The state of a sender within a block: the updated copy, or what the chain holds.
  unfoldable pub current_state : Blockchain → Tainted → Bytes → Outcome AccountState
  current_state bc tainted sender = elim (lookup sender tainted) [
    | none ↦ get_wallet_state x bc sender
    | some state ↦ ok state
  ]

  -- A stored value under the transaction's hash that does not decode as a transaction.
  unfoldable pub already_included : Blockchain → Transaction → Bool
  already_included bc t = elim (bc.block_db (transaction_hash t)) [
    | none ↦ false
    | some stored ↦ not (x.transaction.decodes stored)
  ]

  -- The body of the loop over the transactions; `none` is the return of `false` with a nil error.
  unfoldable pub validate_step : Blockchain → Tainted → Transaction → Outcome (Option Tainted)
  unfolding transaction_hash current_state already_included
  validate_step bc tainted t = do
    sender ← bytes_to_address x t.sender t.shard
    valid ← signature_valid x t.sender t.r t.s (transaction_hash t)
    if not valid then ok none else do
      state ← current_state bc tainted sender
      let (required, fits) = add_u64o t.amount t.gas
      fail_if (ltb state.balance required && fits) Error.insufficient_balance
      fail_if (already_included bc t) Error.already_included
      let (new_bal, covered) = sub_u64o state.balance required
      fail_if (not covered) Error.overflow_in_transaction
      ok (some (insert sender (record state { balance = new_bal }) tainted))

  unfoldable pub validate_loop : Blockchain → Tainted → List Transaction → Outcome (Option Tainted)
  unfolding validate_step
  validate_loop bc tainted [] = ok (some tainted)
  validate_loop bc tainted (t ∷ ts) = do
    next ← validate_step bc tainted t
    elim next [ none ↦ ok none | some tainted' ↦ validate_loop bc tainted' ts ]

  -- `ValidateBlock`: the Boolean with a nil error, or the error.
  unfoldable pub validate_block : Blockchain → Block → Outcome Bool
  unfolding validate_loop generate_merkle_tree
  validate_block bc block = if block.index == 0 then ok true else do
    accepted ← validate_loop bc [] block.transactions
    elim accepted [
      | none ↦ ok false
      | some _ ↦ do
        root ← generate_merkle_tree block.transactions block.receipts_contracts
        fail_if (not (root == block.merkle_root_receipt)) Error.root_mismatch
        ok true
    ]
