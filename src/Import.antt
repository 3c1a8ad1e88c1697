-- ===== src/Import.antt =====
-- networking/import.go, `ImportBlock`: the effect of a finalised block on the chain of its shard
-- and on the book of validators.
pub mod Loop
pub mod Transfers
pub mod Ledger
pub mod Crashes
mod Examples
use dexmd.Base.{
  ℕ, zero, suc, ◌+◌, ◌-◌, ◌*◌, ◌/◌, ◌%◌, ◌^◌, ◌≤◌, ◌<◌, ◌≡◌, ◌≢◌, ◌↔◌, ◌⊎◌, inl, inr, refl, sym, ap,
  ◌∙◌, List, [], ◌∷◌, ◌++◌, map, Option, none, some, Bool, true, false, not, ◌&&◌, ◌||◌, arith,
  Bytes, bytes_eq, nat_eq, ◌==◌, if◌then◌else◌, ltb, leb, Bool-cases, Option-cases, length, All,
  replicate, dec_lt, Outcome, ok, err, panic, Error, ◌>>=◌, ◌>>◌, fail_if, or_fail, or_panic, Dict,
  lookup, insert, erase,
}
use dexmd.Base.Int.{ℤ, pos, negsuc, to_i64}
use dexmd.Text.{text, decimal, rune_string}
use dexmd.Proto.{Transaction, Receipt, AccountState, Block}
use dexmd.External.{External, Queue}
use dexmd.Util.{add_u64o}
use dexmd.Wallet.{bytes_to_address}
use dexmd.Chain.{Blockchain, get_wallet_state, set_state}
use dexmd.Validation.{transaction_hash, validate_block}
use dexmd.Validators.{ValidatorsBook, add_validator}
use dexmd.Contracts.{Machine, Contract, ReturnState, get_contract, execute_contract, save_state}

-- How the body of the loop over the transactions ends: on to the next one, or a return with an
-- error. What was written before is kept in both cases.
pub data Step : Type 0 where
  go : Blockchain → ValidatorsBook → Step
  stop : Blockchain → ValidatorsBook → Error → Step
  crash : Step

module _ (x : External) where
  -- `GetWalletState` with its error ignored: a wallet that is not there has the zero state.
  unfoldable pub state_or_zero : Blockchain → Bytes → AccountState
  state_or_zero bc wallet = elim (get_wallet_state x bc wallet) [
    | ok state ↦ state
    | err _ ↦ record { balance = 0 }
    | panic ↦ record { balance = 0 }
  ]

  -- One output of a contract. The test on the sum is the source's: it passes over an output that
  -- adds something without overflow.
  unfoldable pub pay_output : Blockchain → Receipt → Blockchain
  pay_output bc v =
      let rec_bal = state_or_zero bc v.recipient in
      let (required, fits) = add_u64o rec_bal.balance v.amount in
      let paid : AccountState = record rec_bal {
        balance = (rec_bal.balance + v.amount) % 2 ^ 64;
      } in
      if ltb rec_bal.balance required && fits
      then bc
      else elim (set_state x bc v.recipient paid) [ ok bc' ↦ bc' | err _ ↦ bc | panic ↦ bc ]

  unfoldable pub pay_outputs : Blockchain → List Receipt → Blockchain
  unfolding pay_output
  pay_outputs bc [] = bc
  pay_outputs bc (v ∷ vs) = pay_outputs (pay_output bc v) vs

  -- The two writes of a transfer; `none` is a `continue` after a failed one. The recipient's state
  -- was read before the sender's was written.
  unfoldable pub transfer :
      Blockchain → Bytes → AccountState → AccountState → Transaction → Blockchain × Bool
  transfer bc sender sender_balance reciver_balance t =
      let charged : AccountState = record sender_balance {
        balance = (sender_balance.balance + 2 ^ 64 - (t.amount + t.gas) % 2 ^ 64) % 2 ^ 64;
      } in
      let credited : AccountState = record reciver_balance {
        balance = (reciver_balance.balance + t.amount) % 2 ^ 64;
      } in
      elim (set_state x bc sender charged) [
        | err _ ↦ (bc, false)
        | panic ↦ (bc, false)
        | ok bc1 ↦ elim (set_state x bc1 t.recipient credited) [
          | err _ ↦ (bc1, false)
          | panic ↦ (bc1, false)
          | ok bc2 ↦ (bc2, true)
        ]
      ]

  -- The code of a new contract, under an address made from the sender and the nonce.
  unfoldable pub create_contract : Blockchain → Bytes → Transaction → Outcome Blockchain
  create_contract bc sender t = if not t.contract_creation then ok bc else do
    contract_addr ← bytes_to_address x (sender ++ decimal t.nonce) t.shard
    ok (record bc {
      contract_db = elim (x.put bc.contract_db contract_addr t.payload) [
        | none ↦ bc.contract_db
        | some db ↦ db
      ];
    })

  -- The stored transaction gives way to the block index, as `string` makes one of it.
  unfoldable pub mark_included : Blockchain → Transaction → ℕ → Blockchain
  mark_included bc t index =
      let key = transaction_hash x t in
      let deleted = x.delete bc.block_db key in
      record bc {
        block_db = elim (x.put deleted key (rune_string index)) [ none ↦ deleted | some db ↦ db ];
      }

module _ (x : External) (m : Machine) where
  -- The contract call of a transaction: the chain afterwards, and whether the loop body goes on.
  -- The pointer that `ExecuteContract` returns is nil after a call that succeeds.
  unfoldable pub call_contract :
      Blockchain → Transaction → AccountState → Outcome (Blockchain × Bool)
  call_contract bc t sender_balance = if length t.function == 0 then ok (bc, true) else do
    c ← get_contract x m t.recipient bc t sender_balance.balance
    let (after, returned) = execute_contract x m c t.function t.args
    return_state ← or_panic returned
    if return_state.reverted then ok (bc, false) else elim (save_state x m after) [
      | panic ↦ panic
      | ok _ ↦ ok (pay_outputs x bc return_state.outputs, true)
      | err _ ↦ ok (pay_outputs x bc return_state.outputs, true)
    ]

  -- The loop body from the contract call to its end.
  unfoldable pub settle :
      ℕ → Blockchain → ValidatorsBook → Bytes → AccountState → Transaction → Step
  unfolding call_contract transfer create_contract mark_included
  settle index bc v sender sender_balance t =
      let reciver_balance = state_or_zero x bc t.recipient in
      elim (call_contract bc t sender_balance) [
        | err e ↦ stop bc v e
        | panic ↦ crash
        | ok (bc1, false) ↦ go bc1 v
        | ok (bc1, true) ↦
            let (bc2, written) = transfer x bc1 sender sender_balance reciver_balance t in
            if not written then go bc2 v else elim (create_contract x bc2 sender t) [
              | ok bc3 ↦ go (mark_included x bc3 t index) v
              | err e ↦ stop bc2 v e
              | panic ↦ crash
            ]
      ]

  -- The loop body. The shard is the one that the random source draws for a new validator.
  unfoldable pub import_transaction : ℕ → ℕ → Blockchain → ValidatorsBook → Transaction → Step
  unfolding settle
  import_transaction index random_shard bc v t = elim (bytes_to_address x t.sender t.shard) [
    | err e ↦ stop bc v e
    | panic ↦ crash
    | ok sender ↦ elim (get_wallet_state x bc sender) [
      | err _ ↦ go bc v
      | panic ↦ crash
      | ok sender_balance ↦
          if not (t.recipient == text "DexmPoS")
          then settle index bc v sender sender_balance t
          else elim (add_validator x v sender (to_i64 bc.current_block) t.pub_schnorr_key t
              random_shard) [
                | err e ↦ stop bc v e
                | panic ↦ crash
                | ok (v', true) ↦ go bc v'
                | ok (v', false) ↦ settle index bc v' sender sender_balance t
              ]
    ]
  ]
