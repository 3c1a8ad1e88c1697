-- ===== src/Import/Loop.antt =====
-- networking/import.go, `ImportBlock`: the genesis block, and the loop over the transactions.
use dexmd.Base.{
  ℕ, suc, List, [], ◌∷◌, Bool, true, false, Bytes, bytes_eq, nat_eq, ◌==◌, if◌then◌else◌, ok, err,
  panic,
}
use dexmd.Base.Int.{negsuc}
use dexmd.Text.{text}
use dexmd.Proto.{Transaction, AccountState, Block}
use dexmd.External.{External}
use dexmd.Wallet.{bytes_to_address}
use dexmd.Chain.{Blockchain, get_wallet_state, set_state}
use dexmd.Validation.{validate_block}
use dexmd.Validators.{ValidatorsBook, add_validator}
use dexmd.Contracts.{Machine}
use dexmd.Import.{Step, go, stop, crash, import_transaction}

module _ (x : External) (m : Machine) where
  -- Whether the body draws a shard: for a payment to the validators by a sender with a state.
  unfoldable pub draws_shard : Blockchain → Transaction → Bool
  draws_shard bc t = elim (bytes_to_address x t.sender t.shard) [
    | ok sender ↦ elim (get_wallet_state x bc sender) [
      | ok _ ↦ t.recipient == text "DexmPoS"
      | err _ ↦ false
      | panic ↦ false
    ]
    | err _ ↦ false
    | panic ↦ false
  ]

  -- The loop; the random source gives a shard to each call for a new validator, by its place.
  unfoldable pub import_transactions :
      ℕ → (ℕ → ℕ) → ℕ → Blockchain → ValidatorsBook → List Transaction → Step
  unfolding import_transaction draws_shard
  import_transactions index draw i bc v [] = go bc v
  import_transactions index draw i bc v (t ∷ ts) =
      let i' = if draws_shard bc t then suc i else i in
      elim (import_transaction x m index (draw i) bc v t) [
        | go bc' v' ↦ import_transactions index draw i' bc' v' ts
        | stop bc' v' e ↦ stop bc' v' e
        | crash ↦ crash
      ]

  -- The five wallets of the genesis block: each has a balance of 20001 and up, and a stake of 10000.
  -- A wallet is its address and its Schnorr key, read from a file.
  unfoldable pub genesis_wallets :
      ℕ → ℕ → Transaction → Blockchain → ValidatorsBook → List (Bytes × Bytes) → Step
  genesis_wallets balance shard fake bc v [] = go bc v
  genesis_wallets balance shard fake bc v ((address, key) ∷ ws) =
      let state : AccountState = record { balance = balance } in
      let bc' : Blockchain = elim (set_state x bc address state) [
        | ok bc' ↦ bc'
        | err _ ↦ bc
        | panic ↦ bc
      ] in
      elim (add_validator x v address (negsuc 299) key fake shard) [
        | ok (v', _) ↦ genesis_wallets (suc balance) (suc shard) fake bc' v' ws
        | err _ ↦ genesis_wallets (suc balance) (suc shard) fake bc' v ws
        | panic ↦ crash
      ]

  -- The transaction with a stake and nothing else.
  unfoldable pub fake_transaction : Transaction
  fake_transaction = record {
    sender = [];
    recipient = [];
    amount = 10000;
    gas = 0;
    nonce = 0;
    payload = [];
    shard = 0;
    r = [];
    s = [];
    function = [];
    args = [];
    contract_creation = false;
    pub_schnorr_key = [];
  }

  -- `ImportBlock`. A block that is refused without an error ends the call with nil, as in the source.
  unfoldable pub import_block :
      List (Bytes × Bytes) → (ℕ → ℕ) → Blockchain → ValidatorsBook → Block → Step
  unfolding import_transactions genesis_wallets fake_transaction
  import_block wallets draw bc v block = elim (validate_block x bc block) [
    | err e ↦ stop bc v e
    | panic ↦ crash
    | ok false ↦ go bc v
    | ok true ↦
        if block.index == 0
        then elim (genesis_wallets 20001 1 fake_transaction bc v wallets) [
          | go bc' v' ↦ go (record bc' { genesis_timestamp = block.timestamp }) v'
          | stop bc' v' e ↦ stop bc' v' e
          | crash ↦ crash
        ]
        else import_transactions block.index draw 0 bc v block.transactions
  ]
