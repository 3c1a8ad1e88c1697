-- ===== src/Contracts.antt =====
-- blockchain/exec.go: loading, running and saving a contract. The virtual machine is a parameter.
pub mod Returns
pub mod Host
pub mod Payments
pub mod Tables
pub mod Imports
use dexmd.Base.{
  ℕ, zero, suc, ◌+◌, ◌-◌, ◌*◌, ◌/◌, ◌%◌, ◌^◌, ◌≤◌, ◌<◌, ◌≡◌, ◌≢◌, ◌↔◌, ◌⊎◌, inl, inr, refl, sym, ap,
  ◌∙◌, List, [], ◌∷◌, ◌++◌, map, Option, none, some, Bool, true, false, not, ◌&&◌, ◌||◌, arith,
  Bytes, bytes_eq, nat_eq, ◌==◌, if◌then◌else◌, ltb, leb, Bool-cases, Option-cases, length, All,
  replicate, dec_lt, Outcome, ok, err, panic, Error, ◌>>=◌, ◌>>◌, fail_if, or_fail, or_panic, Dict,
  lookup, insert, erase,
}
use dexmd.Proto.{Transaction, Receipt, ContractState}
use dexmd.External.{External, Db}
use dexmd.Wallet.{bytes_to_address}
use dexmd.Chain.{Blockchain}

pub record ReturnState : Type 0 where
  pub reverted : Bool
  pub gas_left : ℕ
  pub outputs : List Receipt

-- `Contract`. `chain_state_db` is the field `StateDb`, a pointer that `GetContract` leaves nil, and
-- `block` stands for the field `Block`, which it leaves nil too; `module` holds the exports of the
-- module with their indices.
pub record Contract : Type 0 where
  pub code : Bytes
  pub address : Bytes
  pub state : ContractState
  pub chain_state_db : Option Db
  pub block_timestamp : Option ℕ
  pub return : ReturnState
  pub transaction : Transaction
  pub sender : Bytes
  pub temp_db : Dict Bytes Bytes
  pub temp_balance : ℕ
  pub module_exports : Dict Bytes ℕ
  pub vm_memory : Bytes
  pub vm_globals : List ℕ

-- github.com/dexm-coin/wagon: reading a module gives its exports, a new machine has a memory and
-- globals, and running a function changes the contract (through the host functions and the memory)
-- and ends with or without an error.
pub record Machine : Type 0 where
  pub read_module : Bytes → Option (Dict Bytes ℕ)
  pub new_vm : Bytes → Option (Bytes × List ℕ)
  pub exec_code : Contract → ℕ → List ℕ → Contract × Bool

module _ (x : External) (m : Machine) where
  -- The state of a contract in the database, or the initial one.
  unfoldable pub stored_state : Blockchain → Bytes → Bytes → List ℕ → ContractState
  stored_state bc address memory globals = elim (bc.state_db address) [
    | none ↦ record { memory = memory; globals = globals; locked = false; allowed_wallet = [] }
    | some encoded ↦ x.contract.decode encoded
  ]

  -- `GetContract`
  unfoldable pub get_contract : Bytes → Blockchain → Transaction → ℕ → Outcome Contract
  unfolding stored_state
  get_contract address bc tr balance = do
    code ← or_fail (bc.contract_db address) Error.database
    exports ← or_fail (m.read_module code) Error.machine
    (memory, globals) ← or_fail (m.new_vm code) Error.machine
    sender ← bytes_to_address x tr.sender tr.shard
    ok (record {
      code = code;
      address = address;
      state = stored_state bc address memory globals;
      chain_state_db = none;
      block_timestamp = none;
      return = record { reverted = false; gas_left = 0; outputs = [] };
      transaction = tr;
      sender = sender;
      temp_db = [];
      temp_balance = balance;
      module_exports = exports;
      vm_memory = memory;
      vm_globals = globals;
    })

  -- The state after a call that ended without an error.
  unfoldable pub after_call : Contract → Contract
  after_call c =
      if not c.return.reverted
      then record c { state = record c.state { memory = c.vm_memory; globals = c.vm_globals } }
      else record c { state = record c.state { locked = false } }

  unfoldable pub reverted : Contract → Contract
  reverted c = record c { return = record c.return { reverted = true } }

  -- `ExecuteContract`: the contract afterwards, and the pointer that it returns, `none` for nil.
  unfoldable pub execute_contract : Contract → Bytes → List ℕ → Contract × Option ReturnState
  unfolding after_call reverted
  execute_contract c export_name arguments =
      if not (c.sender == c.state.allowed_wallet) && c.state.locked
      then (c, some c.return)
      else let ready = record c { vm_memory = c.state.memory; vm_globals = c.state.globals } in
        elim (lookup export_name c.module_exports) [
          | none ↦ (reverted ready, some (reverted ready).return)
          | some index ↦
              let (after, failed) = m.exec_code ready index arguments in
              if failed
              then (reverted after, some (reverted after).return)
              else (after_call after, none)
        ]

  -- `SaveState` writes through the contract's own database pointer.
  unfoldable pub save_state : Contract → Outcome Db
  save_state c = do
    db ← or_panic c.chain_state_db
    or_fail (x.put db c.address (x.contract.encode c.state)) Error.database
