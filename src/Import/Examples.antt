-- ===== src/Import/Examples.antt =====
-- The theorems on imported transactions, at concrete values.
use dexmd.Util.{add_i64o}
use dexmd.Wallet.{is_wallet_valid}
use dexmd.Contracts.Payments.{pay-reverts}
use dexmd.Contracts.Host.{pay}
use dexmd.Contracts.Tables.{get-put}
use dexmd.Contracts.Host.{get, put}
use dexmd.Base.Int.{pos_part}
use dexmd.Base.{ℕ, Option, ◌>>=◌}
use dexmd.Chain.{set_state}
use dexmd.Text.{hex}
use dexmd.External.Toy.{cut}
use dexmd.Wallet.{base58_encoding}
use dexmd.Wallet.{bytes_to_address}
use dexmd.Base.{replicate, ◌++◌, ℕ, bytes_beq}
use dexmd.Base.{
  ◌+◌, ◌≡◌, ◌≢◌, refl, [], ◌∷◌, none, some, true, false, arith, Bytes, bytes_eq, nat_eq, ◌==◌,
  if◌then◌else◌, ok, panic, lookup,
}
use dexmd.Proto.{Transaction}
use dexmd.Text.{text}
use dexmd.External.Toy.{toy}
use dexmd.Chain.{Blockchain}
use dexmd.Chain.Samples.{alice, bob, chain, payment, alice_state}
use dexmd.Contracts.{Machine, Contract, get_contract, execute_contract}
use dexmd.Contracts.Returns.{is_locked_out}
use dexmd.Import.{pos, ℤ, call_contract, transfer}
use dexmd.Import.Transfers.{self_transfer_mints}
use dexmd.External.Toy.{toy-Stores, toy-RoundTrips}
use dexmd.Chain.{get_wallet_state}
use dexmd.Pool.{contract_receipts}
use dexmd.Import.Crashes.{successful_call_panics}

-- A machine whose modules export one function, which does nothing.
abbrev idle : Machine
idle = record {
  read_module = λ code. some ((text "f", 0) ∷ []);
  new_vm = λ code. some ([], []);
  exec_code = λ c index args. (c, false);
}

-- One that always ends with an error.
abbrev failing : Machine
failing = record {
  read_module = λ code. some ((text "f", 0) ∷ []);
  new_vm = λ code. some ([], []);
  exec_code = λ c index args. (c, true);
}

abbrev invocation : Transaction
invocation = record payment { function = text "f" }

failing_call : call_contract toy failing chain invocation alice_state ≡ ok (chain, false)
unfolding call_contract get_contract bytes_beq bytes_to_address base58_encoding cut execute_contract
    lookup
failing_call = refl

abbrev loaded : Contract
loaded = record {
  code = 1 ∷ [];
  address = bob;
  state = record { memory = []; globals = []; locked = false; allowed_wallet = [] };
  chain_state_db = none;
  block_timestamp = none;
  return = record { reverted = false; gas_left = 0; outputs = [] };
  transaction = invocation;
  sender = alice;
  temp_db = [];
  temp_balance = 70000;
  module_exports = (text "f", 0) ∷ [];
  vm_memory = [];
  vm_globals = [];
}

call_loaded : get_contract toy idle bob chain invocation 70000 ≡ ok loaded
unfolding get_contract bytes_beq bytes_to_address base58_encoding cut hex
call_loaded = refl

not_locked : is_locked_out toy idle loaded ≡ false
unfolding is_locked_out bytes_beq
not_locked = refl

has_export : lookup (text "f") loaded.module_exports ≡ some 0
unfolding lookup bytes_beq
has_export = refl

successful_call_panics_example :
    (call_contract toy idle chain invocation alice_state ≡ panic)
    × (contract_receipts toy idle chain invocation 70000 [] ≡ panic)
successful_call_panics_example =
    successful_call_panics toy idle chain invocation alice_state (omega arith) loaded 0 loaded []
      call_loaded not_locked has_export refl

abbrev after : Blockchain
after = record chain {
  balances_db = λ j.
      if bob == j
      then some (150 ∷ [])
      else if alice == j
      then some (49900 ∷ [])
      else chain.balances_db j;
}

payment_written :
    transfer toy chain alice alice_state (record { balance = 50 }) payment ≡ (after, true)
unfolding transfer set_state
payment_written = refl

alice_not_bob : alice ≢ bob
alice_not_bob e = ground arith

abbrev to_self : Transaction
to_self = record payment { recipient = alice }

abbrev minted : Blockchain
minted = record chain {
  balances_db = λ j.
      if alice == j
      then some (70100 ∷ [])
      else if alice == j
      then some (49900 ∷ [])
      else chain.balances_db j;
}

to_self_written : transfer toy chain alice alice_state alice_state to_self ≡ (minted, true)
unfolding transfer set_state
to_self_written = refl

self_transfer_mints_example :
    get_wallet_state toy minted alice ≡ ok (record { balance = 70000 + 100 })
self_transfer_mints_example =
    self_transfer_mints toy toy-Stores toy-RoundTrips chain minted alice alice_state alice_state
      to_self to_self_written refl refl (omega arith)

-- A memory that holds the name of the void wallet everywhere.
abbrev void_memory : ℤ → ℕ → Bytes
void_memory ptr n = text "DexmVoid" ++ replicate 248 0

abbrev refused : Contract
refused = record loaded { return = record { reverted = true; gas_left = 0; outputs = [] } }

payment_refused : pay toy idle void_memory loaded (pos 8) (pos 10) (pos 5) ≡ ok refused
unfolding pay is_wallet_valid bytes_beq add_i64o
payment_refused = refl

pay-reverts_example : (refused.return.reverted ≡ true) × (refused.return.outputs ≡ [])
pay-reverts_example =
    pay-reverts toy idle void_memory loaded refused (pos 8) 10 5 (omega arith) payment_refused

abbrev locked_up : Contract
locked_up = record loaded {
  state = record { memory = []; globals = []; locked = true; allowed_wallet = text "DexmVoid" };
}

-- A memory in which each cell holds its address.
abbrev numbered : ℤ → ℕ → Bytes
numbered ptr n = replicate n (pos_part ptr)

get-put_example :
    (do
      c' ← put toy idle numbered loaded (pos 1) (pos 3) (pos 7) (pos 4) (pos 9) (pos 5)
      (after, result, written) ← get toy idle numbered c' (pos 2) (pos 3) (pos 7) (pos 4) (pos 16)
      let answer : ℕ × Option Bytes = (result, written)
      ok answer)
    ≡ ok (1, some (9 ∷ 9 ∷ 9 ∷ 9 ∷ 9 ∷ []))
get-put_example =
    get-put toy idle numbered loaded (pos 1) (pos 2) (pos 7) (pos 9) 3 3 4 5 16 (omega arith)
      (omega arith) (omega arith) (omega arith) (omega arith) (omega arith)
