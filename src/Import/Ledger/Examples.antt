-- ===== src/Import/Ledger/Examples.antt =====
-- A block of plain transfers, at concrete values.
use dexmd.Import.Ledger.Supply.{total, gas_of, Distinct, import_block-conserves}
use dexmd.Casper.{mem_bytes}
use dexmd.Text.{rune_string}
use mathlib.Core.List.{Memᴰ}
use dexmd.Import.Ledger.Blocks.{import_block-refuses_again, import_block-pay_all}
use dexmd.Util.{sub_u64o}
use dexmd.Util.{add_u64o}
use dexmd.Wallet.{signature_valid}
use dexmd.External.Toy.{read_balance}
use dexmd.Text.{hex}
use dexmd.External.Toy.{cut}
use dexmd.Wallet.{base58_encoding}
use dexmd.Wallet.{bytes_to_address}
use dexmd.Import.Ledger.{address_of}
use dexmd.Chain.{get_wallet_state}
use dexmd.Import.{External, Transaction, ValidatorsBook, state_or_zero}
use dexmd.Chain.{Blockchain}
use dexmd.Validation.{validate_block}
use dexmd.Import.Ledger.{pay_all, go, import_block, ledger_of, Affordable, IsPlain, Writable}
use dexmd.Proto.{Block}
use dexmd.Contracts.{Machine}
use dexmd.Chain.Samples.{chain, alice, bob, payment, alice_address}
use dexmd.External.Toy.{toy, toy-Stores, toy-RoundTrips, toy-Balances, no_block}
use dexmd.Base.{
  ◌+◌, ◌≡◌, ◌≢◌, refl, sym, ap, ◌∙◌, [], ◌∷◌, none, true, false, not, arith, bytes_eq, nat_eq, ◌==◌,
  ok, lookup, bytes_beq,
}

abbrev quiet : Machine
quiet = record {
  read_module = λ code. none;
  new_vm = λ code. none;
  exec_code = λ c index args. (c, false);
}

abbrev block : Block
block = record no_block { index = 3; transactions = payment ∷ []; merkle_root_receipt = 1 ∷ [] }

abbrev no_validators : ValidatorsBook
no_validators = record { vals_withdraw = []; vals_array = [] }

toy-Writable : Writable toy
toy-Writable = record { put_some = λ db k v. (_, refl); account_encodes = λ a small. ground arith }

block_accepted : validate_block toy chain block ≡ ok true
unfolding validate_block bytes_to_address base58_encoding cut signature_valid lookup
    get_wallet_state bytes_beq hex read_balance add_u64o sub_u64o
block_accepted = refl

payment_address : address_of toy payment ≡ alice
unfolding address_of bytes_to_address base58_encoding cut hex
payment_address = refl

alice_not_bob : alice ≢ bob
alice_not_bob e = ground arith

payment-IsPlain : IsPlain toy payment
unfolding bytes_beq
payment-IsPlain = record {
  address = alice_address ∙ ap ok (sym payment_address);
  no_call = refl;
  no_contract = refl;
  no_stake = refl;
  no_self = λ e. alice_not_bob (sym payment_address ∙ e);
  some_gas = omega arith;
}

payment-Affordable : Affordable toy (payment ∷ []) (ledger_of toy chain)
unfolding ledger_of state_or_zero get_wallet_state bytes_beq address_of bytes_to_address
    base58_encoding cut hex read_balance
payment-Affordable = (payment-IsPlain, omega arith, omega arith, tt)

import_block-pay_all_example :
    (bc' : Blockchain) × (import_block toy quiet [] (λ i. 0) chain no_validators block
      ≡ go bc' no_validators)
    × (ledger_of toy bc' ≡ pay_all toy (payment ∷ []) (ledger_of toy chain))
import_block-pay_all_example =
    import_block-pay_all toy toy-Stores toy-RoundTrips toy-Balances toy-Writable quiet [] (λ i. 0)
      chain no_validators block (λ e. ground arith) block_accepted payment-Affordable

-- A codec of transactions that does not read the number of the block.
abbrev picky : External
picky = record toy {
  transaction = record {
    encode = toy.transaction.encode;
    encodes = toy.transaction.encodes;
    decode = toy.transaction.decode;
    decodes = λ b. not (b == (3 ∷ []));
  };
}

picky_accepts : validate_block picky chain block ≡ ok true
unfolding validate_block bytes_to_address base58_encoding cut signature_valid lookup
    get_wallet_state bytes_beq hex read_balance add_u64o sub_u64o
picky_accepts = refl

picky_address : bytes_to_address picky payment.sender payment.shard ≡ ok alice
unfolding bytes_to_address base58_encoding cut hex
picky_address = refl

picky_sender : address_of picky payment ≡ alice
unfolding address_of bytes_to_address base58_encoding cut hex
picky_sender = refl

picky-IsPlain : IsPlain picky payment
unfolding bytes_beq
picky-IsPlain = record {
  address = picky_address ∙ ap ok (sym picky_sender);
  no_call = refl;
  no_contract = refl;
  no_stake = refl;
  no_self = λ e. alice_not_bob (sym picky_sender ∙ e);
  some_gas = omega arith;
}

picky-Affordable : Affordable picky (payment ∷ []) (ledger_of picky chain)
unfolding ledger_of state_or_zero get_wallet_state bytes_beq address_of bytes_to_address
    base58_encoding cut hex read_balance
picky-Affordable = (picky-IsPlain, omega arith, omega arith, tt)

import_block-refuses_again_example :
    (bc' : Blockchain) × (import_block picky quiet [] (λ i. 0) chain no_validators block
      ≡ go bc' no_validators)
    × ((again : Block) (t : Transaction)
        → again.index ≢ 0
        → Memᴰ t (payment ∷ [])
        → Memᴰ t again.transactions
        → validate_block picky bc' again ≢ ok true)
unfolding bytes_beq rune_string
import_block-refuses_again_example =
    import_block-refuses_again picky
      (record { get-put = toy-Stores.get-put; get-delete = toy-Stores.get-delete }) toy-RoundTrips
      (record { balance_bound = toy-Balances.balance_bound })
      (record { put_some = toy-Writable.put_some; account_encodes = toy-Writable.account_encodes })
      quiet [] (λ i. 0) chain no_validators block (λ e. ground arith) picky_accepts picky-Affordable
      refl

alice_listed : mem_bytes alice (alice ∷ bob ∷ []) ≡ true
unfolding mem_bytes bytes_beq
alice_listed = refl

bob_listed : mem_bytes bob (alice ∷ bob ∷ []) ≡ true
unfolding mem_bytes bytes_beq
bob_listed = refl

bob_fresh : mem_bytes alice (bob ∷ []) ≡ false
unfolding mem_bytes bytes_beq
bob_fresh = refl

both-Distinct : Distinct (alice ∷ bob ∷ [])
unfolding mem_bytes
both-Distinct = (bob_fresh, (refl, tt))

alice_counted : mem_bytes (address_of toy payment) (alice ∷ bob ∷ []) ≡ true
alice_counted = ap (λ a. mem_bytes a (alice ∷ bob ∷ [])) payment_address ∙ alice_listed

import_block-conserves_example :
    (bc' : Blockchain) × (import_block toy quiet [] (λ i. 0) chain no_validators block
      ≡ go bc' no_validators)
    × (total (alice ∷ bob ∷ []) (ledger_of toy bc') + gas_of (payment ∷ [])
        ≡ total (alice ∷ bob ∷ []) (ledger_of toy chain))
import_block-conserves_example =
    import_block-conserves toy toy-Stores toy-RoundTrips toy-Balances toy-Writable quiet [] (λ i. 0)
      chain no_validators block (alice ∷ bob ∷ []) (λ e. ground arith) block_accepted
      payment-Affordable both-Distinct (alice_counted, bob_listed, tt)
