-- ===== src/Validation/Examples.antt =====
-- The theorems on transactions and blocks, at concrete values.
use dexmd.Validation.{already_included}
use dexmd.Util.{sub_u64o}
use dexmd.Util.{add_u64o}
use dexmd.Text.{hex}
use dexmd.Base.{bytes_beq}
use dexmd.External.Toy.{cut}
use dexmd.Wallet.{base58_encoding}
use dexmd.Base.{
  ◌+◌, ◌-◌, ◌^◌, ◌≤◌, ◌≡◌, refl, [], ◌∷◌, some, true, arith, Bytes, bytes_eq, nat_eq, All, ok,
  lookup, insert,
}
use dexmd.Proto.{Transaction, AccountState, Block}
use dexmd.External.Toy.{toy, no_block, toy-Balances, lossy, read_balance}
use dexmd.Wallet.{bytes_to_address, signature_valid}
use dexmd.Chain.{get_wallet_state}
use dexmd.Chain.Samples.{alice, alice_key, chain, payment, alice_state, alice_address, alice_found}
use dexmd.Validation.{
  transaction_hash, validate_block, validate_step, current_state, already_included,
}
use dexmd.Validation.Spends.{Fits, IsSigned, spent}
use dexmd.Validation.Blocks.{validate_block-spends, validate_step-overflow}

payment_signed :
    signature_valid toy alice_key (1 ∷ []) (1 ∷ []) (transaction_hash toy payment) ≡ ok true
unfolding signature_valid
payment_signed = refl

abbrev forged : Transaction
forged = record payment { r = 2 ∷ []; gas = 0; amount = 10000000 }

abbrev two_payments : Block
two_payments = record no_block {
  index = 4;
  transactions = payment ∷ record payment { nonce = 1 } ∷ [];
  merkle_root_receipt = 2 ∷ [];
}

two_payments_accepted : validate_block toy chain two_payments ≡ ok true
unfolding validate_block bytes_to_address base58_encoding cut signature_valid lookup
    get_wallet_state bytes_beq hex read_balance add_u64o sub_u64o insert
two_payments_accepted = refl

two_payments_fit : All (Fits toy chain) two_payments.transactions
two_payments_fit = (omega arith, (omega arith, tt))

validate_block-spends_example :
    All (IsSigned toy chain) two_payments.transactions
    × ((a : Bytes) (state : AccountState)
        → get_wallet_state toy chain a ≡ ok state
        → spent toy chain a two_payments.transactions ≤ state.balance)
validate_block-spends_example =
    validate_block-spends toy chain toy-Balances two_payments (omega arith) two_payments_fit
      two_payments_accepted

abbrev huge : Transaction
huge = record payment { amount = 2 ^ 64 - 10000 }

validate_step-overflow_example :
    validate_step toy chain [] huge
    ≡ ok (
        some (
          insert alice
            (record alice_state { balance = 70000 - (2 ^ 64 - 10000 + 20000 - 2 ^ 64) })
            []))
unfolding transaction_hash lossy signature_valid current_state get_wallet_state lookup bytes_beq
    already_included
validate_step-overflow_example =
    validate_step-overflow toy chain [] huge alice alice_state alice_address payment_signed
      alice_found refl (omega arith) (omega arith) (omega arith) (omega arith) (omega arith)

-- Three copies of one payment.
abbrev thrice : Block
thrice = record no_block {
  index = 3;
  transactions = payment ∷ payment ∷ payment ∷ [];
  merkle_root_receipt = 3 ∷ [];
}
