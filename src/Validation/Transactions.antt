-- ===== src/Validation/Transactions.antt =====
-- blockchain/processing.go, `ValidateTransaction`: what a nil error says of a transaction.
use dexmd.Base.{◌+◌, ◌*◌, ◌%◌, ◌^◌, ◌≤◌, ◌<◌, ◌≡◌, ◌↔◌, true, arith, Bytes, bytes_eq, nat_eq, ok}
use dexmd.Proto.{Transaction, AccountState}
use dexmd.External.{External}
use dexmd.Util.{add_u64o}
use dexmd.Wallet.{bytes_to_address, is_wallet_valid, signature_valid}
use dexmd.Chain.{Blockchain, get_wallet_state}
use dexmd.Validation.{transaction_hash, validate_transaction}

-- What `ValidateTransaction` is to check of a transaction against the state of its sender.
pub record IsPayable (t : Transaction) (state : AccountState) : Type 0 where
  pub enough_gas : 16000 ≤ t.gas
  pub covered : t.amount + t.gas * 1000000000 % 2 ^ 32 ≤ state.balance

module _ (x : External) (bc : Blockchain) (t : Transaction) (sender : Bytes) (state : AccountState)
    (address : bytes_to_address x t.sender t.shard ≡ ok sender)
    (known : is_wallet_valid x t.recipient ≡ ok true)
    (found : get_wallet_state x bc sender ≡ ok state) where
  -- For a valid recipient and a sender with a state, a signature that verifies and an amount that
  -- does not overflow with the gas: `ValidateTransaction` returns nil exactly for at least 16000 gas
  -- and a balance that covers the amount and the gas times 10^9 as a uint32.
  pub validate_transaction_exact :
      signature_valid x t.sender t.r t.s (transaction_hash x t) ≡ ok true
      → t.amount + t.gas * 1000000000 % 2 ^ 32 < 2 ^ 64
      → (validate_transaction x bc t ≡ ok tt) ↔ IsPayable t state
  unfolding validate_transaction add_u64o
  validate_transaction_exact signed fits = (
    λ h. record { enough_gas = ground arith; covered = ground arith },
    λ p. rw (address, known, signed, found) (ground arith),
  )
